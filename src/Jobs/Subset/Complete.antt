-- ===== src/Jobs/Subset/Complete.antt =====
-- A part of a sound stored plan passes.
use dokploymigrator.Base.{
  List, [], ◌∷◌, some, true, false, text_eq, All, ok, ◌≡◌, ◌↔◌, refl, arith, inl, inr, Bool-cases,
}
use dokploymigrator.Model.{PlanRow, MigrationPlan}
use dokploymigrator.Jobs.Subset.{
  Identity, identity_of, same_identity, same_row, find_row, is_found, collect_stored, is_submitted,
  check_submitted, validate_plan_subset,
}
use dokploymigrator.Jobs.Subset.Sound.{
  Distinct, IsComplete, IsPart, has_row, same_row_iff, validate_plan_subset-IsPart,
}

same_identity_iff : (a b : Identity) → (same_identity a b ≡ true) ↔ (a ≡ b)
unfolding same_identity
same_identity_iff a b = (λ h. ground arith, λ h. ground arith)

same_identity_self : (a : Identity) → same_identity a a ≡ true
same_identity_self a = (same_identity_iff a a).1 refl

collect-step :
    (q : PlanRow) (rows acc out : List PlanRow)
    → collect_stored (q ∷ rows) acc ≡ ok out
    → (is_found (find_row (identity_of q) acc) ≡ false) × (collect_stored rows (q ∷ acc) ≡ ok out)
unfolding collect_stored
collect-step q rows acc out h = ground arith

find_row-cons :
    (i : Identity) (q r : PlanRow) (acc : List PlanRow)
    → is_found (find_row (identity_of q) acc) ≡ false
    → find_row i acc ≡ some r
    → find_row i (q ∷ acc) ≡ some r
unfolding find_row
find_row-cons i q r acc new h = ground (arith, same_identity_iff i (identity_of q))

-- What the map holds, it goes on holding.
find_row-collected :
    (i : Identity) (r : PlanRow) (rows acc out : List PlanRow)
    → collect_stored rows acc ≡ ok out
    → find_row i acc ≡ some r
    → find_row i out ≡ some r
find_row-collected i r [] acc out h k = unfold collect_stored in ground arith
find_row-collected i r (q ∷ rows) acc out h k =
    let (new, rest) = collect-step q rows acc out h in
    find_row-collected i r rows (q ∷ acc) out rest (find_row-cons i q r acc new k)

collected-found :
    (r : PlanRow) (rows acc out : List PlanRow)
    → collect_stored rows acc ≡ ok out
    → has_row r rows ≡ true
    → find_row (identity_of r) out ≡ some r
unfolding find_row
collected-found r [] acc out h k = cc
collected-found r (q ∷ rows) acc out h k =
    let (new, rest) = collect-step q rows acc out h in
    elim (Bool-cases (same_row r q)) [
      | inl same ↦
          find_row-collected (identity_of r) r rows (q ∷ acc) out rest
            (ground (arith, same_row_iff r q, same_identity_self (identity_of q)))
      | inr other ↦ collected-found r rows (q ∷ acc) out rest (ground arith)
    ]

-- The loop over stored rows that are complete and distinct ends.
collected :
    (rows acc : List PlanRow)
    → All IsComplete rows
    → Distinct rows
    → All (λ q. is_found (find_row (identity_of q) acc) ≡ false) rows
    → (out : List PlanRow) × (collect_stored rows acc ≡ ok out)
unfolding collect_stored
collected [] acc _ _ _ = (acc, refl)
collected (q ∷ rows) acc (c, cs) (d, ds) (f, fs) =
    let (out, e) = collected rows (q ∷ acc) cs ds (fresh rows d fs) in (out, ground arith)
  where
    fresh :
        (rest : List PlanRow)
        → All (λ p. same_identity (identity_of p) (identity_of q) ≡ false) rest
        → All (λ p. is_found (find_row (identity_of p) acc) ≡ false) rest
        → All (λ p. is_found (find_row (identity_of p) (q ∷ acc)) ≡ false) rest
    fresh [] _ _ = tt
    fresh (p ∷ rest) (n, ns) (m, ms) = (unfold find_row in ground arith, fresh rest ns ms)

submitted_passes :
    (stored : List PlanRow) (seen : List Identity) (rows : List PlanRow)
    → All (λ r. (find_row (identity_of r) stored ≡ some r) × IsComplete r) rows
    → Distinct rows
    → All (λ r. is_submitted (identity_of r) seen ≡ false) rows
    → check_submitted stored seen rows ≡ ok tt
unfolding check_submitted
submitted_passes stored seen [] _ _ _ = refl
submitted_passes stored seen (r ∷ rows) ((found, complete), fs) (d, ds) (n, ns) = ground (
  arith,
  same_row_iff r r,
  submitted_passes stored (identity_of r ∷ seen) rows fs ds (fresh rows d ns),
)
  where
    fresh :
        (rest : List PlanRow)
        → All (λ p. same_identity (identity_of p) (identity_of r) ≡ false) rest
        → All (λ p. is_submitted (identity_of p) seen ≡ false) rest
        → All (λ p. is_submitted (identity_of p) (identity_of r ∷ seen) ≡ false) rest
    fresh [] _ _ = tt
    fresh (p ∷ rest) (k, ks) (m, ms) = (unfold is_submitted in ground arith, fresh rest ks ms)

never_submitted :
    (rows : List PlanRow) → All (λ q. is_found (find_row (identity_of q) []) ≡ false) rows
unfolding find_row
never_submitted [] = tt
never_submitted (q ∷ rows) = (refl, never_submitted rows)

none_seen : (rows : List PlanRow) → All (λ r. is_submitted (identity_of r) [] ≡ false) rows
unfolding is_submitted
none_seen [] = tt
none_seen (r ∷ rows) = (refl, none_seen rows)

found_in_stored :
    (stored out rows : List PlanRow)
    → collect_stored stored [] ≡ ok out
    → All (λ r. (has_row r stored ≡ true) × IsComplete r) rows
    → All (λ r. (find_row (identity_of r) out ≡ some r) × IsComplete r) rows
found_in_stored stored out [] h _ = tt
found_in_stored stored out (r ∷ rows) h ((m, c), ms) =
    ((collected-found r stored [] out h m, c), found_in_stored stored out rows h ms)

part_passes :
    (stored submitted : MigrationPlan) (out : List PlanRow)
    → collect_stored stored.rows [] ≡ ok out
    → check_submitted out [] submitted.rows ≡ ok tt
    → IsPart stored submitted
    → validate_plan_subset stored submitted ≡ ok tt
unfolding validate_plan_subset
part_passes stored submitted out c p part = ground arith

-- Where the rows of a stored plan are complete and no two of them have one identity, a submitted
-- plan passes exactly if it is a part of the stored one.
pub validate_plan_subset_iff :
    (stored submitted : MigrationPlan)
    → All IsComplete stored.rows
    → Distinct stored.rows
    → (validate_plan_subset stored submitted ≡ ok tt) ↔ IsPart stored submitted
validate_plan_subset_iff stored submitted complete distinct = (
  validate_plan_subset-IsPart stored submitted,
  λ part.
      let (out, e) = collected stored.rows [] complete distinct (never_submitted stored.rows) in
      part_passes stored submitted out e
        (submitted_passes out [] submitted.rows
          (found_in_stored stored.rows out submitted.rows e part.rows) part.distinct
          (none_seen submitted.rows))
        part,
)
