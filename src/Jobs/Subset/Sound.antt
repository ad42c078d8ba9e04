-- ===== src/Jobs/Subset/Sound.antt =====
-- A submitted plan that passes is a part of the stored one.
use mathlib.Core.Logic.Or
use mathlib.Core.List.{Mem, mem-cons}
use dokploymigrator.Base.{
  List, [], ◌∷◌, some, Bool, true, false, ◌||◌, text_eq, any, All, ok, ◌≡◌, ◌≢◌, ◌↔◌, refl, arith,
  inl, inr, Bool-cases, Option-cases,
}
use dokploymigrator.Model.{PlanRow, MigrationPlan}
use dokploymigrator.Jobs.Subset.{
  Identity, identity_of, is_incomplete, same_identity, same_row, find_row, collect_stored,
  is_submitted, check_submitted, validate_plan_subset,
}

pub same_row_iff : (a b : PlanRow) → (same_row a b ≡ true) ↔ (a ≡ b)
unfolding same_row
same_row_iff a b = (λ h. ground arith, λ h. ground arith)

-- No two rows have one identity.
abbrev pub Distinct : List PlanRow → Type 0
Distinct [] = Unit
Distinct (r ∷ rows) =
    All (λ q. same_identity (identity_of q) (identity_of r) ≡ false) rows × Distinct rows

abbrev pub IsComplete : PlanRow → Type 0
IsComplete r = is_incomplete (identity_of r) ≡ false

abbrev pub has_row : PlanRow → List PlanRow → Bool
has_row r = any (same_row r)

pub Mem-has_row : (r : PlanRow) (rows : List PlanRow) → has_row r rows ≡ true → Mem r rows
Mem-has_row r [] h = cc
Mem-has_row r (q ∷ rows) h = elim (Bool-cases (same_row r q)) [
  | inl same ↦ mem-cons.1 (Or.inl ((same_row_iff r q).0 same))
  | inr other ↦ mem-cons.1 (Or.inr (Mem-has_row r rows (ground arith)))
]

pub same_row_self : (r : PlanRow) → same_row r r ≡ true
same_row_self r = (same_row_iff r r).1 refl

has_row-found :
    (i : Identity) (r : PlanRow) (rows : List PlanRow)
    → find_row i rows ≡ some r
    → has_row r rows ≡ true
unfolding find_row
has_row-found i r [] h = cc
has_row-found i r (q ∷ rows) h = ground (arith, has_row-found i r rows, same_row_self r)

has_row-collected :
    (r : PlanRow) (rows acc out : List PlanRow)
    → collect_stored rows acc ≡ ok out
    → has_row r out ≡ true
    → (has_row r rows || has_row r acc) ≡ true
unfolding collect_stored
has_row-collected r [] acc out h k = ground arith
has_row-collected r (q ∷ rows) acc out h k = ground (arith, has_row-collected r rows (q ∷ acc) out)

-- What one round of the loop over the submitted rows has checked.
pub record Passed (stored : List PlanRow) (seen : List Identity) (r : PlanRow) : Type 0 where
  pub complete : IsComplete r
  pub fresh : is_submitted (identity_of r) seen ≡ false
  pub found : find_row (identity_of r) stored ≡ some r

pub check-step :
    (stored : List PlanRow) (seen : List Identity) (r : PlanRow) (rows : List PlanRow)
    → check_submitted stored seen (r ∷ rows) ≡ ok tt
    → Passed stored seen r × (check_submitted stored (identity_of r ∷ seen) rows ≡ ok tt)
unfolding check_submitted
check-step stored seen r rows h = elim (Option-cases (find_row (identity_of r) stored)) [
  | inl e ↦ ground arith
  | inr (q, e) ↦ ground (arith, same_row_iff q r)
]

submitted-stored :
    (stored : List PlanRow) (seen : List Identity) (rows : List PlanRow)
    → check_submitted stored seen rows ≡ ok tt
    → All (λ r. (has_row r stored ≡ true) × IsComplete r) rows
submitted-stored stored seen [] h = tt
submitted-stored stored seen (r ∷ rows) h =
    let (passed, rest) = check-step stored seen r rows h in
    (
      (has_row-found _ r stored passed.found, passed.complete),
      submitted-stored stored (identity_of r ∷ seen) rows rest,
    )

-- A row that passes has another identity than those seen before.
submitted-fresh :
    (stored : List PlanRow) (i : Identity) (seen : List Identity) (rows : List PlanRow)
    → ((q : Identity) → is_submitted q seen ≡ false → same_identity q i ≡ false)
    → check_submitted stored seen rows ≡ ok tt
    → All (λ q. same_identity (identity_of q) i ≡ false) rows
submitted-fresh stored i seen [] inside h = tt
submitted-fresh stored i seen (r ∷ rows) inside h =
    let (passed, rest) = check-step stored seen r rows h in
    (
      inside (identity_of r) passed.fresh,
      submitted-fresh stored i (identity_of r ∷ seen) rows
          (λ q k. inside q (unfold is_submitted in ground arith)) rest,
    )

fresh_head :
    (i q : Identity) (seen : List Identity)
    → is_submitted q (i ∷ seen) ≡ false
    → same_identity q i ≡ false
unfolding is_submitted
fresh_head i q seen h = ground arith

submitted-Distinct :
    (stored : List PlanRow) (seen : List Identity) (rows : List PlanRow)
    → check_submitted stored seen rows ≡ ok tt
    → Distinct rows
submitted-Distinct stored seen [] h = tt
submitted-Distinct stored seen (r ∷ rows) h =
    let (passed, rest) = check-step stored seen r rows h in
    (
      submitted-fresh stored (identity_of r) (identity_of r ∷ seen) rows
          (λ q. fresh_head (identity_of r) q seen) rest,
      submitted-Distinct stored (identity_of r ∷ seen) rows rest,
    )

-- What a submitted plan is to the stored one when it may be written.
pub record IsPart (stored submitted : MigrationPlan) : Type 0 where
  pub source : stored.source_server_id ≡ submitted.source_server_id
  pub target : stored.target_server_id ≡ submitted.target_server_id
  pub hash : stored.schema_hash ≡ submitted.schema_hash
  pub some_row : submitted.rows ≢ []
  pub distinct : Distinct submitted.rows
  pub rows : All (λ r. (has_row r stored.rows ≡ true) × IsComplete r) submitted.rows

checked :
    (stored submitted : MigrationPlan)
    → validate_plan_subset stored submitted ≡ ok tt
    → (stored.source_server_id ≡ submitted.source_server_id)
      × (stored.target_server_id ≡ submitted.target_server_id)
      × (stored.schema_hash ≡ submitted.schema_hash)
      × (submitted.rows ≢ [])
      × (out : List PlanRow) × (collect_stored stored.rows [] ≡ ok out)
      × (check_submitted out [] submitted.rows ≡ ok tt)
unfolding validate_plan_subset
checked stored submitted h = ground arith

from_collected :
    (stored out rows : List PlanRow)
    → collect_stored stored [] ≡ ok out
    → All (λ r. (has_row r out ≡ true) × IsComplete r) rows
    → All (λ r. (has_row r stored ≡ true) × IsComplete r) rows
from_collected stored out [] c _ = tt
from_collected stored out (r ∷ rows) c ((h, k), hs) = (
  (ground (arith, has_row-collected r stored [] out c h), k),
  from_collected stored out rows c hs,
)

-- A submitted plan that passes has the servers and the hash of the stored plan, and at least one row;
-- each of its rows is, in all its fields, a row of the stored plan, none is incomplete, and no two
-- have one identity.
pub validate_plan_subset-IsPart :
    (stored submitted : MigrationPlan)
    → validate_plan_subset stored submitted ≡ ok tt
    → IsPart stored submitted
validate_plan_subset-IsPart stored submitted h =
    let (source, target, hash, some_row, out, collected, passed) = checked stored submitted h in
    record {
      source = source;
      target = target;
      hash = hash;
      some_row = some_row;
      distinct = submitted-Distinct out [] submitted.rows passed;
      rows =
          from_collected stored.rows out submitted.rows collected
            (submitted-stored out [] submitted.rows passed);
    }
