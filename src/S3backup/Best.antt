-- ===== src/S3backup/Best.antt =====
-- What the order and the removal of duplicates of internal/s3backup/s3backup.go leave of the
-- candidates.
use dokploymigrator.Base.{
  Text, List, [], ◌∷◌, contains, true, false, ◌==◌, ◌||◌, text_eq, All, Any, In, All-map, All-In,
  Bool-cases, ◌≡◌, ◌≢◌, refl, sym, subst, ◌⊎◌, inl, inr, arith, IsSorted, All-sort_by, of_sort,
  sort_by-IsSorted,
}
use dokploymigrator.Model.{BackupCandidate}
use dokploymigrator.S3backup.Candidates.{
  manifest_confidence, fallback_confidence, candidate_before, sort_candidates, dedupe_from,
  dedupe_candidates, mark_seen,
}

-- A candidate has one of the two confidences.
abbrev pub IsKind : BackupCandidate → Type 0
IsKind x = (x.confidence ≡ manifest_confidence) ⊎ (x.confidence ≡ fallback_confidence)

-- `y` has the key of `x`, and `x` does not come before it.
abbrev pub IsAsGood : BackupCandidate → BackupCandidate → Type 0
IsAsGood x y = (y.key ≡ x.key) × (candidate_before x y ≡ false)

abbrev pub IsDistinct : List BackupCandidate → Type 0
IsDistinct [] = Unit
IsDistinct (x ∷ xs) = All (λ y. y.key ≢ x.key) xs × IsDistinct xs

-- Of `found`, `kept` holds one candidate for each key, none better, and the best first.
pub record IsBest (found kept : List BackupCandidate) : Type 0 where
  pub known : All (λ y. In y found) kept
  pub best : All (λ x. Any (IsAsGood x) kept) found
  pub distinct : IsDistinct kept
  pub sorted : IsSorted candidate_before kept

candidate_before-asym :
    (x y : BackupCandidate) → candidate_before x y ≡ true → candidate_before y x ≡ false
unfolding candidate_before
candidate_before-asym x y h = ground arith

candidate_before_refl : (x : BackupCandidate) → candidate_before x x ≡ false
unfolding candidate_before
candidate_before_refl x = ground arith

candidate_before-chain :
    (x y z : BackupCandidate)
    → IsKind x
    → IsKind y
    → IsKind z
    → candidate_before y x ≡ false
    → candidate_before z y ≡ false
    → candidate_before z x ≡ false
unfolding candidate_before
candidate_before-chain x y z kx ky kz h h' = ground arith

module _ (Q : BackupCandidate → Type 0) where
  All-dedupe_from :
      (seen : List Text) (cs : List BackupCandidate) → All Q cs → All Q (dedupe_from seen cs)
  unfolding dedupe_from
  All-dedupe_from seen [] _ = tt
  All-dedupe_from seen (c ∷ cs) (q, qs) =
      let rest = All-dedupe_from (mark_seen seen c.key) cs qs in
      elim (Bool-cases (contains seen c.key)) [
        | inl old ↦ rw old (rw old at rest)
        | inr new ↦ rw new (q, rw new at rest)
      ]

dedupe_from-IsSorted :
    (seen : List Text) (cs : List BackupCandidate)
    → IsSorted candidate_before cs
    → IsSorted candidate_before (dedupe_from seen cs)
unfolding dedupe_from
dedupe_from-IsSorted seen [] _ = tt
dedupe_from-IsSorted seen (c ∷ cs) (first, rest) =
    let below =
      All-dedupe_from (λ y. candidate_before y c ≡ false) (mark_seen seen c.key) cs first in
    let sorted = dedupe_from-IsSorted (mark_seen seen c.key) cs rest in
    elim (Bool-cases (contains seen c.key)) [
      | inl old ↦ rw old (rw old at sorted)
      | inr new ↦ rw new (rw new at below, rw new at sorted)
    ]

contains-mark_seen :
    (seen : List Text) (key other : Text)
    → contains (mark_seen seen key) other ≡ (contains seen other || key == other)
contains-mark_seen seen key other = ground arith

-- No key that was seen is kept.
dedupe_from-unseen :
    (seen : List Text) (cs : List BackupCandidate)
    → All (λ y. contains seen y.key ≡ false) (dedupe_from seen cs)
unfolding dedupe_from
dedupe_from-unseen seen [] = tt
dedupe_from-unseen seen (c ∷ cs) =
    let rest =
      All-map (λ y. contains (mark_seen seen c.key) y.key ≡ false)
        (λ y. contains seen y.key ≡ false)
        (λ y h. ground (arith, contains-mark_seen seen c.key y.key)) _
        (dedupe_from-unseen (mark_seen seen c.key) cs) in
    elim (Bool-cases (contains seen c.key)) [
      | inl old ↦ rw old (rw old at rest)
      | inr new ↦ rw new (new, rw new at rest)
    ]

dedupe_from-IsDistinct :
    (seen : List Text) (cs : List BackupCandidate) → IsDistinct (dedupe_from seen cs)
unfolding dedupe_from
dedupe_from-IsDistinct seen [] = tt
dedupe_from-IsDistinct seen (c ∷ cs) =
    let others =
      All-map (λ y. contains (mark_seen seen c.key) y.key ≡ false) (λ y. y.key ≢ c.key)
        (λ y h e. ground (arith, contains-mark_seen seen c.key y.key)) _
        (dedupe_from-unseen (mark_seen seen c.key) cs) in
    let rest = dedupe_from-IsDistinct (mark_seen seen c.key) cs in
    elim (Bool-cases (contains seen c.key)) [
      | inl old ↦ rw old (rw old at rest)
      | inr new ↦ rw new (rw new at others, rw new at rest)
    ]

-- A candidate of a sorted list was seen, or one with its key that is as good is kept.
abbrev IsSettled : List Text → List BackupCandidate → BackupCandidate → Type 0
IsSettled seen kept x = (contains seen x.key ≡ true) ⊎ Any (IsAsGood x) kept

IsSettled-behind :
    (seen : List Text) (c x : BackupCandidate) (kept : List BackupCandidate)
    → IsSettled (c.key ∷ seen) kept x × (candidate_before x c ≡ false)
    → IsSettled seen (c ∷ kept) x
IsSettled-behind seen c x kept (inl marked, behind) = elim (text_eq.dec c.key x.key) [
  | yes e ↦ inr (inl (e, behind))
  | no n ↦ inl (ground arith)
]
IsSettled-behind seen c x kept (inr good, behind) = inr (inr good)

module _ (P Q : BackupCandidate → Type 0) where
  All-both : (xs : List BackupCandidate) → All P xs → All Q xs → All (λ x. P x × Q x) xs
  All-both [] _ _ = tt
  All-both (x ∷ xs) (p, ps) (q, qs) = ((p, q), All-both xs ps qs)

dedupe_from_old :
    (seen : List Text) (c : BackupCandidate) (cs : List BackupCandidate)
    → contains seen c.key ≡ true
    → dedupe_from seen (c ∷ cs) ≡ dedupe_from seen cs
unfolding dedupe_from
dedupe_from_old seen c cs old = rw old refl

dedupe_from_new :
    (seen : List Text) (c : BackupCandidate) (cs : List BackupCandidate)
    → contains seen c.key ≡ false
    → dedupe_from seen (c ∷ cs) ≡ c ∷ dedupe_from (c.key ∷ seen) cs
unfolding dedupe_from
dedupe_from_new seen c cs new = rw new refl

dedupe_from-IsSettled :
    (seen : List Text) (cs : List BackupCandidate)
    → IsSorted candidate_before cs
    → All (IsSettled seen (dedupe_from seen cs)) cs
dedupe_from-IsSettled seen [] _ = tt
dedupe_from-IsSettled seen (c ∷ cs) (first, sorted) = elim (Bool-cases (contains seen c.key)) [
  | inl old ↦
      subst (λ kept. All (IsSettled seen kept) (c ∷ cs)) (sym (dedupe_from_old seen c cs old))
        (inl old, dedupe_from-IsSettled seen cs sorted)
  | inr new ↦
      subst (λ kept. All (IsSettled seen kept) (c ∷ cs)) (sym (dedupe_from_new seen c cs new))
        (
          inr (inl (refl, candidate_before_refl c)),
          All-map _ _ (λ x h. IsSettled-behind seen c x _ h) cs
              (All-both _ _ cs (dedupe_from-IsSettled (c.key ∷ seen) cs sorted) first),
        )
]

-- The candidates that the scan keeps hold every key that was found once, with a candidate that was
-- found for it and that no other of this key comes before; they stand in the order in which those
-- from a manifest come first, and then the newest. All that is asked of the candidates is that each
-- has one of the two confidences.
pub dedupe_candidates-IsBest :
    (found : List BackupCandidate)
    → All IsKind found
    → IsBest found (dedupe_candidates (sort_candidates found))
unfolding dedupe_candidates sort_candidates
dedupe_candidates-IsBest found kinds =
    let sorted =
      sort_by-IsSorted candidate_before IsKind candidate_before-asym candidate_before-chain found
        kinds in
    record {
      known =
          All-dedupe_from (λ y. In y found) [] _
            (All-sort_by candidate_before (λ y. In y found) found (All-In found));
      best =
          All-map _ _ (λ x h. elim h [ inl e ↦ absurd (cc) | inr good ↦ good ]) found
            (of_sort candidate_before (IsSettled [] _) found (dedupe_from-IsSettled [] _ sorted));
      distinct = dedupe_from-IsDistinct [] _;
      sorted = dedupe_from-IsSorted [] _ sorted;
    }
