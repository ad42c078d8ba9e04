-- ===== src/State/Ranks.antt =====
-- Which jobs stand on a page of the history of internal/state/store.go: each by how many jobs are newer.
use dokploymigrator.Base.{
  ℕ, zero, suc, ◌+◌, ◌≤◌, ◌<◌, Text, List, [], ◌∷◌, true, false, ◌==◌, text_eq, ◌≡◌, refl, sym, ◌∙◌,
  arith, inl, inr, ◌↔◌, All, In, take, drop, count_by, IsSorted, sort_by, sort_by-IsSorted,
  count_by-sort_by, subst,
}
use dokploymigrator.State.Tables.{JobRow, has_job}
use dokploymigrator.State.Jobs.{listed_before}
use dokploymigrator.State.Invariant.{UniqueIds}
use dokploymigrator.State.Order.{
  is_newer, is_newer-asym, is_newer_irrefl, is_newer-chain, is_newer-total, listed_before-is_newer,
}

-- Every job is newer than all behind it.
abbrev pub NewestFirst : List JobRow → Type 0
NewestFirst [] = Unit
NewestFirst (a ∷ jobs) = All (λ b. is_newer a b ≡ true) jobs × NewestFirst jobs

-- How many of the jobs are newer than a job.
abbrev pub rank : List JobRow → JobRow → ℕ
rank jobs r = count_by (λ j. is_newer j r) jobs

absent_count :
    (id : Text) (jobs : List JobRow) → has_job id jobs ≡ false → count_by (λ j. j.id == id) jobs ≡ 0
unfolding has_job
absent_count id [] h = refl
absent_count id (j ∷ jobs) h = ground (arith, absent_count id jobs)

unique_count :
    (id : Text) (jobs : List JobRow) → UniqueIds jobs → count_by (λ j. j.id == id) jobs ≤ 1
unique_count id [] u = omega arith
unique_count id (j ∷ jobs) (new, u) = elim (text_eq.dec j.id id) [
  | yes e ↦
      let none_left : count_by (λ k. k.id == id) jobs ≡ 0 = absent_count id jobs (rw (sym e) new) in
      ground arith
  | no n ↦ ground (arith, unique_count id jobs u)
]

history-IsSorted : (jobs : List JobRow) → IsSorted listed_before (sort_by listed_before jobs)
history-IsSorted jobs =
    sort_by-IsSorted listed_before (λ j. Unit {0}) asym chain jobs (all_units jobs)
  where
    asym : (a b : JobRow) → listed_before a b ≡ true → listed_before b a ≡ false
    asym a b h =
        listed_before-is_newer b a ∙ is_newer-asym a b (sym (listed_before-is_newer a b) ∙ h)

    chain :
        (a b c : JobRow)
        → Unit {0}
        → Unit {0}
        → Unit {0}
        → listed_before b a ≡ false
        → listed_before c b ≡ false
        → listed_before c a ≡ false
    chain a b c _ _ _ h k =
        listed_before-is_newer c a
        ∙ is_newer-chain a b c (sym (listed_before-is_newer b a) ∙ h)
            (sym (listed_before-is_newer c b) ∙ k)

    all_units : (jobs : List JobRow) → All (λ j. Unit {0}) jobs
    all_units [] = tt
    all_units (j ∷ jobs) = (tt, all_units jobs)

newer_than-All :
    (a : JobRow) (jobs : List JobRow)
    → All (λ b. listed_before b a ≡ false) jobs
    → count_by (λ j. j.id == a.id) jobs ≤ 0
    → All (λ b. is_newer a b ≡ true) jobs
newer_than-All a [] _ _ = tt
newer_than-All a (b ∷ jobs) (h, hs) c = (
  is_newer-total a b (sym (listed_before-is_newer b a) ∙ h) (λ e. ground (arith, sym e)),
  newer_than-All a jobs hs (ground arith),
)

sorted-NewestFirst :
    (jobs : List JobRow)
    → IsSorted listed_before jobs
    → ((id : Text) → count_by (λ j. j.id == id) jobs ≤ 1)
    → NewestFirst jobs
sorted-NewestFirst [] _ _ = tt
sorted-NewestFirst (a ∷ jobs) (h, hs) one = (
  newer_than-All a jobs h (ground (arith, one a.id)),
  sorted-NewestFirst jobs hs (λ id. ground (arith, one id)),
)

pub history-NewestFirst :
    (jobs : List JobRow) → UniqueIds jobs → NewestFirst (sort_by listed_before jobs)
history-NewestFirst jobs u =
    sorted-NewestFirst (sort_by listed_before jobs) (history-IsSorted jobs) (λ id.
      omega (arith, count_by-sort_by listed_before (λ j. j.id == id) jobs, unique_count id jobs u))

pub In-take : (n : ℕ) (jobs : List JobRow) (r : JobRow) → In r (take n jobs) → In r jobs
In-take zero jobs r h = absurd h
In-take (suc n) [] r h = absurd h
In-take (suc n) (j ∷ jobs) r (inl e) = inl e
In-take (suc n) (j ∷ jobs) r (inr h) = inr (In-take n jobs r h)

pub In-drop : (n : ℕ) (jobs : List JobRow) (r : JobRow) → In r (drop n jobs) → In r jobs
In-drop zero jobs r h = h
In-drop (suc n) [] r h = absurd h
In-drop (suc n) (j ∷ jobs) r h = inr (In-drop n jobs r h)

newer_than_one :
    (a r : JobRow) (jobs : List JobRow)
    → All (λ b. is_newer a b ≡ true) jobs
    → In r jobs
    → is_newer a r ≡ true
newer_than_one a r [] _ i = absurd i
newer_than_one a r (b ∷ jobs) (h, hs) (inl e) = rw e at h
newer_than_one a r (b ∷ jobs) (h, hs) (inr i) = newer_than_one a r jobs hs i

-- No job is newer than the first one.
rank_of_first :
    (a : JobRow) (jobs : List JobRow) → All (λ b. is_newer a b ≡ true) jobs → rank jobs a ≡ 0
rank_of_first a [] _ = refl
rank_of_first a (b ∷ jobs) (h, hs) = ground (arith, is_newer-asym a b h, rank_of_first a jobs hs)

rank_of_head :
    (a : JobRow) (jobs : List JobRow) → All (λ b. is_newer a b ≡ true) jobs → rank (a ∷ jobs) a ≡ 0
rank_of_head a jobs h = ground (arith, is_newer_irrefl a, rank_of_first a jobs h)

absent : (a : JobRow) (jobs : List JobRow) → All (λ b. is_newer a b ≡ true) jobs → In a jobs → ⊥
absent a jobs h i = ground (arith, newer_than_one a a jobs h i, is_newer_irrefl a)

-- The jobs of a part of a list from the newest to the oldest.
pub part-rank :
    (o n : ℕ) (jobs : List JobRow) (r : JobRow)
    → NewestFirst jobs
    → In r jobs
    → In r (take n (drop o jobs)) ↔ ((o ≤ rank jobs r) × (rank jobs r < o + n))
part-rank o n [] r s i = absurd i
part-rank zero zero (a ∷ jobs) r s i = ((λ h. absurd h), λ h. absurd (omega arith))
part-rank zero (suc n) (a ∷ jobs) r (h, s) (inl e) =
    let none_newer : rank (a ∷ jobs) r ≡ 0 =
      subst (λ x. rank (a ∷ jobs) x ≡ 0) e (rank_of_head a jobs h) in
    ((λ _. (omega arith, omega (arith, none_newer))), λ _. inl e)
part-rank zero (suc n) (a ∷ jobs) r (h, s) (inr i) =
    let one_newer : rank (a ∷ jobs) r ≡ suc (rank jobs r) =
      ground (arith, newer_than_one a r jobs h i) in
    let rest = part-rank zero n jobs r s i in
    (
      (λ there. elim there [
        | inl e ↦ absurd (absent a jobs h (subst (λ x. In x jobs) (sym e) i))
        | inr j ↦ let (_, high) = rest.0 j in (omega arith, omega (arith, one_newer))
      ]),
      λ k. inr (rest.1 (omega arith, omega (arith, one_newer, k.1))),
    )
part-rank (suc o) n (a ∷ jobs) r (h, s) (inl e) =
    let none_newer : rank (a ∷ jobs) r ≡ 0 =
      subst (λ x. rank (a ∷ jobs) x ≡ 0) e (rank_of_head a jobs h) in
    (
      (λ there. absurd (
          absent a jobs h
            (subst (λ x. In x jobs) (sym e) (In-drop o jobs r (In-take n (drop o jobs) r there))))),
      λ k. absurd (omega (arith, none_newer)),
    )
part-rank (suc o) n (a ∷ jobs) r (h, s) (inr i) =
    let one_newer : rank (a ∷ jobs) r ≡ suc (rank jobs r) =
      ground (arith, newer_than_one a r jobs h i) in
    let rest = part-rank o n jobs r s i in
    (
      (λ there.
          let (low, high) = rest.0 there in (omega (arith, one_newer), omega (arith, one_newer))),
      λ k. rest.1 (omega (arith, one_newer, k.0), omega (arith, one_newer, k.1)),
    )
