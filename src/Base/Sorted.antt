-- ===== src/Base/Sorted.antt =====
-- What `sort_by` does: it keeps the elements, and where the test is an order among the elements, none
-- of them stands behind one that it is less than.
use mathlib.Core.Path.{◌≡◌, refl}
use mathlib.Core.Bool.{Bool, true, false}
use mathlib.Core.Logic.{inl, inr}
use mathlib.Core.List.{List, [], ◌∷◌}
use native.Mathlib.Omega.{arith}
use dokploymigrator.Base.Tests.{Bool-cases}
use dokploymigrator.Base.Lists.{All, count_by}
use dokploymigrator.Base.Sorting.{insert_by, sort_by}

module _ {A : Type 0} (lt : A → A → Bool) where
  abbrev pub IsSorted : List A → Type 0
  IsSorted [] = Unit
  IsSorted (x ∷ xs) = All (λ y. lt y x ≡ false) xs × IsSorted xs

  count_by-insert_by :
      (p : A → Bool) (x : A) (ys : List A) → count_by p (insert_by lt x ys) ≡ count_by p (x ∷ ys)
  unfolding insert_by
  count_by-insert_by p x [] = refl
  count_by-insert_by p x (y ∷ ys) = ground (arith, count_by-insert_by p x ys)

  pub count_by-sort_by : (p : A → Bool) (xs : List A) → count_by p (sort_by lt xs) ≡ count_by p xs
  unfolding sort_by
  count_by-sort_by p [] = refl
  count_by-sort_by p (x ∷ xs) =
      ground (arith, count_by-insert_by p x (sort_by lt xs), count_by-sort_by p xs)

  module _ {κ} (Q : A → Type κ) where
    All-insert_by : (x : A) (ys : List A) → Q x → All Q ys → All Q (insert_by lt x ys)
    unfolding insert_by
    All-insert_by x [] q _ = (q, tt)
    All-insert_by x (y ∷ ys) q (qy, h) = elim (Bool-cases (lt y x)) [
      | inl less ↦ rw less (qy, All-insert_by x ys q h)
      | inr other ↦ rw other (q, (qy, h))
    ]

    pub All-sort_by : (xs : List A) → All Q xs → All Q (sort_by lt xs)
    unfolding sort_by
    All-sort_by [] _ = tt
    All-sort_by (x ∷ xs) (q, h) = All-insert_by x (sort_by lt xs) q (All-sort_by xs h)

    of_insert : (x : A) (ys : List A) → All Q (insert_by lt x ys) → Q x × All Q ys
    unfolding insert_by
    of_insert x [] (q, _) = (q, tt)
    of_insert x (y ∷ ys) h = elim (Bool-cases (lt y x)) [
      | inl less ↦
          let (qy, rest) = rw less at h in let (q, all) = of_insert x ys rest in (q, (qy, all))
      | inr other ↦ rw other at h
    ]

    pub of_sort : (xs : List A) → All Q (sort_by lt xs) → All Q xs
    unfolding sort_by
    of_sort [] _ = tt
    of_sort (x ∷ xs) h = let (q, rest) = of_insert x (sort_by lt xs) h in (q, of_sort xs rest)

  -- A test that is an order among the elements with `P`.
  module _ (P : A → Type 0) (asym : (x y : A) → lt x y ≡ true → lt y x ≡ false)
      (chain : (x y z : A)
        → P x
        → P y
        → P z
        → lt y x ≡ false
        → lt z y ≡ false
        → lt z x ≡ false) where
    behind :
        (x y : A) (ys : List A)
        → P x
        → P y
        → All P ys
        → lt y x ≡ false
        → All (λ z. lt z y ≡ false) ys
        → All (λ z. lt z x ≡ false) ys
    behind x y [] px py _ h _ = tt
    behind x y (z ∷ zs) px py (pz, ps) h (hz, hs) =
        (chain x y z px py pz h hz, behind x y zs px py ps h hs)

    insert_by-IsSorted :
        (x : A) (ys : List A) → P x → All P ys → IsSorted ys → IsSorted (insert_by lt x ys)
    unfolding insert_by
    insert_by-IsSorted x [] px _ _ = (tt, tt)
    insert_by-IsSorted x (y ∷ ys) px (py, ps) (hy, hs) = elim (Bool-cases (lt y x)) [
      | inl less ↦ rw less (
        All-insert_by (λ z. lt z y ≡ false) x ys (asym y x less) hy,
        insert_by-IsSorted x ys px ps hs,
      )
      | inr other ↦ rw other ((other, behind x y ys px py ps other hy), (hy, hs))
    ]

    pub sort_by-IsSorted : (xs : List A) → All P xs → IsSorted (sort_by lt xs)
    unfolding sort_by
    sort_by-IsSorted [] _ = tt
    sort_by-IsSorted (x ∷ xs) (px, ps) =
        insert_by-IsSorted x (sort_by lt xs) px (All-sort_by P xs ps) (sort_by-IsSorted xs ps)
