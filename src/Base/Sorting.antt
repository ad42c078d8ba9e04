-- ===== src/Base/Sorting.antt =====
-- `sort.SliceStable` with a test `lt`: the one stable order. `sort.Slice` and SQL's `ORDER BY` are
-- modelled by it too, where the program's keys are distinct or the order among equals is free.
use mathlib.Core.Bool.{Bool}
use mathlib.Core.List.{List, [], ◌∷◌}
use dokploymigrator.Base.Tests.{if◌then◌else◌}

module _ {ℓ} {A : Type ℓ} (lt : A → A → Bool) where
  -- `x` stood before all of the list: it stays before its equals.
  unfoldable pub insert_by : A → List A → List A
  insert_by x [] = x ∷ []
  insert_by x (y ∷ ys) = if lt y x then y ∷ insert_by x ys else x ∷ y ∷ ys

  unfoldable pub sort_by : List A → List A
  unfolding insert_by
  sort_by [] = []
  sort_by (x ∷ xs) = insert_by x (sort_by xs)
