-- ===== src/Base/Lists.antt =====
-- Lists measured by native numbers, and Boolean membership.
use Prim.Native.Nat.{ℕ, zero, suc, ◌+◌, min}
use mathlib.Core.Path.{◌≡◌, refl}
use mathlib.Core.Bool.{Bool, false, ◌||◌}
use mathlib.Core.Logic.{◌⊎◌, inl, inr}
use mathlib.Core.List.{List, [], ◌∷◌, ◌++◌, map}
use native.Mathlib.Omega.{arith}
use dokploymigrator.Base.Tests.{Eq, ◌==◌, if◌then◌else◌}

module _ {ℓ} {A : Type ℓ} where
  abbrev pub length : List A → ℕ
  length [] = 0
  length (x ∷ xs) = suc (length xs)

  abbrev pub take : ℕ → List A → List A
  take zero xs = []
  take (suc n) [] = []
  take (suc n) (x ∷ xs) = x ∷ take n xs

  abbrev pub drop : ℕ → List A → List A
  drop zero xs = xs
  drop (suc n) [] = []
  drop (suc n) (x ∷ xs) = drop n xs

  abbrev pub filter_by : (A → Bool) → List A → List A
  filter_by p [] = []
  filter_by p (x ∷ xs) = let rest = filter_by p xs in if p x then x ∷ rest else rest

  abbrev pub any : (A → Bool) → List A → Bool
  any p [] = false
  any p (x ∷ xs) = p x || any p xs

  abbrev pub count_by : (A → Bool) → List A → ℕ
  count_by p [] = 0
  count_by p (x ∷ xs) = (if p x then 1 else 0) + count_by p xs

  pub count_by-append :
      (p : A → Bool) (xs ys : List A) → count_by p (xs ++ ys) ≡ count_by p xs + count_by p ys
  count_by-append p [] ys = omega arith
  count_by-append p (x ∷ xs) ys = ground (arith, count_by-append p xs ys)

  pub length-append : (xs ys : List A) → length (xs ++ ys) ≡ length xs + length ys
  length-append [] ys = omega arith
  length-append (x ∷ xs) ys = omega (arith, length-append xs ys)

  pub length-take : (n : ℕ) (xs : List A) → length (take n xs) ≡ min n (length xs)
  length-take zero xs = omega arith
  length-take (suc n) [] = omega arith
  length-take (suc n) (x ∷ xs) = omega (arith, length-take n xs)

module _ {ℓ} {A : Type ℓ} ⦃e : Eq A⦄ where
  abbrev pub contains : List A → A → Bool
  contains [] a = false
  contains (x ∷ xs) a = a == x || contains xs a

  pub contains-append :
      (xs ys : List A) (a : A) → contains (xs ++ ys) a ≡ (contains xs a || contains ys a)
  contains-append [] ys a = refl
  contains-append (x ∷ xs) ys a = ground (arith, contains-append xs ys a)

-- A predicate on every element; it computes to a tuple.
module _ {ℓ κ} {A : Type ℓ} (P : A → Type κ) where
  abbrev pub All : List A → Type κ
  All [] = Unit
  All (x ∷ xs) = P x × All xs

  pub All-append : (xs ys : List A) → All xs → All ys → All (xs ++ ys)
  All-append [] ys _ hy = hy
  All-append (x ∷ xs) ys (px, hx) hy = (px, All-append xs ys hx hy)

-- A predicate on some element.
module _ {ℓ} {A : Type ℓ} (P : A → Type 0) where
  abbrev pub Any : List A → Type 0
  Any [] = ⊥
  Any (x ∷ xs) = P x ⊎ Any xs

  pub Any-append_left : (xs ys : List A) → Any xs → Any (xs ++ ys)
  Any-append_left [] ys h = absurd h
  Any-append_left (x ∷ xs) ys (inl px) = inl px
  Any-append_left (x ∷ xs) ys (inr h) = inr (Any-append_left xs ys h)

  pub Any-append_right : (xs ys : List A) → Any ys → Any (xs ++ ys)
  Any-append_right [] ys h = h
  Any-append_right (x ∷ xs) ys h = inr (Any-append_right xs ys h)

  pub of_append : (xs ys : List A) → Any (xs ++ ys) → Any xs ⊎ Any ys
  of_append [] ys h = inr h
  of_append (x ∷ xs) ys (inl px) = inl (inl px)
  of_append (x ∷ xs) ys (inr h) = elim (of_append xs ys h) [
    | inl hx ↦ inl (inr hx)
    | inr hy ↦ inr hy
  ]

module _ {ℓ} {A : Type ℓ} (P Q : A → Type 0) where
  pub All-map : ((x : A) → P x → Q x) → (xs : List A) → All P xs → All Q xs
  All-map f [] _ = tt
  All-map f (x ∷ xs) (px, h) = (f x px, All-map f xs h)

  pub Any-map : ((x : A) → P x → Q x) → (xs : List A) → Any P xs → Any Q xs
  Any-map f [] h = absurd h
  Any-map f (x ∷ xs) (inl px) = inl (f x px)
  Any-map f (x ∷ xs) (inr h) = inr (Any-map f xs h)

  -- What all have and what some one has.
  pub All-Any : (xs : List A) → All P xs → Any Q xs → Any (λ x. P x × Q x) xs
  All-Any [] _ h = absurd h
  All-Any (x ∷ xs) (px, all) (inl qx) = inl (px, qx)
  All-Any (x ∷ xs) (px, all) (inr h) = inr (All-Any xs all h)

-- `a` is one of the elements.
abbrev pub In : {A : Type 0} → A → List A → Type 0
In a xs = Any (λ x. x ≡ a) xs

module _ {A : Type 0} where
  -- Every element is an element.
  pub All-In : (xs : List A) → All (λ x. In x xs) xs
  All-In [] = tt
  All-In (x ∷ xs) =
      (inl refl, All-map (λ y. In y xs) (λ y. In y (x ∷ xs)) (λ y h. inr h) xs (All-In xs))

module _ {ℓ} {A : Type ℓ} where
  pub map_pointwise : (f g : A → A) (xs : List A) → ((x : A) → f x ≡ g x) → map f xs ≡ map g xs
  map_pointwise f g [] h = refl
  map_pointwise f g (x ∷ xs) h = ground (arith, h x, map_pointwise f g xs h)

  pub map_twice :
      (f g h : A → A) (xs : List A) → ((x : A) → f (g x) ≡ h x) → map f (map g xs) ≡ map h xs
  map_twice f g h [] e = refl
  map_twice f g h (x ∷ xs) e = ground (arith, e x, map_twice f g h xs e)

  pub map_identity : (f : A → A) (xs : List A) → ((x : A) → f x ≡ x) → map f xs ≡ xs
  map_identity f [] h = refl
  map_identity f (x ∷ xs) h = ground (arith, h x, map_identity f xs h)
