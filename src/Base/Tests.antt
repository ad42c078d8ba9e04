-- ===== src/Base/Tests.antt =====
-- Go's `==`, its conditional, and the Boolean tests on numbers.
use Prim.Native.Nat.{ℕ, compare, Ordering}
use Prim.Native.Char.{code}
use Prim.Native.String.{String}
use mathlib.Core.Path.{◌≡◌, refl, ap}
use mathlib.Core.Logic.{ite, dite, ◌⊎◌, inl, inr, ◌↔◌}
use mathlib.Core.Bool.{Bool, true, false, cond}
use mathlib.Core.Option.{Option, none, some, none-ne-some, some-ne-none, some-injective}
use mathlib.Core.List.{List, [], ◌∷◌}
use native.Mathlib.Decide.{ℕ_discrete}
use native.Mathlib.Omega.{arith}

infix 1 if◌then◌else◌
abbrev pub if◌then◌else◌ {ℓ} : {A : Type ℓ} → Bool → A → A → A
if b then x else y = cond b x y

abbrev pub ltb : ℕ → ℕ → Bool
ltb a b = elim (compare a b) [ Ordering.lt ↦ true | _ ↦ false ]

abbrev pub leb : ℕ → ℕ → Bool
leb a b = elim (compare a b) [ Ordering.gt ↦ false | _ ↦ true ]

-- A type whose values Go compares with `==`.
pub record Eq {ℓ} (A : Type ℓ) : Type ℓ where
  pub dec : Discrete A

infix 50 ◌==◌ ◌!=◌
abbrev pub ◌==◌ {ℓ} : {A : Type ℓ} ⦃e : Eq A⦄ → A → A → Bool
◌==◌ ⦃e⦄ a b = ite (e.dec a b) true false

abbrev pub ◌!=◌ {ℓ} : {A : Type ℓ} ⦃e : Eq A⦄ → A → A → Bool
◌!=◌ ⦃e⦄ a b = ite (e.dec a b) false true

-- A Go string as its runes. Texts that are not valid UTF-8 are outside the model.
abbrev pub Text : Type 0
Text = List ℕ

-- The runes of a literal.
abbrev pub codes : String → Text
codes String.[] = []
codes (String.◌∷◌ c s) = code c ∷ codes s

pub cons-inj {ℓ} : {A : Type ℓ} (a b : A) (xs ys : List A) → a ∷ xs ≡ b ∷ ys → (a ≡ b) × (xs ≡ ys)
cons-inj a b xs ys h = ground arith

pub cons_path {ℓ} : {A : Type ℓ} (a b : A) (xs ys : List A) → a ≡ b → xs ≡ ys → a ∷ xs ≡ b ∷ ys
cons_path a b xs ys p q = cc

pub nil-ne-cons {ℓ} : {A : Type ℓ} (a : A) (xs : List A) → ¬ ([] ≡ a ∷ xs)
nil-ne-cons a xs h = cc

pub cons-ne-nil {ℓ} : {A : Type ℓ} (a : A) (xs : List A) → ¬ (a ∷ xs ≡ [])
cons-ne-nil a xs h = cc

unfoldable pub list_dec {ℓ} : {A : Type ℓ} → Discrete A → Discrete (List A)
list_dec d [] [] = yes refl
list_dec d [] (b ∷ ys) = no (nil-ne-cons b ys)
list_dec d (a ∷ xs) [] = no (cons-ne-nil a xs)
list_dec d (a ∷ xs) (b ∷ ys) =
    let rest = list_dec d xs ys in
    dite (d a b)
      (λ p.
        dite rest (λ q. yes (cons_path a b xs ys p q)) (λ n. no (λ h. n (cons-inj a b xs ys h).1)))
      (λ n. no (λ h. n (cons-inj a b xs ys h).0))

-- Shut in proofs, where a split on `s == t` yields the equation or its negation.
instance unfoldable pub nat_eq : Eq ℕ
unfolding ℕ_discrete
nat_eq = record { dec = ℕ_discrete }

instance unfoldable pub text_eq : Eq Text
unfolding list_dec ℕ_discrete
text_eq = record { dec = list_dec ℕ_discrete }

unfoldable pub option_dec {ℓ} : {A : Type ℓ} → Discrete A → Discrete (Option A)
option_dec d none none = yes refl
option_dec d none (some b) = no (none-ne-some b)
option_dec d (some a) none = no (some-ne-none a)
option_dec d (some a) (some b) =
    dite (d a b) (λ p. yes (ap some p)) (λ n. no (λ p. n (some-injective a b p)))

instance unfoldable pub option_eq {ℓ} : {A : Type ℓ} ⦃e : Eq A⦄ → Eq (Option A)
unfolding option_dec
option_eq ⦃e⦄ = record { dec = option_dec e.dec }

-- To split on a computed value and keep the equation.
pub Bool-cases : (b : Bool) → (b ≡ true) ⊎ (b ≡ false)
Bool-cases true = inl refl
Bool-cases false = inr refl

pub Option-cases {ℓ} : {A : Type ℓ} (o : Option A) → (o ≡ none) ⊎ ((a : A) × (o ≡ some a))
Option-cases none = inl refl
Option-cases (some a) = inr (a, refl)

pub ==_iff {ℓ} : {A : Type ℓ} ⦃e : Eq A⦄ (a b : A) → ((a == b) ≡ true) ↔ (a ≡ b)
==_iff a b = (λ h. ground arith, λ h. ground arith)
