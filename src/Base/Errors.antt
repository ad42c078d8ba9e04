-- ===== src/Base/Errors.antt =====
-- A Go function that returns a value and an error.
use mathlib.Core.Path.{◌≡◌, refl}
use mathlib.Core.Bool.{Bool, true, false}
use mathlib.Core.Logic.{◌⊎◌, inl, inr}

pub data Result (E A : Type 0) : Type 0 where
  ok : A → Result E A
  err : E → Result E A

infixl 5 ◌>>=◌ ◌>>◌
abbrev pub ◌>>=◌ : {E A B : Type 0} → Result E A → (A → Result E B) → Result E B
◌>>=◌ (ok value) next = next value
◌>>=◌ (err failure) next = err failure

abbrev pub ◌>>◌ : {E B : Type 0} → Result E (Unit {0}) → Result E B → Result E B
check >> rest = check >>= λ _. rest

-- `if test { return err }`
abbrev pub fail_if : {E : Type 0} → Bool → E → Result E (Unit {0})
fail_if true e = err e
fail_if false e = ok tt

-- `fmt.Errorf("…: %w", err)`
abbrev pub wrap : {E F A : Type 0} → (E → F) → Result E A → Result F A
wrap f (ok a) = ok a
wrap f (err e) = err (f e)

pub Result-cases :
    {E A : Type 0} (r : Result E A) → ((a : A) × (r ≡ ok a)) ⊎ ((e : E) × (r ≡ err e))
Result-cases (ok a) = inl (a, refl)
Result-cases (err e) = inr (e, refl)

pub >>=-eq-ok :
    {E A B : Type 0} (first : Result E A) (next : A → Result E B) {b : B}
    → (first >>= next) ≡ ok b
    → (a : A) × (first ≡ ok a) × (next a ≡ ok b)
>>=-eq-ok (ok value) next done = (value, refl, done)
>>=-eq-ok (err failure) next done = cc
