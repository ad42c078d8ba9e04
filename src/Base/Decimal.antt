-- ===== src/Base/Decimal.antt =====
-- The digits that `%d` prints, and the number that they are.
use Prim.Native.Nat.{ℕ, zero, suc, ◌+◌, ◌*◌, ◌-◌, ◌/◌, ◌%◌, ◌≤◌, ◌<◌}
use mathlib.Core.Path.{◌≡◌, refl, sym, ap, ◌∙◌}
use mathlib.Core.Bool.{true}
use mathlib.Core.Option.{some}
use mathlib.Core.Logic.{◌≢◌, inl, inr}
use mathlib.Core.List.{[], ◌∷◌}
use native.Mathlib.Omega.{arith}
use dokploymigrator.Base.Tests.{Text, Bool-cases, nat_eq, leb, ltb}
use dokploymigrator.Base.Lists.{All}
use dokploymigrator.Base.Strings.{decimal, decimal_from}
use dokploymigrator.Base.Digits.{number, number_from}

abbrev pub IsDigit : ℕ → Type 0
IsDigit c = (48 ≤ c) × (c ≤ 57)

decimal_from-IsDigit :
    (fuel n : ℕ) (out : Text) → All IsDigit out → All IsDigit (decimal_from fuel n out)
unfolding decimal_from
decimal_from-IsDigit zero n out h = h
decimal_from-IsDigit (suc fuel) n out h =
    let digit : IsDigit (b'0' + n % 10) = (omega arith, omega arith) in
    elim (Bool-cases (ltb n 10)) [
      | inl e ↦ rw e (digit, h)
      | inr e ↦ rw e (decimal_from-IsDigit fuel (n / 10) ((b'0' + n % 10) ∷ out) (digit, h))
    ]

-- Every rune of a printed number is a digit.
pub decimal-IsDigit : (n : ℕ) → All IsDigit (decimal n)
unfolding decimal
decimal-IsDigit n = decimal_from-IsDigit (suc n) n [] tt

number_from-digit :
    (a n : ℕ) (out : Text)
    → n < 10
    → number_from a ((b'0' + n) ∷ out) ≡ number_from (a * 10 + n) out
number_from-digit a n out h =
    let low : leb b'0' (b'0' + n) ≡ true = ground arith in
    let high : leb (b'0' + n) b'9' ≡ true = ground arith in
    let digit : b'0' + n - b'0' ≡ n = omega arith in
    rw (low, high) (ap (λ d. number_from (a * 10 + d) out) digit)

last_digit : (n : ℕ) (out : Text) → number_from (n / 10) ((b'0' + n % 10) ∷ out) ≡ number_from n out
last_digit n out =
    number_from-digit (n / 10) (n % 10) out (omega arith)
    ∙ ap (λ m. number_from m out) (omega arith)

number_from-decimal_from :
    (fuel n : ℕ) (out : Text)
    → n < fuel
    → number_from 0 (decimal_from fuel n out) ≡ number_from n out
unfolding decimal_from
number_from-decimal_from zero n out h = absurd (omega arith)
number_from-decimal_from (suc fuel) n out h = elim (Bool-cases (ltb n 10)) [
  | inl e ↦
      let small : n / 10 ≡ 0 = ground arith in
      rw e (ap (λ m. number_from m ((b'0' + n % 10) ∷ out)) (sym small) ∙ last_digit n out)
  | inr e ↦
      let less : n / 10 < fuel = ground arith in
      rw e (number_from-decimal_from fuel (n / 10) ((b'0' + n % 10) ∷ out) less ∙ last_digit n out)
]

number-number_from : (s : Text) → s ≢ [] → number s ≡ number_from 0 s
number-number_from [] h = absurd (h refl)
number-number_from (c ∷ s) h = refl

decimal_from-ne-nil : (fuel n : ℕ) (out : Text) → out ≢ [] → decimal_from fuel n out ≢ []
unfolding decimal_from
decimal_from-ne-nil zero n out h = h
decimal_from-ne-nil (suc fuel) n out h = elim (Bool-cases (ltb n 10)) [
  | inl e ↦ rw e (λ f. ground arith)
  | inr e ↦ rw e (decimal_from-ne-nil fuel (n / 10) ((b'0' + n % 10) ∷ out) (λ f. ground arith))
]

decimal-ne-nil : (n : ℕ) → decimal n ≢ []
unfolding decimal decimal_from
decimal-ne-nil n = elim (Bool-cases (ltb n 10)) [
  | inl e ↦ rw e (λ f. ground arith)
  | inr e ↦ rw e (decimal_from-ne-nil n (n / 10) ((b'0' + n % 10) ∷ []) (λ f. ground arith))
]

-- A printed number is read as itself.
pub number-decimal : (n : ℕ) → number (decimal n) ≡ some n
unfolding decimal
number-decimal n =
    number-number_from (decimal n) (decimal-ne-nil n)
    ∙ number_from-decimal_from (suc n) n [] (omega arith)
