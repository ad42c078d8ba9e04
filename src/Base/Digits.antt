-- ===== src/Base/Digits.antt =====
-- `strconv.Atoi` of Go on a 64-bit machine.
use Prim.Native.Nat.{ℕ, ◌+◌, ◌*◌, ◌-◌}
use mathlib.Core.Bool.{◌&&◌}
use mathlib.Core.Option.{Option, none, some}
use mathlib.Core.List.{[], ◌∷◌}
use dokploymigrator.Base.Tests.{Text, ltb, leb, ◌==◌, nat_eq, if◌then◌else◌}
use dokploymigrator.Base.Int.{ℤ, pos, negsuc, sub_ℕ}

-- The digits that are left, after those that make `n`.
abbrev pub number_from : ℕ → Text → Option ℕ
number_from n [] = some n
number_from n (c ∷ s) =
    let rest = number_from (n * 10 + (c - b'0')) s in
    if leb b'0' c && leb c b'9' then rest else none

-- At least one digit.
abbrev pub number : Text → Option ℕ
number [] = none
number (c ∷ s) = number_from 0 (c ∷ s)

-- The values of an `int`.
abbrev in_range : Option ℤ → Option ℤ
in_range none = none
in_range (some (pos n)) = if ltb n 9223372036854775808 then some (pos n) else none
in_range (some (negsuc n)) = if ltb n 9223372036854775808 then some (negsuc n) else none

abbrev positive : Option ℕ → Option ℤ
positive none = none
positive (some n) = some (pos n)

abbrev negative : Option ℕ → Option ℤ
negative none = none
negative (some n) = some (sub_ℕ 0 n)

signed : Text → Option ℤ
signed [] = none
signed (c ∷ s) =
    if c == b'-'
    then negative (number s)
    else if c == b'+'
    then positive (number s)
    else positive (number (c ∷ s))

unfoldable pub atoi : Text → Option ℤ
unfolding signed
atoi s = in_range (signed s)
