-- ===== src/State/Time.antt =====
-- `formatTime` and `parseTime`: RFC 3339 with as many digits of the fraction as are not zero.
use Prim.Native.Nat.{◌/◌, ◌%◌}
use dokploymigrator.Base.{
  ℕ, zero, suc, ◌+◌, Text, codes, [], ◌∷◌, ◌++◌, Option, ◌==◌, nat_eq, text_eq, if◌then◌else◌,
}

-- A point in time: whole seconds, and nanoseconds below a second.
pub record Time : Type 0 where
  pub second : ℕ
  pub nano : ℕ

-- The last `n` decimal digits of a number, the highest first.
unfoldable pub digits_of : ℕ → ℕ → Text → Text
digits_of zero n out = out
digits_of (suc k) n out = digits_of k (n / 10) ((b'0' + n % 10) ∷ out)

abbrev pub keep_digit : ℕ → Text → Text
keep_digit d [] = if d == b'0' then [] else d ∷ []
keep_digit d (e ∷ ds) = d ∷ e ∷ ds

-- Zeros at the end go.
unfoldable pub drop_zeros : Text → Text
drop_zeros [] = []
drop_zeros (d ∷ ds) = keep_digit d (drop_zeros ds)

abbrev pub dotted : Text → Text
dotted [] = []
dotted (d ∷ ds) = b'.' ∷ d ∷ ds

-- The calendar is Go's: `date` is the text of a second in UTC, up to the fraction, and `read` is
-- `time.Parse`.
pub record Calendar : Type 0 where
  pub date : ℕ → Text
  pub read : Text → Option Time

unfoldable pub fraction : ℕ → Text
unfolding digits_of drop_zeros
fraction nano = dotted (drop_zeros (digits_of 9 nano []))

unfoldable pub format_time : Calendar → Time → Text
unfolding fraction
format_time calendar t = calendar.date t.second ++ fraction t.nano ++ codes "Z"

-- `none` is the zero time.
unfoldable pub parse_time : Calendar → Text → Option Time
parse_time calendar value = calendar.read value
