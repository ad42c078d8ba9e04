-- ===== src/Base/Strings.antt =====
-- What the program uses of Go's package `strings`, on runes.
use Prim.Native.Nat.{ℕ, ◌+◌, ◌-◌, ◌/◌, ◌%◌, suc, zero}
use mathlib.Core.Bool.{Bool, true, false, ◌||◌, ◌&&◌}
use mathlib.Core.List.{List, [], ◌∷◌, ◌++◌}
use dokploymigrator.Base.Tests.{Text, ◌==◌, text_eq, nat_eq, ltb, leb, if◌then◌else◌}

-- `unicode.IsSpace`
unfoldable pub is_space : ℕ → Bool
is_space c =
    (leb 9 c && leb c 13)
    || leb 32 c && leb c 32
    || leb 0x85 c && leb c 0x85
    || leb 0xa0 c && leb c 0xa0
    || leb 0x1680 c && leb c 0x1680
    || leb 0x2000 c && leb c 0x200a
    || leb 0x2028 c && leb c 0x2029
    || leb 0x202f c && leb c 0x202f
    || leb 0x205f c && leb c 0x205f
    || leb 0x3000 c && leb c 0x3000

-- `strings.TrimLeftFunc(s, unicode.IsSpace)`
unfoldable pub trim_left_space : Text → Text
trim_left_space [] = []
trim_left_space (c ∷ s) = let rest = trim_left_space s in if is_space c then rest else c ∷ s

abbrev pub keep_right : ℕ → Text → Text
keep_right c [] = if is_space c then [] else c ∷ []
keep_right c (d ∷ s) = c ∷ d ∷ s

-- `strings.TrimRightFunc(s, unicode.IsSpace)`
unfoldable pub trim_right_space : Text → Text
trim_right_space [] = []
trim_right_space (c ∷ s) = keep_right c (trim_right_space s)

-- `strings.TrimSpace`
unfoldable pub trim_space : Text → Text
unfolding trim_left_space trim_right_space is_space
trim_space s = trim_right_space (trim_left_space s)

-- `strings.HasPrefix`
unfoldable pub has_prefix : Text → Text → Bool
has_prefix s [] = true
has_prefix [] (d ∷ p) = false
has_prefix (c ∷ s) (d ∷ p) = c == d && has_prefix s p

-- `strings.HasSuffix`
unfoldable pub has_suffix : Text → Text → Bool
has_suffix [] p = [] == p
has_suffix (c ∷ s) p = (c ∷ s) == p || has_suffix s p

-- `strings.Contains`
unfoldable pub contains_text : Text → Text → Bool
unfolding has_prefix
contains_text [] p = has_prefix [] p
contains_text (c ∷ s) p = has_prefix (c ∷ s) p || contains_text s p

-- `strings.ReplaceAll` of one rune
unfoldable pub replace_all : Text → ℕ → Text → Text
replace_all [] old new = []
replace_all (c ∷ s) old new = (if c == old then new else c ∷ []) ++ replace_all s old new

-- `strings.ToLower`. `lower_rune` is Go's Unicode table, which only the runes beyond ASCII reach.
unfoldable pub to_lower : (ℕ → ℕ) → Text → Text
to_lower lower_rune [] = []
to_lower lower_rune (c ∷ s) =
    (if leb 0x80 c then lower_rune c else if leb b'A' c && leb c b'Z' then c + 32 else c)
    ∷ to_lower lower_rune s

-- `strings.EqualFold`. `fold_rune` picks, of the runes beyond ASCII, the one that stands for all that
-- `unicode.SimpleFold` leads to.
unfoldable pub fold : (ℕ → ℕ) → Text → Text
fold fold_rune [] = []
fold fold_rune (c ∷ s) =
    (if leb 0x80 c then fold_rune c else if leb b'a' c && leb c b'z' then c - 32 else c)
    ∷ fold fold_rune s

unfoldable pub equal_fold : (ℕ → ℕ) → Text → Text → Bool
unfolding fold
equal_fold fold_rune s t = fold fold_rune s == fold fold_rune t

-- `a < b` on strings
unfoldable pub less : Text → Text → Bool
less [] [] = false
less [] (d ∷ t) = true
less (c ∷ s) [] = false
less (c ∷ s) (d ∷ t) = if c == d then less s t else ltb c d

unfoldable pub decimal_from : ℕ → ℕ → Text → Text
decimal_from zero n out = out
decimal_from (suc fuel) n out =
    let out' = (b'0' + n % 10) ∷ out in
    let rest = decimal_from fuel (n / 10) out' in if ltb n 10 then out' else rest

-- `%d`. The number of rounds is at most the number of digits, so `suc n` rounds are enough.
unfoldable pub decimal : ℕ → Text
unfolding decimal_from
decimal n = decimal_from (suc n) n []

abbrev pub keep_before : ℕ → ℕ → Text → Text
keep_before cut c [] = if c == cut then [] else c ∷ []
keep_before cut c (d ∷ s) = c ∷ d ∷ s

-- `strings.TrimRight` of one rune
unfoldable pub trim_right : Text → ℕ → Text
trim_right [] cut = []
trim_right (c ∷ s) cut = keep_before cut c (trim_right s cut)

-- `strings.TrimPrefix` of one rune
unfoldable pub trim_prefix : Text → ℕ → Text
trim_prefix [] p = []
trim_prefix (c ∷ s) p = if c == p then s else c ∷ s

-- `strings.TrimLeft` of one rune
unfoldable pub trim_left : Text → ℕ → Text
trim_left [] cut = []
trim_left (c ∷ s) cut = let rest = trim_left s cut in if c == cut then rest else c ∷ s

-- `strings.Trim` of one rune
unfoldable pub trim : Text → ℕ → Text
unfolding trim_left trim_right
trim s cut = trim_right (trim_left s cut) cut

abbrev pub onto_first : ℕ → List Text → List Text
onto_first c [] = (c ∷ []) ∷ []
onto_first c (part ∷ parts) = (c ∷ part) ∷ parts

-- `strings.Split` at one rune
unfoldable pub split : Text → ℕ → List Text
split [] sep = [] ∷ []
split (c ∷ s) sep = let rest = split s sep in if c == sep then [] ∷ rest else onto_first c rest

-- The parts of a `fmt.Sprintf` with the verb `%s`, one behind the other.
abbrev pub concat : List Text → Text
concat [] = []
concat (part ∷ parts) = part ++ concat parts
