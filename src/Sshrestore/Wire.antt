-- ===== src/Sshrestore/Wire.antt =====
-- The bytes that internal/sshrestore/sshrestore.go sends: Go encodes the runes of a string in UTF-8.
use dokploymigrator.Base.{
  ℕ, ◌+◌, Text, codes, List, [], ◌∷◌, ◌++◌, if◌then◌else◌, ltb, ℤ, pos, negsuc, suc, decimal,
}
use Prim.Native.Nat.{◌/◌, ◌%◌}

abbrev pub utf8_rune : ℕ → List ℕ
utf8_rune c =
    if ltb c 0x80
    then c ∷ []
    else if ltb c 0x800
    then (0xc0 + c / 0x40) ∷ (0x80 + c % 0x40) ∷ []
    else if ltb c 0x10000
    then (0xe0 + c / 0x1000) ∷ (0x80 + c / 0x40 % 0x40) ∷ (0x80 + c % 0x40) ∷ []
    else (0xf0 + c / 0x40000)
      ∷ (0x80 + c / 0x1000 % 0x40)
      ∷ (0x80 + c / 0x40 % 0x40)
      ∷ (0x80 + c % 0x40)
      ∷ []

-- The bytes of a string.
unfoldable pub utf8 : Text → List ℕ
utf8 [] = []
utf8 (c ∷ s) = utf8_rune c ++ utf8 s

-- `%d`
abbrev pub print_int : ℤ → Text
print_int (pos n) = decimal n
print_int (negsuc n) = codes "-" ++ decimal (suc n)
