-- ===== src/Sshrestore/Scp.antt =====
-- How the program `scp -t` reads its standard input, for the uploads of
-- internal/sshrestore/sshrestore.go: a line with the mode, the size and the name of a file, the bytes
-- of the file, and a zero.
use dokploymigrator.Base.{
  ℕ, zero, suc, Text, List, [], ◌∷◌, ◌++◌, Option, none, some, ◌==◌, nat_eq, text_eq, if◌then◌else◌,
  number, length, ◌≡◌, ◌≢◌, refl, ap, ◌∙◌, arith, All,
}

-- What stands before the first `sep`, and what stands behind it.
abbrev pub onto_line : ℕ → Option (Text × Text) → Option (Text × Text)
onto_line c none = none
onto_line c (some (line, rest)) = some (c ∷ line, rest)

unfoldable pub read_to : ℕ → List ℕ → Option (List ℕ × List ℕ)
read_to sep [] = none
read_to sep (c ∷ s) =
    let later = read_to sep s in if c == sep then some ([], s) else onto_line c later

abbrev onto_first : ℕ → Option (List ℕ × List ℕ) → Option (List ℕ × List ℕ)
onto_first b none = none
onto_first b (some (content, rest)) = some (b ∷ content, rest)

-- The first `n` bytes, if there are so many.
unfoldable pub read_bytes : ℕ → List ℕ → Option (List ℕ × List ℕ)
read_bytes zero s = some ([], s)
read_bytes (suc n) [] = none
read_bytes (suc n) (b ∷ s) = onto_first b (read_bytes n s)

pub record Received : Type 0 where
  pub mode : List ℕ
  pub name : List ℕ
  pub content : List ℕ

abbrev pub content_end : List ℕ → List ℕ → Option (List ℕ × List ℕ) → Option Received
content_end mode name none = none
content_end mode name (some (content, rest)) =
    if rest == zero ∷ []
    then some (record { mode = mode; name = name; content = content })
    else none

abbrev pub sized : List ℕ → List ℕ → List ℕ → Option ℕ → Option Received
sized mode name rest none = none
sized mode name rest (some n) = content_end mode name (read_bytes n rest)

abbrev pub size_end : List ℕ → List ℕ → Option (List ℕ × List ℕ) → Option Received
size_end mode rest none = none
size_end mode rest (some (size, name)) = sized mode name rest (number size)

abbrev pub mode_end : List ℕ → Option (List ℕ × List ℕ) → Option Received
mode_end rest none = none
mode_end rest (some (mode, fields)) = size_end mode rest (read_to b' ' fields)

abbrev pub line_end : Option (List ℕ × List ℕ) → Option Received
line_end none = none
line_end (some ([], rest)) = none
line_end (some (c ∷ fields, rest)) =
    let found = mode_end rest (read_to b' ' fields) in if c == b'C' then found else none

-- The one file that the input holds.
unfoldable pub scp_receive : List ℕ → Option Received
unfolding read_to read_bytes
scp_receive input = line_end (read_to b'\n' input)

pub read_to-append :
    (sep : ℕ) (s t : List ℕ) → All (λ c. c ≢ sep) s → read_to sep (s ++ sep ∷ t) ≡ some (s, t)
unfolding read_to
read_to-append sep [] t h = ground arith
read_to-append sep (c ∷ s) t (n, h) = ground (arith, ap (onto_line c) (read_to-append sep s t h))

pub read_bytes-append : (s t : List ℕ) → read_bytes (length s) (s ++ t) ≡ some (s, t)
unfolding read_bytes
read_bytes-append [] t = refl
read_bytes-append (b ∷ s) t = ap (onto_first b) (read_bytes-append s t)

abbrev pub header : List ℕ → List ℕ → List ℕ → List ℕ
header mode size name = b'C' ∷ (mode ++ b' ' ∷ (size ++ b' ' ∷ name))

-- A file between its header and a zero is received.
pub scp_receive-file :
    (mode size name content : List ℕ)
    → All (λ c. c ≢ b'\n') (header mode size name)
    → All (λ c. c ≢ b' ') mode
    → All (λ c. c ≢ b' ') size
    → number size ≡ some (length content)
    → scp_receive ((header mode size name) ++ b'\n' ∷ (content ++ zero ∷ []))
      ≡ some (record { mode = mode; name = name; content = content })
unfolding scp_receive nat_eq text_eq
scp_receive-file mode size name content line m s n =
    ap line_end (read_to-append b'\n' (header mode size name) (content ++ zero ∷ []) line)
    ∙ ap (mode_end (content ++ zero ∷ [])) (read_to-append b' ' mode (size ++ b' ' ∷ name) m)
    ∙ ap (size_end mode (content ++ zero ∷ [])) (read_to-append b' ' size name s)
    ∙ ap (sized mode name (content ++ zero ∷ [])) n
    ∙ ap (content_end mode name) (read_bytes-append content (zero ∷ []))
