-- ===== src/Sshrestore/Shell.antt =====
-- How a POSIX shell reads a simple command: its words, and what quoting does.
use dokploymigrator.Base.{
  ℕ, Text, List, [], ◌∷◌, Option, none, some, Bool, ◌||◌, ◌&&◌, ◌==◌, nat_eq, text_eq,
  if◌then◌else◌, leb,
}

-- Between two words, inside a word, and inside one of the two quotes.
pub data Mode : Type 0 where
  gap word single double : Mode

-- What one rune adds: nothing, itself, or the end of a word.
pub data Add : Type 0 where
  nothing ends : Add
  char : ℕ → Add

-- The runes that mean only themselves.
unfoldable pub is_plain : ℕ → Bool
is_plain c =
    (leb b'a' c && leb c b'z')
    || (leb b'A' c && leb c b'Z')
    || (leb b'0' c && leb c b'9')
    || c == b'-'
    || c == b'_'
    || c == b'.'
    || c == b'/'
    || c == b':'

-- `none` where the shell would do more than to read words.
unfoldable pub read_rune : Mode → ℕ → Option (Mode × Add)
unfolding is_plain
read_rune gap c =
    if c == b' '
    then some (gap, nothing)
    else if c == b'\''
    then some (single, nothing)
    else if c == b'"'
    then some (double, nothing)
    else if is_plain c
    then some (word, char c)
    else none
read_rune word c =
    if c == b' '
    then some (gap, ends)
    else if c == b'\''
    then some (single, nothing)
    else if c == b'"'
    then some (double, nothing)
    else if is_plain c
    then some (word, char c)
    else none
read_rune single c = if c == b'\'' then some (word, nothing) else some (single, char c)
read_rune double c =
    if c == b'"'
    then some (word, nothing)
    else if c == b'$' || c == b'`' || c == b'\\'
    then none
    else some (double, char c)

-- Onto the words of the rest, of which the first is the rest of this one.
abbrev pub add : Add → Option (List Text) → Option (List Text)
add nothing words = words
add ends none = none
add ends (some words) = some ([] ∷ words)
add (char c) none = none
add (char c) (some []) = some ((c ∷ []) ∷ [])
add (char c) (some (w ∷ words)) = some ((c ∷ w) ∷ words)

abbrev pub at_end : Mode → Option (List Text)
at_end gap = some []
at_end word = some ([] ∷ [])
at_end single = none
at_end double = none

unfoldable pub words_from : Mode → Text → Option (List Text)
unfolding read_rune
words_from mode [] = at_end mode
words_from mode (c ∷ s) = elim (read_rune mode c) [
  | none ↦ none
  | some (next, a) ↦ add a (words_from next s)
]

-- The words of a command.
abbrev pub shell_words : Text → Option (List Text)
shell_words command = words_from gap command
