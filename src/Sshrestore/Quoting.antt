-- ===== src/Sshrestore/Quoting.antt =====
-- What a shell makes of `shellQuote` of internal/sshrestore/sshrestore.go.
use dokploymigrator.Base.{
  ℕ, Text, codes, List, [], ◌∷◌, ◌++◌, Option, none, some, nat_eq, text_eq, replace_all, ◌≡◌, ◌≢◌,
  refl, sym, ap, ◌∙◌, arith,
}
use dokploymigrator.Sshrestore.Commands.{shell_quote}
use dokploymigrator.Sshrestore.Shell.{
  Mode, gap, word, single, Add, char, read_rune, add, words_from, shell_words,
}

-- Runes that are added one by one.
prepend : Text → Option (List Text) → Option (List Text)
prepend [] words = words
prepend (c ∷ s) words = add (char c) (prepend s words)

prepend-some :
    (s w : Text) (words : List Text) → prepend s (some (w ∷ words)) ≡ some ((s ++ w) ∷ words)
unfolding prepend
prepend-some [] w words = refl
prepend-some (c ∷ s) w words = ap (add (char c)) (prepend-some s w words)

abbrev quote_text : Text
quote_text = codes "'\"'\"'"

read-single : (c : ℕ) → c ≢ b'\'' → read_rune single c ≡ some (single, char c)
unfolding read_rune
read-single c n = ground arith

-- Inside quotes, the text with its own quotes replaced reads as the text.
words-quoted :
    (s t : Text)
    → words_from single (replace_all s b'\'' quote_text ++ b'\'' ∷ t)
      ≡ prepend s (words_from word t)
unfolding replace_all words_from read_rune prepend nat_eq
words-quoted [] t = refl
words-quoted (c ∷ s) t = elim (nat_eq.dec c b'\'') [
  | yes e ↦ rw e (ap (add (char b'\'')) (words-quoted s t))
  | no n ↦ ground (arith, words-quoted s t)
]

append-one : (s t : Text) (c : ℕ) → (s ++ c ∷ []) ++ t ≡ s ++ c ∷ t
append-one [] t c = refl
append-one (x ∷ s) t c = ap (λ r. x ∷ r) (append-one s t c)

quoted :
    (s t : Text)
    → words_from single ((replace_all s b'\'' quote_text ++ codes "'") ++ t)
      ≡ prepend s (words_from word t)
quoted s t =
    ap (words_from single) (append-one (replace_all s b'\'' quote_text) t b'\'') ∙ words-quoted s t

-- A quoted text is the text, at the start of a word and inside of one.
gap-shell_quote : (s t : Text) → words_from gap (shell_quote s ++ t) ≡ prepend s (words_from word t)
unfolding shell_quote words_from read_rune nat_eq text_eq
gap-shell_quote s t = elim (text_eq.dec s []) [
  | yes e ↦ rw e (unfold prepend in refl)
  | no n ↦ ground (arith, quoted s t)
]

word-shell_quote :
    (s t : Text) → words_from word (shell_quote s ++ t) ≡ prepend s (words_from word t)
unfolding shell_quote words_from read_rune nat_eq text_eq
word-shell_quote s t = elim (text_eq.dec s []) [
  | yes e ↦ rw e (unfold prepend in refl)
  | no n ↦ ground (arith, quoted s t)
]

-- What a literal part of a command adds to the words of the rest, and the mode behind it.
unfoldable pub feed : Mode → Text → Option (List Text) → Option (List Text)
unfolding read_rune
feed mode [] words = words
feed mode (c ∷ s) words = elim (read_rune mode c) [
  | none ↦ none
  | some (next, a) ↦ add a (feed next s words)
]

unfoldable pub mode_behind : Mode → Text → Mode
unfolding read_rune
mode_behind mode [] = mode
mode_behind mode (c ∷ s) = elim (read_rune mode c) [
  | none ↦ mode
  | some (next, a) ↦ mode_behind next s
]

words-append :
    (mode : Mode) (s t : Text)
    → words_from mode (s ++ t) ≡ feed mode s (words_from (mode_behind mode s) t)
unfolding words_from feed mode_behind
words-append mode [] t = refl
words-append mode (c ∷ s) t = go (read_rune mode c) (λ next. words-append next s t)
  where
    go :
        (read : Option (Mode × Add))
        → ((next : Mode)
            → words_from next (s ++ t) ≡ feed next s (words_from (mode_behind next s) t))
        → (elim read [ none ↦ none | some (next, a) ↦ add a (words_from next (s ++ t)) ]) ≡ (
            let behind : Mode = elim read [ none ↦ mode | some (next, a) ↦ mode_behind next s ] in
            let words : Option (List Text) = words_from behind t in
            elim read [ none ↦ none | some (next, a) ↦ add a (feed next s words) ])
    go none rest = refl
    go (some (next, a)) rest = ap (add a) (rest next)

pub append_nil : (s : Text) → s ++ [] ≡ s
append_nil [] = refl
append_nil (c ∷ s) = ap (λ r. c ∷ r) (append_nil s)

-- A literal part, a quoted text and the rest, of which the first word goes on behind the text.
pub piece-gap :
    (mode : Mode) (s v rest w u : Text) (words : List Text)
    → mode_behind mode s ≡ gap
    → words_from word rest ≡ some (w ∷ words)
    → v ++ w ≡ u
    → words_from mode (s ++ (shell_quote v ++ rest)) ≡ feed mode s (some (u ∷ words))
piece-gap mode s v rest w u words behind h e =
    words-append mode s (shell_quote v ++ rest)
    ∙ ap (λ m. feed mode s (words_from m (shell_quote v ++ rest))) behind
    ∙ ap (feed mode s) (
        gap-shell_quote v rest
        ∙ ap (prepend v) h
        ∙ prepend-some v w words
        ∙ ap (λ x. some (x ∷ words)) e)

-- For every text, a shell reads its quotation as one word, which is the text itself: no rune of it,
-- not a quote and not a rune with a meaning to the shell, gets out of the quotation.
shell_quote-words : (s : Text) → shell_words (shell_quote s) ≡ some (s ∷ [])
unfolding words_from
shell_quote-words s =
    ap shell_words (sym (append_nil (shell_quote s)))
    ∙ gap-shell_quote s []
    ∙ prepend-some s [] []
    ∙ ap (λ w. some (w ∷ [])) (append_nil s)
