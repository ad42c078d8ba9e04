-- ===== src/Sshrestore/Header.antt =====
-- The header that `Upload` of internal/sshrestore/sshrestore.go sends, as bytes.
use dokploymigrator.Base.{
  ℕ, ◌<◌, Text, codes, List, [], ◌∷◌, ◌++◌, true, Bool-cases, inl, inr, ltb, nat_eq, text_eq,
  decimal, decimal-IsDigit, IsDigit, ◌≡◌, ◌≢◌, refl, sym, ap, ◌∙◌, arith, All, All-map, pos,
}
use dokploymigrator.Sshrestore.Paths.{path_base}
use dokploymigrator.Sshrestore.Wire.{utf8, utf8_rune}
use dokploymigrator.Sshrestore.Scp.{header}
use dokploymigrator.Sshrestore.Sessions.{scp_header}

pub append_assoc : (r s t : List ℕ) → (r ++ s) ++ t ≡ r ++ (s ++ t)
append_assoc [] s t = refl
append_assoc (c ∷ r) s t = ap (λ x. c ∷ x) (append_assoc r s t)

utf8-append : (s t : Text) → utf8 (s ++ t) ≡ utf8 s ++ utf8 t
unfolding utf8
utf8-append [] t = refl
utf8-append (c ∷ s) t =
    ap (λ x. utf8_rune c ++ x) (utf8-append s t)
    ∙ sym (append_assoc (utf8_rune c) (utf8 s) (utf8 t))

-- ASCII is UTF-8.
utf8-ascii : (s : Text) → All (λ c. c < 128) s → utf8 s ≡ s
unfolding utf8
utf8-ascii [] h = refl
utf8-ascii (c ∷ s) (h, hs) =
    let low : ltb c 0x80 ≡ true = ground arith in rw (low, utf8-ascii s hs) refl

abbrev pub InLine : List ℕ → Type 0
InLine = All (λ c. c ≢ b'\n')

pub InLine-append : (s t : List ℕ) → InLine s → InLine t → InLine (s ++ t)
InLine-append [] t h k = k
InLine-append (c ∷ s) t (h, hs) k = (h, InLine-append s t hs k)

InLine-utf8_rune : (c : ℕ) → c ≢ b'\n' → InLine (utf8_rune c)
InLine-utf8_rune c h = elim (Bool-cases (ltb c 0x80)) [
  | inl e ↦ rw e (h, tt)
  | inr e ↦ elim (Bool-cases (ltb c 0x800)) [
    | inl f ↦ rw (e, f) (omega arith, (omega arith, tt))
    | inr f ↦ elim (Bool-cases (ltb c 0x10000)) [
      | inl g ↦ rw (e, f, g) (omega arith, (omega arith, (omega arith, tt)))
      | inr g ↦ rw (e, f, g) (omega arith, (omega arith, (omega arith, (omega arith, tt))))
    ]
  ]
]

pub InLine-utf8 : (s : Text) → InLine s → InLine (utf8 s)
unfolding utf8
InLine-utf8 [] h = tt
InLine-utf8 (c ∷ s) (h, hs) =
    InLine-append (utf8_rune c) (utf8 s) (InLine-utf8_rune c h) (InLine-utf8 s hs)

pub decimal-InLine : (n : ℕ) → InLine (decimal n)
decimal-InLine n =
    All-map IsDigit (λ c. c ≢ b'\n') (λ c h. omega arith) (decimal n) (decimal-IsDigit n)

pub decimal-ne-gap : (n : ℕ) → All (λ c. c ≢ b' ') (decimal n)
decimal-ne-gap n =
    All-map IsDigit (λ c. c ≢ b' ') (λ c h. omega arith) (decimal n) (decimal-IsDigit n)

decimal-ascii : (n : ℕ) → utf8 (decimal n) ≡ decimal n
decimal-ascii n =
    utf8-ascii (decimal n)
      (All-map IsDigit (λ c. c < 128) (λ c h. omega arith) (decimal n) (decimal-IsDigit n))

-- The header as bytes.
pub utf8-scp_header :
    (path : Text) (n : ℕ)
    → utf8 (scp_header path (pos n))
      ≡ header (codes "0600") (decimal n) (utf8 (path_base path)) ++ b'\n' ∷ []
unfolding utf8
utf8-scp_header path n =
    let name = path_base path in
    let line = b'\n' ∷ [] in
    ap (λ x. codes "C0600 " ++ x)
      (utf8-append (decimal n) (b' ' ∷ (name ++ line))
        ∙ ap (λ x. x ++ utf8 (b' ' ∷ (name ++ line))) (decimal-ascii n)
        ∙ ap (λ x. decimal n ++ b' ' ∷ x) (utf8-append name line)
        ∙ sym (append_assoc (decimal n) (b' ' ∷ utf8 name) line))
