-- ===== src/Dokploydb/Plan/Ink.antt =====
-- The texts of a plan that `strings.TrimSpace` leaves something of, for the checks before a write in
-- internal/dokploydb/safety.go.
use dokploymigrator.Base.{
  ℕ, Text, codes, List, [], ◌∷◌, ◌++◌, true, false, text_eq, contains, trim_space, trim_left_space,
  trim_right_space, keep_right, is_space, decimal, ◌≡◌, ◌≢◌, refl, arith, ap, All, Bool-cases, inl,
  inr, ◌⊎◌, ◌∙◌,
}
use dokploymigrator.Dokploydb.Columns.{retarget_tables, is_retarget_table}

-- A text that begins with a rune that is no space.
abbrev pub IsInk : Text → Type 0
IsInk [] = ⊥
IsInk (c ∷ s) = is_space c ≡ false

keep_right-ink : (c : ℕ) (s : Text) → is_space c ≡ false → keep_right c s ≢ []
keep_right-ink c [] h e = ground arith
keep_right-ink c (d ∷ s) h e = ground arith

keep_right-IsInk : (c : ℕ) (s : Text) → is_space c ≡ false → IsInk (keep_right c s)
keep_right-IsInk c [] h = rw h h
keep_right-IsInk c (d ∷ s) h = h

trim_right_space-IsInk : (s : Text) → IsInk s → IsInk (trim_right_space s)
unfolding trim_right_space
trim_right_space-IsInk [] h = h
trim_right_space-IsInk (c ∷ s) h = keep_right-IsInk c (trim_right_space s) h

ink-ne-nil : (s : Text) → IsInk s → s ≢ []
ink-ne-nil [] h e = absurd h
ink-ne-nil (c ∷ s) h e = ground arith

trim_left_space-ink : (s : Text) → IsInk s → trim_left_space s ≡ s
unfolding trim_left_space
trim_left_space-ink [] h = absurd h
trim_left_space-ink (c ∷ s) h = rw h refl

pub trim_space-ink : (s : Text) → IsInk s → trim_space s ≢ []
unfolding trim_space
trim_space-ink s h =
    rw (trim_left_space-ink s h) (ink-ne-nil (trim_right_space s) (trim_right_space-IsInk s h))

trim_left_space-cases : (s : Text) → (trim_left_space s ≡ []) ⊎ IsInk (trim_left_space s)
unfolding trim_left_space
trim_left_space-cases [] = inl refl
trim_left_space-cases (c ∷ s) = elim (Bool-cases (is_space c)) [
  | inl space ↦ rw space (trim_left_space-cases s)
  | inr ink ↦ rw ink (inr ink)
]

pub IsInk-trim_space : (s : Text) → trim_space s ≢ [] → IsInk (trim_space s)
unfolding trim_space trim_right_space
IsInk-trim_space s n = elim (trim_left_space-cases s) [
  | inl e ↦ absurd (n (ap trim_right_space e))
  | inr ink ↦ trim_right_space-IsInk (trim_left_space s) ink
]

retarget_tables-IsInk : All IsInk retarget_tables
unfolding is_space
retarget_tables-IsInk = (refl, (refl, (refl, (refl, (refl, (refl, (refl, (refl, (refl, tt)))))))))

module _ (P : Text → Type 0) where
  All-contains : (xs : List Text) (t : Text) → All P xs → contains xs t ≡ true → P t
  All-contains [] t _ h = absurd (ground arith)
  All-contains (x ∷ xs) t (p, ps) h = elim (text_eq.dec x t) [
    | yes e ↦ rw (← e) p
    | no n ↦ All-contains xs t ps (ground arith)
  ]

pub table_ink : (t : Text) → is_retarget_table t ≡ true → trim_space t ≢ []
unfolding is_retarget_table
table_ink t h = trim_space-ink t (All-contains IsInk retarget_tables t retarget_tables-IsInk h)

pub plan_id_ink : (n : ℕ) → trim_space (codes "plan-" ++ decimal n) ≢ []
plan_id_ink n = trim_space-ink (codes "plan-" ++ decimal n) (unfold is_space in refl)

keep_right-fixed :
    (c : ℕ) (s : Text) → trim_right_space s ≡ s → trim_right_space (keep_right c s) ≡ keep_right c s
unfolding trim_right_space
keep_right-fixed c [] h = elim (Bool-cases (is_space c)) [
  | inl e ↦ rw e refl
  | inr e ↦ rw e (rw e refl)
]
keep_right-fixed c (d ∷ s) h = ap (keep_right c) h

trim_right_space_again : (s : Text) → trim_right_space (trim_right_space s) ≡ trim_right_space s
unfolding trim_right_space
trim_right_space_again [] = refl
trim_right_space_again (c ∷ s) = keep_right-fixed c (trim_right_space s) (trim_right_space_again s)

-- A trimmed text is trimmed.
pub trim_space_again : (s : Text) → trim_space (trim_space s) ≡ trim_space s
unfolding trim_space
trim_space_again s = elim (trim_left_space-cases s) [
  | inl e ↦ rw e (unfold trim_left_space trim_right_space in refl)
  | inr ink ↦
      ap trim_right_space (
        trim_left_space-ink (trim_right_space (trim_left_space s))
          (trim_right_space-IsInk (trim_left_space s) ink))
      ∙ trim_right_space_again (trim_left_space s)
]
