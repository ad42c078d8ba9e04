-- ===== src/State/Chronology.antt =====
-- The order of `ListJobsPage` of internal/state/store.go against the order of time.
use mathlib.Core.List.{append_assoc}
use dokploymigrator.Base.{
  ℕ, zero, Text, codes, [], ◌∷◌, ◌++◌, true, nat_eq, text_eq, less, ◌≡◌, ◌≢◌, refl, ap, ◌∙◌, arith,
  false, sym, none, ok, pos, ◌⊎◌, inl, inr, sort_by, insert_by,
}
use dokploymigrator.State.Time.{Calendar, fraction, dotted, format_time}
use dokploymigrator.State.Tables.{JobRow, Store}
use dokploymigrator.State.Jobs.{listed_before, list_jobs_page, scan_job}
use dokploymigrator.State.Order.{is_newer-asym, listed_before-is_newer}

less-append : (p s t : Text) → less (p ++ s) (p ++ t) ≡ less s t
unfolding less
less-append [] s t = refl
less-append (c ∷ p) s t = ground (arith, less-append p s t)

less-dotted : (s : Text) → dotted s ≢ [] → less (dotted s ++ codes "Z") (codes "Z") ≡ true
unfolding less nat_eq
less-dotted [] n = absurd (n refl)
less-dotted (d ∷ s) n = refl

no_fraction : fraction zero ≡ []
unfolding fraction nat_eq
no_fraction = refl

-- The text of a moment within a second, where a fraction is printed, is less than that of the
-- second itself, which is earlier.
format_time-less :
    (calendar : Calendar) (second nano : ℕ)
    → fraction nano ≢ []
    → less
        (format_time calendar (record { second = second; nano = nano }))
        (format_time calendar (record { second = second; nano = zero }))
      ≡ true
unfolding format_time fraction
format_time-less calendar second nano n =
    let date = calendar.date second in
    let whole = date ++ fraction zero ++ codes "Z" in
    ap (λ s. less s whole) (append_assoc date (fraction nano) (codes "Z"))
    ∙ ap (less (date ++ (fraction nano ++ codes "Z"))) (
        append_assoc date (fraction zero) (codes "Z")
        ∙ ap (λ f. date ++ (f ++ codes "Z")) no_fraction)
    ∙ less-append date (fraction nano ++ codes "Z") (codes "Z")
    ∙ less-dotted _ n

older_first :
    (calendar : Calendar) (second nano : ℕ) (older newer : JobRow)
    → fraction nano ≢ []
    → older.updated_at ≡ format_time calendar (record { second = second; nano = zero })
    → newer.updated_at ≡ format_time calendar (record { second = second; nano = nano })
    → listed_before older newer ≡ true
unfolding listed_before
older_first calendar second nano older newer n e e' =
    rw (e, e', format_time-less calendar second nano n) refl

sorted_pair :
    (a b : JobRow)
    → listed_before a b ≡ true
    → (sort_by listed_before (a ∷ b ∷ []) ≡ a ∷ b ∷ [])
      × (sort_by listed_before (b ∷ a ∷ []) ≡ a ∷ b ∷ [])
unfolding sort_by insert_by
sorted_pair a b h =
    let back : listed_before b a ≡ false =
      listed_before-is_newer b a ∙ is_newer-asym a b (sym (listed_before-is_newer a b) ∙ h) in
    (rw back refl, rw h refl)

-- `ListJobsPage` does not list the newest job first: where the two jobs of a store were updated in one
-- second, its first page has the one that was updated on the whole second before the one that was
-- updated later, with a fraction, in whichever order the table holds them.
pub list_jobs_page-older_first :
    (calendar : Calendar) (second nano : ℕ) (older newer : JobRow) (s : Store)
    → fraction nano ≢ []
    → older.updated_at ≡ format_time calendar (record { second = second; nano = zero })
    → newer.updated_at ≡ format_time calendar (record { second = second; nano = nano })
    → (s.jobs ≡ older ∷ newer ∷ []) ⊎ (s.jobs ≡ newer ∷ older ∷ [])
    → list_jobs_page calendar none (pos 50) (pos 0) s
      ≡ ok (scan_job calendar older ∷ scan_job calendar newer ∷ [])
unfolding list_jobs_page
list_jobs_page-older_first calendar second nano older newer s n e e' jobs =
    let sorted = sorted_pair older newer (older_first calendar second nano older newer n e e') in
    elim jobs [ inl two ↦ rw (two, sorted.0) refl | inr two ↦ rw (two, sorted.1) refl ]
