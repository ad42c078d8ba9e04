-- ===== src/Server/Paging.antt =====
-- The bounds of the query parameters of internal/server/server.go.
use dokploymigrator.Base.{
  ℕ, zero, suc, Text, [], Option, none, some, Bool, true, false, ◌==◌, text_eq, trim_space,
  if◌then◌else◌, ◌≤◌, ltb, ℤ, pos, negsuc, atoi, ◌≡◌, refl, arith, leb_ℤ, ltb_ℤ, ◌&&◌, Bool-cases,
  inl, inr,
}
use dokploymigrator.Server.Request.{or_fallback, non_negative_query_int, bounded_query_int}

chosen-pos :
    (empty : Bool) (fallback : ℕ) (o : Option ℤ)
    → (n : ℕ) × ((if empty then pos fallback else or_fallback (pos fallback) o) ≡ pos n)
chosen-pos true fallback o = (fallback, refl)
chosen-pos false fallback none = (fallback, refl)
chosen-pos false fallback (some (pos n)) = (n, refl)
chosen-pos false fallback (some (negsuc n)) = (fallback, refl)

-- The offset of a page is never negative, whatever the query says.
pub non_negative_query_int-pos :
    (query : Text) (fallback : ℕ) → (n : ℕ) × (non_negative_query_int query (pos fallback) ≡ pos n)
unfolding non_negative_query_int
non_negative_query_int-pos query fallback =
    chosen-pos (trim_space query == []) fallback (atoi (trim_space query))

bounded :
    (n fallback max_value : ℕ)
    → 1 ≤ fallback
    → fallback ≤ max_value
    → (m : ℕ) × ((if leb_ℤ (pos n) (pos 0)
          then pos fallback
          else if ltb_ℤ (pos 0) (pos max_value) && ltb_ℤ (pos max_value) (pos n)
          then pos max_value
          else pos n)
        ≡ pos m)
      × (1 ≤ m)
      × (m ≤ max_value)
bounded zero fallback max_value least most = (fallback, ground arith, least, most)
bounded (suc n) fallback max_value least most = elim (Bool-cases (ltb max_value (suc n))) [
  | inl over ↦ (max_value, ground arith, ground arith, ground arith)
  | inr fits ↦ (suc n, ground arith, ground arith, ground arith)
]

-- The number of jobs on a page is between one and the maximum, whatever the query says, if the
-- fallback is between them.
pub bounded_query_int-range :
    (query : Text) (fallback max_value : ℕ)
    → 1 ≤ fallback
    → fallback ≤ max_value
    → (n : ℕ) × (bounded_query_int query (pos fallback) (pos max_value) ≡ pos n)
      × (1 ≤ n)
      × (n ≤ max_value)
unfolding bounded_query_int
bounded_query_int-range query fallback max_value least most =
    let (n, e) = non_negative_query_int-pos query fallback in
    rw e (bounded n fallback max_value least most)
