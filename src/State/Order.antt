-- ===== src/State/Order.antt =====
-- The order of the history in internal/state/store.go is a strict order.
use dokploymigrator.Base.{
  Text, [], ◌∷◌, Bool, true, false, Bool-cases, ◌==◌, text_eq, nat_eq, less, if◌then◌else◌, ◌≡◌,
  ◌≢◌, refl, sym, ◌∙◌, arith, inl, inr,
}
use dokploymigrator.State.Tables.{JobRow}
use dokploymigrator.State.Jobs.{listed_before}

less-asym : (s t : Text) → less s t ≡ true → less t s ≡ false
unfolding less
less-asym [] [] h = refl
less-asym [] (d ∷ t) h = refl
less-asym (c ∷ s) [] h = cc
less-asym (c ∷ s) (d ∷ t) h = ground (arith, less-asym s t)

less_irrefl : (s : Text) → less s s ≡ false
unfolding less
less_irrefl [] = refl
less_irrefl (c ∷ s) = ground (arith, less_irrefl s)

-- Texts of which none is less are equal.
less-antisym : (s t : Text) → less s t ≡ false → less t s ≡ false → s ≡ t
unfolding less
less-antisym [] [] h k = refl
less-antisym [] (d ∷ t) h k = cc
less-antisym (c ∷ s) [] h k = cc
less-antisym (c ∷ s) (d ∷ t) h k = ground (arith, less-antisym s t)

less-chain : (s t u : Text) → less t s ≡ false → less u t ≡ false → less u s ≡ false
unfolding less
less-chain [] t [] h k = refl
less-chain [] [] (e ∷ u) h k = refl
less-chain [] (d ∷ t) (e ∷ u) h k = refl
less-chain (c ∷ s) [] u h k = cc
less-chain (c ∷ s) (d ∷ t) [] h k = cc
less-chain (c ∷ s) (d ∷ t) (e ∷ u) h k = ground (arith, less-chain s t u)

-- One job is newer than another: by the text of its time, and at equal texts by its ID.
unfoldable pub is_newer : JobRow → JobRow → Bool
is_newer a b =
    if a.updated_at == b.updated_at then less b.id a.id else less b.updated_at a.updated_at

pub listed_before-is_newer : (a b : JobRow) → listed_before a b ≡ is_newer a b
unfolding listed_before is_newer
listed_before-is_newer a b = elim (text_eq.dec a.updated_at b.updated_at) [
  | yes e ↦
      let never : less b.updated_at a.updated_at ≡ false = rw e (less_irrefl b.updated_at) in
      ground arith
  | no n ↦ ground arith
]

pub is_newer-asym : (a b : JobRow) → is_newer a b ≡ true → is_newer b a ≡ false
unfolding is_newer
is_newer-asym a b h = elim (text_eq.dec a.updated_at b.updated_at) [
  | yes e ↦ ground (arith, less-asym b.id a.id)
  | no n ↦ ground (arith, less-asym b.updated_at a.updated_at)
]

pub is_newer_irrefl : (a : JobRow) → is_newer a a ≡ false
unfolding is_newer
is_newer_irrefl a = ground (arith, less_irrefl a.id)

not_newer : (a b : JobRow) → is_newer b a ≡ false → less a.updated_at b.updated_at ≡ false
unfolding is_newer
not_newer a b h = elim (text_eq.dec b.updated_at a.updated_at) [
  | yes e ↦ rw e (less_irrefl a.updated_at)
  | no n ↦ ground arith
]

not_newer_id :
    (a b : JobRow) → is_newer b a ≡ false → b.updated_at ≡ a.updated_at → less a.id b.id ≡ false
unfolding is_newer
not_newer_id a b h e = ground arith

pub is_newer-chain :
    (a b c : JobRow) → is_newer b a ≡ false → is_newer c b ≡ false → is_newer c a ≡ false
is_newer-chain a b c h k = elim (text_eq.dec c.updated_at a.updated_at) [
  | yes e ↦
      let back : less b.updated_at a.updated_at ≡ false = rw (sym e) (not_newer b c k) in
      let same = less-antisym a.updated_at b.updated_at (not_newer a b h) back in
      unfold is_newer in
      ground (
        arith,
        less-chain c.id b.id a.id (not_newer_id b c k (e ∙ same)) (not_newer_id a b h (sym same)),
      )
  | no n ↦
      unfold is_newer in
      ground (
        arith,
        less-chain c.updated_at b.updated_at a.updated_at (not_newer b c k) (not_newer a b h),
      )
]

-- Of two jobs with two IDs, one is newer.
pub is_newer-total : (a b : JobRow) → is_newer b a ≡ false → a.id ≢ b.id → is_newer a b ≡ true
unfolding is_newer
is_newer-total a b h n = elim (text_eq.dec a.updated_at b.updated_at) [
  | yes e ↦ elim (Bool-cases (less b.id a.id)) [
    | inl l ↦ ground arith
    | inr l ↦ absurd (n (less-antisym a.id b.id (not_newer_id a b h (sym e)) l))
  ]
  | no m ↦ elim (Bool-cases (less b.updated_at a.updated_at)) [
    | inl l ↦ ground arith
    | inr l ↦ absurd (m (less-antisym a.updated_at b.updated_at (not_newer a b h) l))
  ]
]
