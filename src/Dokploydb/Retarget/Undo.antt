-- ===== src/Dokploydb/Retarget/Undo.antt =====
-- Rolling a plan back undoes it.
use dokploymigrator.Base.{
  ℕ, suc, ◌≤◌, Text, List, [], ◌∷◌, map, Bool, Option, none, some, ok, ◌≡◌, ◌≢◌, refl, arith, ◌∙◌,
  ap, sym, All, ◌==◌, text_eq, option_eq,
}
use dokploymigrator.Model.{PlanRow}
use dokploymigrator.Dokploydb.Postgres.{
  Database, Row, Update, Failure, run_update, update_row, matches, count_rows,
}
use dokploymigrator.Dokploydb.Retarget.{
  Step, after, apply_row, apply_rows, reverse_row, reverse_rows,
}
use dokploymigrator.Dokploydb.Retarget.Ready.{IsReady, apply_row-ready, apply_rows-concat}
use dokploymigrator.Dokploydb.Retarget.Effect.{
  Between, Applied, stored_server, stored_server-injective, update_for, id_column_of, apply_row-ok,
  after-ok,
}

-- Whether a row has a value in a column.
abbrev pub has_id : Text → Text → Row → Bool
has_id column id r = r.cell column == some id

module _ (c i : Text) (t : Text) (s s' : Option Text) (d : s ≢ s') where
  -- An update of one server by another, and the update back.
  abbrev forth : Update
  forth = record { table = t; id_column = c; set_server = s'; where_id = i; where_server = s }

  abbrev back : Update
  back = record { table = t; id_column = c; set_server = s; where_id = i; where_server = s' }

  untouched :
      (rs : List Row)
      → count_rows (has_id c i) rs ≡ 0
      → (count_rows (matches forth) rs ≡ 0)
        × (count_rows (matches back) (map (update_row forth) rs) ≡ 0)
        × (map (update_row back) (map (update_row forth) rs) ≡ rs)
  unfolding count_rows update_row matches
  untouched [] h = (refl, refl, refl)
  untouched (r ∷ rs) h = ground (arith, untouched rs)

  -- Where the ID is a key, the update back finds one row too, and restores the rows.
  undone :
      (rs : List Row)
      → count_rows (has_id c i) rs ≤ 1
      → count_rows (matches forth) rs ≡ 1
      → (count_rows (matches back) (map (update_row forth) rs) ≡ 1)
        × (map (update_row back) (map (update_row forth) rs) ≡ rs)
  unfolding count_rows update_row matches
  undone [] h k = absurd (omega arith)
  undone (r ∷ rs) h k = ground (arith, untouched rs, undone rs)

  -- An update changes no ID.
  key-update :
      (c' i' : Text) (rs : List Row)
      → count_rows (has_id c' i') (map (update_row forth) rs) ≡ count_rows (has_id c' i') rs
  unfolding count_rows update_row
  key-update c' i' [] = refl
  key-update c' i' (r ∷ rs) = ground (arith, key-update c' i' rs)

module _ (p : PlanRow) (db : Database) (d : p.old_server_id ≢ p.new_server_id) where
  stored_differ : stored_server p.old_server_id ≢ stored_server p.new_server_id
  stored_differ e = d (stored_server-injective _ _ e)

  rows-restored :
      count_rows (has_id (id_column_of p) p.id) (db.rows p.table) ≤ 1
      → count_rows (matches (update_for p)) (db.rows p.table) ≡ 1
      → (t : Text)
      → (run_update (update_for (reverse_row p)) (run_update (update_for p) db)).rows t ≡ db.rows t
  unfolding run_update
  rows-restored key once t = elim (text_eq.dec t p.table) [
    | yes e ↦
        rw e
          (ground (arith, undone (id_column_of p) p.id p.table _ _ stored_differ (db.rows p.table)))
    | no n ↦ ground arith
  ]

  restored :
      count_rows (has_id (id_column_of p) p.id) (db.rows p.table) ≤ 1
      → count_rows (matches (update_for p)) (db.rows p.table) ≡ 1
      → run_update (update_for (reverse_row p)) (run_update (update_for p) db) ≡ db
  unfolding run_update
  restored key once = λ i. record { schema = db.schema; rows = λ t. rows-restored key once t i }

  found_back :
      count_rows (has_id (id_column_of p) p.id) (db.rows p.table) ≤ 1
      → count_rows (matches (update_for p)) (db.rows p.table) ≡ 1
      → count_rows
          (matches (update_for (reverse_row p)))
          ((run_update (update_for p) db).rows p.table)
        ≡ 1
  unfolding run_update
  found_back key once =
      ground (arith, undone (id_column_of p) p.id p.table _ _ stored_differ (db.rows p.table))

-- The ID of each row of the plan is in at most one row of its table.
abbrev pub KeyedIn : Database → PlanRow → Type 0
KeyedIn db p = count_rows (has_id (id_column_of p) p.id) (db.rows p.table) ≤ 1

key-run_update :
    (p q : PlanRow) (db : Database)
    → p.old_server_id ≢ p.new_server_id
    → KeyedIn db q
    → KeyedIn (run_update (update_for p) db) q
unfolding run_update
key-run_update p q db d k = ground (
  arith,
  key-update (id_column_of p) p.id p.table _ _ (stored_differ p db d) (id_column_of q) q.id
      (db.rows q.table),
)

keys-run_update :
    (p : PlanRow) (plan : List PlanRow) (db : Database)
    → p.old_server_id ≢ p.new_server_id
    → All (KeyedIn db) plan
    → All (KeyedIn (run_update (update_for p) db)) plan
keys-run_update p [] db d k = tt
keys-run_update p (q ∷ plan) db d (k, ks) =
    (key-run_update p q db d k, keys-run_update p plan db d ks)

IsReady-back :
    (p : PlanRow) (db db' : Database)
    → p.old_server_id ≢ p.new_server_id
    → KeyedIn db p
    → Applied p db db'
    → IsReady (reverse_row p) (run_update (update_for p) db)
unfolding run_update
IsReady-back p db db' d k a = record {
  allowed = a.allowed;
  has_id = a.has_id;
  has_server = a.has_server;
  valid = a.valid;
  once = unfold run_update in found_back p db d k a.once;
}

undo_row :
    (p : PlanRow) (db db' : Database)
    → p.old_server_id ≢ p.new_server_id
    → KeyedIn db p
    → Applied p db db'
    → apply_row none (reverse_row p) db' ≡ (ok tt, db)
undo_row p db db' d k a = rw a.state (
    apply_row-ready (reverse_row p) _ (λ e. d (sym e)) (IsReady-back p db db' d k a)
    ∙ ap (λ (tx : Database). (ok tt, tx)) (restored p db d k a.once))

-- The reversed rows undo the loop.
pub undo_rows :
    (faults : ℕ → Option Failure) (n m : ℕ) (plan : List PlanRow) (source target : Text)
    (db : Database)
    → source ≢ target
    → Between source target plan
    → All (KeyedIn db) plan
    → (apply_rows faults n plan db).0 ≡ ok tt
    → apply_rows (λ k. none) m (reverse_rows plan) (apply_rows faults n plan db).1 ≡ (ok tt, db)
unfolding apply_rows reverse_rows
undo_rows faults n m [] source target db d b ks h = refl
undo_rows faults n m (p ∷ plan) source target db d (b, bs) (k, ks) h =
    let (one, step) = after-ok (apply_row (faults n) p db) _ h in
    let differ : p.old_server_id ≢ p.new_server_id = λ e. d (cc) in
    let a = apply_row-ok (faults n) p db differ one in
    rw step (
      apply_rows-concat m (reverse_rows plan) (reverse_row p) _
      ∙ ap (λ (s : Step). after s (apply_row none (reverse_row p)))
          (undo_rows faults (suc n) m plan source target _ d bs
            (rw a.state (keys-run_update p plan db differ ks)) (rw step at h))
      ∙ undo_row p db _ differ k a)
