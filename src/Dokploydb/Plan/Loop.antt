-- ===== src/Dokploydb/Plan/Loop.antt =====
-- The loop of `ApplyRetargetPlan` over rows of which each is ready and names a resource of its own.
use dokploymigrator.Base.{
  ℕ, suc, Text, List, [], ◌∷◌, map, none, ok, ◌≡◌, ◌≢◌, refl, arith, All, text_eq, option_eq, ◌⊎◌,
  inl, inr,
}
use dokploymigrator.Model.{PlanRow}
use dokploymigrator.Dokploydb.Postgres.{
  Database, Row, Update, run_update, update_row, matches, count_rows,
}
use dokploymigrator.Dokploydb.Retarget.{apply_rows}
use dokploymigrator.Dokploydb.Retarget.Ready.{IsReady, apply_row-ready}
use dokploymigrator.Dokploydb.Retarget.Effect.{Between, update_for, id_column_of}

-- The two rows name different resources.
abbrev pub IsApart : PlanRow → PlanRow → Type 0
IsApart p q = (p.table ≢ q.table) ⊎ ((id_column_of p ≡ id_column_of q) × (p.id ≢ q.id))

-- Every row is apart from those behind it.
abbrev pub AllApart : List PlanRow → Type 0
AllApart [] = Unit
AllApart (p ∷ rows) = All (IsApart p) rows × AllApart rows

matches-update_row :
    (u v : Update) (rs : List Row)
    → u.id_column ≡ v.id_column
    → u.where_id ≢ v.where_id
    → count_rows (matches v) (map (update_row u) rs) ≡ count_rows (matches v) rs
unfolding count_rows update_row matches
matches-update_row u v [] e n = refl
matches-update_row u v (r ∷ rs) e n = ground (arith, matches-update_row u v rs e n)

IsReady-run_update :
    (p q : PlanRow) (db : Database)
    → IsApart p q
    → IsReady q db
    → IsReady q (run_update (update_for p) db)
unfolding run_update
IsReady-run_update p q db (inl other) r = record {
  allowed = r.allowed;
  has_id = r.has_id;
  has_server = r.has_server;
  valid = r.valid;
  once = ground arith;
}
IsReady-run_update p q db (inr (same, n)) r = record {
  allowed = r.allowed;
  has_id = r.has_id;
  has_server = r.has_server;
  valid = r.valid;
  once = ground (arith, matches-update_row (update_for p) (update_for q) (db.rows p.table) same n);
}

All-IsReady :
    (p : PlanRow) (rows : List PlanRow) (db : Database)
    → All (IsApart p) rows
    → All (λ q. IsReady q db) rows
    → All (λ q. IsReady q (run_update (update_for p) db)) rows
All-IsReady p [] db _ _ = tt
All-IsReady p (q ∷ rows) db (a, apart) (r, rs) =
    (IsReady-run_update p q db a r, All-IsReady p rows db apart rs)

-- The loop runs through.
pub apply_rows-ready :
    (n : ℕ) (rows : List PlanRow) (source target : Text) (db : Database)
    → source ≢ target
    → Between source target rows
    → AllApart rows
    → All (λ q. IsReady q db) rows
    → (apply_rows (λ k. none) n rows db).0 ≡ ok tt
unfolding apply_rows
apply_rows-ready n [] source target db d b a r = refl
apply_rows-ready n (p ∷ rows) source target db d ((o, w), bs) (a, apart) (r, rs) =
    let differ : p.old_server_id ≢ p.new_server_id = λ e. d (cc) in
    rw (apply_row-ready p db differ r)
      (apply_rows-ready (suc n) rows source target _ d bs apart (All-IsReady p rows db a rs))
