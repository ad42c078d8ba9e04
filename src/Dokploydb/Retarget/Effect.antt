-- ===== src/Dokploydb/Retarget/Effect.antt =====
-- What a successful retarget does to every row of every table.
use dokploymigrator.Base.{
  ℕ, zero, suc, Text, codes, List, [], ◌∷◌, ◌++◌, map, Option, none, some, Bool, true, ◌&&◌, any,
  ◌==◌, text_eq, option_eq, if◌then◌else◌, ok, err, ◌≡◌, ◌≢◌, refl, arith, ◌∙◌, ap, sym, All,
  map_pointwise, map_twice, map_identity,
}
use dokploymigrator.Model.{PlanRow, MigrationPlan, local_server_id}
use dokploymigrator.Dokploydb.Postgres.{
  Row, Database, Update, Faults, Failure, matches, update_row, set_server_id, run_update,
  exec_update, count_rows, has_column, server_id_column,
}
use dokploymigrator.Dokploydb.Columns.{is_retarget_table, validated_id_column}
use dokploymigrator.Dokploydb.Columns.Candidates.{validated_id_column-ok}
use dokploymigrator.Dokploydb.Adapter.{Adapter, schema_fingerprint}
use dokploymigrator.Dokploydb.Guard.{validate_retarget_plan_for_write, validate_write_schema}
use dokploymigrator.Dokploydb.Guard.Validity.{IsWritable, validate_sound}
use dokploymigrator.Dokploydb.Retarget.{
  Step, after, retarget_sql, apply_row, apply_rows, transact, check_write, apply_retarget_plan,
  exec_row,
}

-- How a server is stored: the local one as NULL.
unfoldable pub stored_server : Text → Option Text
stored_server id = if id == local_server_id then none else some id

pub stored_server-injective : (a b : Text) → stored_server a ≡ stored_server b → a ≡ b
unfolding stored_server
stored_server-injective a b h = ground arith

-- The column by which a row of a plan names its resource.
abbrev pub id_column_of : PlanRow → Text
id_column_of p = if p.id_column == [] then p.table ++ codes "Id" else p.id_column

abbrev pub update_for : PlanRow → Update
update_for p = record {
  table = p.table;
  id_column = id_column_of p;
  set_server = stored_server p.new_server_id;
  where_id = p.id;
  where_server = stored_server p.old_server_id;
}

pub retarget_sql-eq :
    (p : PlanRow) (c : Text)
    → p.old_server_id ≢ p.new_server_id
    → c ≡ id_column_of p
    → retarget_sql p c ≡ update_for p
unfolding retarget_sql stored_server
retarget_sql-eq p c h e = rw e (ground arith)

-- What a round of the loop has done when it goes on.
pub record Applied (p : PlanRow) (tx tx' : Database) : Type 0 where
  pub allowed : is_retarget_table p.table ≡ true
  pub has_id : has_column tx.schema p.table (id_column_of p) ≡ true
  pub has_server : has_column tx.schema p.table server_id_column ≡ true
  pub valid : validated_id_column p.table p.id_column ≡ ok (id_column_of p)
  pub state : tx' ≡ run_update (update_for p) tx
  pub once : count_rows (matches (update_for p)) (tx.rows p.table) ≡ 1

exec_row-ok :
    (fault : Option Failure) (p : PlanRow) (c : Text) (tx : Database)
    → (exec_row fault p c tx).0 ≡ ok tt
    → let u = retarget_sql p c in
      (has_column tx.schema u.table u.id_column ≡ true)
      × (has_column tx.schema u.table server_id_column ≡ true)
      × ((exec_row fault p c tx).1 ≡ run_update u tx)
      × (count_rows (matches u) (tx.rows u.table) ≡ 1)
unfolding exec_row exec_update
exec_row-ok fault p c tx h = ground arith

apply_row-exec :
    (fault : Option Failure) (p : PlanRow) (tx : Database)
    → (apply_row fault p tx).0 ≡ ok tt
    → (c : Text) × (is_retarget_table p.table ≡ true)
      × (validated_id_column p.table p.id_column ≡ ok c)
      × (apply_row fault p tx ≡ exec_row fault p c tx)
unfolding apply_row
apply_row-exec fault p tx h = ground arith

Applied-by :
    (fault : Option Failure) (p : PlanRow) (tx : Database)
    → is_retarget_table p.table ≡ true
    → validated_id_column p.table p.id_column ≡ ok (id_column_of p)
    → retarget_sql p (id_column_of p) ≡ update_for p
    → (exec_row fault p (id_column_of p) tx).0 ≡ ok tt
    → Applied p tx (exec_row fault p (id_column_of p) tx).1
Applied-by fault p tx a v e h =
    let (has_id, has_server, state, once) = rw e at (exec_row-ok fault p (id_column_of p) tx h) in
    record {
      allowed = a;
      has_id = has_id;
      has_server = has_server;
      valid = v;
      state = state;
      once = once;
    }

pub apply_row-ok :
    (fault : Option Failure) (p : PlanRow) (tx : Database)
    → p.old_server_id ≢ p.new_server_id
    → (apply_row fault p tx).0 ≡ ok tt
    → Applied p tx (apply_row fault p tx).1
apply_row-ok fault p tx d h =
    let (c, a, v, e) = apply_row-exec fault p tx h in
    let valid = validated_id_column-ok p.table p.id_column c v in
    rw (e, valid)
      (Applied-by fault p tx a (rw valid at v) (retarget_sql-eq p _ d refl) (rw (e, valid) at h))

-- The rows of a plan all go from `source` to `target`.
abbrev pub Between : Text → Text → List PlanRow → Type 0
Between source target = All (λ p. (p.old_server_id ≡ source) × (p.new_server_id ≡ target))

-- Whether a row of the plan names a row of the table.
abbrev pub targets : Text → Row → PlanRow → Bool
targets table r p = p.table == table && r.cell (id_column_of p) == some p.id

-- What a plan means for a row of a table: it moves if it is on the source and the plan names it.
abbrev pub moved : Text → Text → List PlanRow → Text → Row → Row
moved source target plan table r =
    if r.server_id == stored_server source && any (targets table r) plan
    then set_server_id (stored_server target) r
    else r

-- What one row of the plan does to a row of a table.
abbrev step_row : PlanRow → Text → Row → Row
step_row p table r = if p.table == table then update_row (update_for p) r else r

rows-step :
    (p : PlanRow) (db : Database) (t : Text)
    → (run_update (update_for p) db).rows t ≡ map (step_row p t) (db.rows t)
unfolding run_update
rows-step p db t = elim (text_eq.dec t p.table) [
  | yes e ↦ ground (
    arith,
    map_pointwise (update_row (update_for p)) (step_row p t) (db.rows t) (λ x. ground arith),
  )
  | no n ↦ ground (arith, map_identity (step_row p t) (db.rows t) (λ x. ground arith))
]

moved-step :
    (source target : Text) (p : PlanRow) (plan : List PlanRow) (t : Text) (r : Row)
    → source ≢ target
    → p.old_server_id ≡ source
    → p.new_server_id ≡ target
    → moved source target plan t (step_row p t r) ≡ moved source target (p ∷ plan) t r
unfolding update_row matches
moved-step source target p plan t r d o n =
    rw (o, n) (ground (arith, stored_server-injective source target))

pub after-ok :
    (s : Step) (rest : Database → Step)
    → (after s rest).0 ≡ ok tt
    → (s.0 ≡ ok tt) × (after s rest ≡ rest s.1)
after-ok (ok tt, tx) rest h = (refl, refl)
after-ok (err e, tx) rest h = cc

apply_rows-effect :
    (faults : ℕ → Option Failure) (n : ℕ) (plan : List PlanRow) (source target : Text)
    (db : Database)
    → source ≢ target
    → Between source target plan
    → (apply_rows faults n plan db).0 ≡ ok tt
    → (t : Text)
    → (apply_rows faults n plan db).1.rows t ≡ map (moved source target plan t) (db.rows t)
unfolding apply_rows
apply_rows-effect faults n [] source target db d b h t =
    sym (map_identity _ (db.rows t) (λ r. ground arith))
apply_rows-effect faults n (p ∷ plan) source target db d (b, bs) h t =
    let (one, step) = after-ok (apply_row (faults n) p db) _ h in
    let applied = apply_row-ok (faults n) p db (λ e. d (cc)) one in
    ap (λ (s : Step). s.1.rows t) step
    ∙ apply_rows-effect faults (suc n) plan source target _ d bs (rw step at h) t
    ∙ ap (map (moved source target plan t))
        (ap (λ (s : Database). s.rows t) applied.state ∙ rows-step p db t)
    ∙ map_twice (moved source target plan t) (step_row p t) (moved source target (p ∷ plan) t)
        (db.rows t) (λ r. moved-step source target p plan t r d b.0 b.1)

-- A transaction that succeeds leaves what the loop over the rows has made.
pub transact-ok :
    (faults : Faults) (plan : List PlanRow) (db : Database)
    → (transact faults plan db).0 ≡ ok tt
    → ((apply_rows faults.exec zero plan db).0 ≡ ok tt)
      × ((transact faults plan db).1 ≡ (apply_rows faults.exec zero plan db).1)
unfolding transact
transact-ok faults plan db h = ground arith

pub writable-Between :
    (source target : Text) (plan : List PlanRow)
    → All (IsWritable source target) plan
    → Between source target plan
writable-Between source target [] _ = tt
writable-Between source target (p ∷ plan) (w, ws) =
    ((w.old, w.new), writable-Between source target plan ws)

module _ (sha256 : Text → List ℕ) where
  pub check_write-ok :
      (faults : Faults) (a : Adapter) (plan : MigrationPlan) (approval : Text) (db : Database)
      → check_write sha256 faults a plan approval db ≡ ok tt
      → (hash : Text) × (schema_fingerprint sha256 faults db ≡ ok hash)
        × (validate_retarget_plan_for_write plan ≡ ok tt)
        × (validate_write_schema hash plan.schema_hash approval a.allowed_hashes ≡ ok tt)
  unfolding check_write
  check_write-ok faults a plan approval db h = ground arith

  pub apply-ok :
      (faults : Faults) (a : Adapter) (plan : MigrationPlan) (approval : Text) (db : Database)
      → (apply_retarget_plan sha256 faults a plan approval db).0 ≡ ok tt
      → (check_write sha256 faults a plan approval db ≡ ok tt)
        × ((transact faults plan.rows db).0 ≡ ok tt)
        × (apply_retarget_plan sha256 faults a plan approval db ≡ transact faults plan.rows db)
  unfolding apply_retarget_plan
  apply-ok faults a plan approval db h = ground arith

  -- A retarget that succeeds moves, in every table, exactly the rows that are on the source server
  -- and that a row of the plan names, to the target server, and leaves every other row as it was.
  pub apply_retarget_plan-effect :
      (faults : Faults) (a : Adapter) (plan : MigrationPlan) (approval : Text) (db : Database)
      → (apply_retarget_plan sha256 faults a plan approval db).0 ≡ ok tt
      → (t : Text)
      → (apply_retarget_plan sha256 faults a plan approval db).1.rows t
        ≡ map (moved plan.source_server_id plan.target_server_id plan.rows t) (db.rows t)
  apply_retarget_plan-effect faults a plan approval db h t =
      let (checked, done, e) = apply-ok faults a plan approval db h in
      let (hash, _, valid, _) = check_write-ok faults a plan approval db checked in
      let v = validate_sound plan valid in
      let (looped, e') = transact-ok faults plan.rows db done in
      ap (λ (s : Step). s.1.rows t) e
      ∙ ap (λ (s : Database). s.rows t) e'
      ∙ apply_rows-effect faults.exec zero plan.rows _ _ db v.differ
          (writable-Between _ _ plan.rows v.writable) looped t
