-- ===== src/Dokploydb/Retarget/Rollback.antt =====
-- `RollbackRetargetPlan` against `ApplyRetargetPlan`.
use dokploymigrator.Base.{
  ℕ, zero, Text, List, [], ◌∷◌, ok, none, Option, ◌≡◌, ◌≢◌, refl, arith, ◌∙◌, ap, sym, All,
  All-append,
}
use mathlib.Core.List.{concat-ne-nil}
use dokploymigrator.Model.{PlanRow, MigrationPlan}
use dokploymigrator.Dokploydb.Postgres.{Database, Failure, Faults, no_faults}
use dokploymigrator.Dokploydb.Adapter.{Adapter, schema_fingerprint}
use dokploymigrator.Dokploydb.Guard.{validate_write_schema}
use dokploymigrator.Dokploydb.Guard.Validity.{
  IsWritable, IsValid, validate_sound, validate_complete,
}
use dokploymigrator.Dokploydb.Retarget.{
  Step, transact, apply_rows, check_write, apply_retarget_plan, rollback_retarget_plan, reverse_row,
  reverse_rows, reversed,
}
use dokploymigrator.Dokploydb.Retarget.Effect.{
  check_write-ok, apply-ok, transact-ok, writable-Between,
}
use dokploymigrator.Dokploydb.Retarget.Safety.{apply_retarget_plan-schema}
use dokploymigrator.Dokploydb.Retarget.Undo.{KeyedIn, undo_rows}

reverse_rows-IsWritable :
    (source target : Text) (rows : List PlanRow)
    → All (IsWritable source target) rows
    → All (IsWritable target source) (reverse_rows rows)
unfolding reverse_rows
reverse_rows-IsWritable source target [] _ = tt
reverse_rows-IsWritable source target (r ∷ rows) (w, ws) =
    All-append _ (reverse_rows rows) (reverse_row r ∷ [])
      (reverse_rows-IsWritable source target rows ws)
      (record { table = w.table; id = w.id; old = w.new; new = w.old }, tt)

reverse_rows-ne-nil : (rows : List PlanRow) → rows ≢ [] → reverse_rows rows ≢ []
unfolding reverse_rows
reverse_rows-ne-nil [] h e = h refl
reverse_rows-ne-nil (r ∷ rows) h e = concat-ne-nil (reverse_row r) (reverse_rows rows) e

reversed-IsValid : (plan : MigrationPlan) → IsValid plan → IsValid (reversed plan)
unfolding reversed
reversed-IsValid plan v = record {
  id = v.id;
  source = v.target;
  target = v.source;
  differ = λ e. v.differ (sym e);
  hash = v.hash;
  some_row = reverse_rows-ne-nil plan.rows v.some_row;
  writable = reverse_rows-IsWritable _ _ plan.rows v.writable;
}

module _ (sha256 : Text → List ℕ) where
  pub fingerprint_of_schema :
      (faults : Faults) (db db' : Database) {hash : Text}
      → db'.schema ≡ db.schema
      → schema_fingerprint sha256 faults db ≡ ok hash
      → schema_fingerprint sha256 no_faults db' ≡ ok hash
  unfolding schema_fingerprint
  fingerprint_of_schema faults db db' e h = rw e (ground arith)

  pub check_write-passes :
      (faults : Faults) (a : Adapter) (plan : MigrationPlan) (approval hash : Text) (db : Database)
      → IsValid plan
      → schema_fingerprint sha256 faults db ≡ ok hash
      → validate_write_schema hash plan.schema_hash approval a.allowed_hashes ≡ ok tt
      → check_write sha256 faults a plan approval db ≡ ok tt
  unfolding check_write
  check_write-passes faults a plan approval hash db v f w = rw (validate_complete plan v, f, w)

  pub apply-passes :
      (faults : Faults) (a : Adapter) (plan : MigrationPlan) (approval : Text) (db : Database)
      → check_write sha256 faults a plan approval db ≡ ok tt
      → apply_retarget_plan sha256 faults a plan approval db ≡ transact faults plan.rows db
  unfolding apply_retarget_plan
  apply-passes faults a plan approval db h = rw (h, apply_retarget_plan)

pub transact-passes :
    (rows : List PlanRow) (db db' : Database)
    → apply_rows (λ k. none) zero rows db ≡ (ok tt, db')
    → transact no_faults rows db ≡ (ok tt, db')
unfolding transact
transact-passes rows db db' h = rw (h, transact)

-- The reversed rows, in a transaction of their own, undo what the loop made of `db`.
undo_transact :
    (faults : ℕ → Option Failure) (plan : MigrationPlan) (db db' : Database)
    → IsValid plan
    → All (KeyedIn db) plan.rows
    → (apply_rows faults zero plan.rows db).0 ≡ ok tt
    → db' ≡ (apply_rows faults zero plan.rows db).1
    → transact no_faults (reverse_rows plan.rows) db' ≡ (ok tt, db)
undo_transact faults plan db db' v keys looped e = transact-passes (reverse_rows plan.rows) db' db (
    ap (apply_rows (λ k. none) zero (reverse_rows plan.rows)) e
    ∙ undo_rows faults zero zero plan.rows _ _ db v.differ
        (writable-Between _ _ plan.rows v.writable) keys looped)

module _ (sha256 : Text → List ℕ) where
  -- After a retarget that succeeded, its rollback under the same approval succeeds, if no statement is
  -- refused, and gives back the very database from before, where the ID of each row of the plan is the
  -- ID of at most one row of its table.
  pub rollback_retarget_plan-restores :
      (faults : Faults) (a : Adapter) (plan : MigrationPlan) (approval : Text) (db : Database)
      → (apply_retarget_plan sha256 faults a plan approval db).0 ≡ ok tt
      → All (KeyedIn db) plan.rows
      → rollback_retarget_plan sha256 no_faults a plan approval
          (apply_retarget_plan sha256 faults a plan approval db).1
        ≡ (ok tt, db)
  unfolding rollback_retarget_plan reversed
  rollback_retarget_plan-restores faults a plan approval db h keys =
      let (checked, done, e) = apply-ok sha256 faults a plan approval db h in
      let (hash, current, valid, approved) =
        check_write-ok sha256 faults a plan approval db checked in
      let v = validate_sound plan valid in
      let (looped, e') = transact-ok faults plan.rows db done in
      let db' = (apply_retarget_plan sha256 faults a plan approval db).1 in
      let same = apply_retarget_plan-schema sha256 faults a plan approval db h in
      let passes =
        check_write-passes sha256 no_faults a (reversed plan) approval hash db'
          (reversed-IsValid plan v) (fingerprint_of_schema sha256 faults db db' same current)
          approved in
      apply-passes sha256 no_faults a (reversed plan) approval db' passes
      ∙ undo_transact faults.exec plan db db' v keys looped (ap (λ (s : Step). s.1) e ∙ e')
