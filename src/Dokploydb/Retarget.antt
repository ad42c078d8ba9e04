-- ===== src/Dokploydb/Retarget.antt =====
-- Applying and rolling back a retarget plan, in one transaction.
pub mod Atomic
pub mod Effect
pub mod Ready
pub mod Safety
pub mod Undo
pub mod Rollback
use dokploymigrator.Base.{
  ℕ, zero, suc, Text, codes, Option, none, some, List, [], ◌∷◌, ◌++◌, map, Bool, true, false, not,
  ◌==◌, ◌!=◌, nat_eq, text_eq, if◌then◌else◌, Result, ok, err, ◌>>=◌, ◌>>◌, fail_if, wrap,
}
use dokploymigrator.Model.{PlanRow, MigrationPlan, local_server_id}
use dokploymigrator.Dokploydb.Postgres.{
  Database, Update, Faults, Failure, SqlError, exec_update, unless,
}
use dokploymigrator.Dokploydb.Columns.{is_retarget_table, validated_id_column}
use dokploymigrator.Dokploydb.Guard.{validate_retarget_plan_for_write, validate_write_schema}
use dokploymigrator.Dokploydb.Adapter.{
  Adapter, AdapterError, sql, guard, column, table_not_allowed, affected_rows, schema_fingerprint,
}

-- The three statements, with their arguments in place.
unfoldable pub retarget_sql : PlanRow → Text → Update
retarget_sql row id_column =
    if row.new_server_id == local_server_id
    then record {
      table = row.table;
      id_column = id_column;
      set_server = none;
      where_id = row.id;
      where_server = some row.old_server_id;
    }
    else if row.old_server_id == local_server_id
    then record {
      table = row.table;
      id_column = id_column;
      set_server = some row.new_server_id;
      where_id = row.id;
      where_server = none;
    }
    else record {
      table = row.table;
      id_column = id_column;
      set_server = some row.new_server_id;
      where_id = row.id;
      where_server = some row.old_server_id;
    }

-- A step of a transaction: its result, and the state that it leaves in the transaction.
abbrev pub Step : Type 0
Step = Result AdapterError (Unit {0}) × Database

pub check_affected : PlanRow → ℕ → Result AdapterError (Unit {0})
check_affected row affected = fail_if (affected != 1) (affected_rows row affected)

pub exec_row : Option Failure → PlanRow → Text → Database → Step
unfolding check_affected
exec_row fault row id_column tx = elim (exec_update fault (retarget_sql row id_column) tx) [
  | err e ↦ (err (sql e), tx)
  | ok (tx', affected) ↦ (check_affected row affected, tx')
]

-- One round of the loop.
unfoldable pub apply_row : Option Failure → PlanRow → Database → Step
unfolding exec_row
apply_row fault row tx =
    if not (is_retarget_table row.table)
    then (err (table_not_allowed row.table), tx)
    else elim (validated_id_column row.table row.id_column) [
      | err e ↦ (err (column e), tx)
      | ok id_column ↦ exec_row fault row id_column tx
    ]

-- The loop over the rows, the rest of it after one round.
abbrev pub after : Step → (Database → Step) → Step
after (ok _, tx) rest = rest tx
after (err e, tx) rest = (err e, tx)

unfoldable pub apply_rows : (ℕ → Option Failure) → ℕ → List PlanRow → Database → Step
apply_rows faults n [] tx = (ok tt, tx)
apply_rows faults n (row ∷ rows) tx =
    after (apply_row (faults n) row tx) (λ tx'. apply_rows faults (suc n) rows tx')

-- `tx.Commit()`, and the deferred `tx.Rollback()` where the function returns before it.
unfoldable pub finish : Option Failure → Database → Step → Step
finish fault db (err e, tx) = (err e, db)
finish none db (ok _, tx) = (ok tt, tx)
finish (some f) db (ok _, tx) = (err (sql (SqlError.refused f)), db)

unfoldable pub transact : Faults → List PlanRow → Database → Step
unfolding apply_rows finish
transact faults rows db = elim faults.begin_tx [
  | some f ↦ (err (sql (SqlError.refused f)), db)
  | none ↦ finish faults.commit db (apply_rows faults.exec zero rows db)
]

abbrev pub reverse_row : PlanRow → PlanRow
reverse_row row = record row {
  old_server_id = row.new_server_id;
  new_server_id = row.old_server_id;
}

-- The loop from the last row to the first.
unfoldable pub reverse_rows : List PlanRow → List PlanRow
reverse_rows [] = []
reverse_rows (row ∷ rows) = reverse_rows rows ++ reverse_row row ∷ []

unfoldable pub reversed : MigrationPlan → MigrationPlan
unfolding reverse_rows
reversed plan = record plan {
  source_server_id = plan.target_server_id;
  target_server_id = plan.source_server_id;
  rows = reverse_rows plan.rows;
}

module _ (sha256 : Text → List ℕ) where
  -- What `ApplyRetargetPlan` checks before it begins the transaction.
  unfoldable pub check_write :
      Faults → Adapter → MigrationPlan → Text → Database → Result AdapterError (Unit {0})
  check_write faults a plan approval db = do
    wrap guard (validate_retarget_plan_for_write plan)
    hash ← schema_fingerprint sha256 faults db
    wrap guard (validate_write_schema hash plan.schema_hash approval a.allowed_hashes)

  unfoldable pub apply_retarget_plan : Faults → Adapter → MigrationPlan → Text → Database → Step
  unfolding check_write transact
  apply_retarget_plan faults a plan approval db = elim (check_write faults a plan approval db) [
    | err e ↦ (err e, db)
    | ok _ ↦ transact faults plan.rows db
  ]

  unfoldable pub rollback_retarget_plan : Faults → Adapter → MigrationPlan → Text → Database → Step
  unfolding apply_retarget_plan reversed
  rollback_retarget_plan faults a plan approval db =
      apply_retarget_plan faults a (reversed plan) approval db
