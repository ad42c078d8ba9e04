-- ===== src/Tests/Retarget.antt =====
-- Tests of the adapter of internal/dokploydb/postgres.go on a small database.
use dokploymigrator.Dokploydb.Counts.{
  Counts, scan_resource_counts, group_by_server, resource_counts_by_server,
}
use dokploymigrator.Dokploydb.Counts.Sums.{rows_in, resource_counts_by_server-rows_in}
use dokploymigrator.Dokploydb.Resources.{SupportedTable, supported_tables}
use dokploymigrator.Dokploydb.Columns.{
  is_retarget_table, validated_id_column, id_column_candidates, resource_id_column,
}
use dokploymigrator.Dokploydb.Adapter.{schema_fingerprint, affected_rows}
use dokploymigrator.Dokploydb.Guard.{validate_retarget_plan_for_write, validate_write_schema}
use dokploymigrator.Base.{
  List, codes, ok, err, ◌≡◌, refl, text_eq, trim_space, nat_eq, option_eq, Text, [], ◌∷◌, map,
  false, All, arith, ◌++◌, sort_by,
}
use dokploymigrator.Dokploydb.Postgres.{
  no_faults, exec_update, has_column, matches, Database, count_rows, update_row,
}
use dokploymigrator.Dokploydb.Retarget.{
  apply_retarget_plan, rollback_retarget_plan, apply_row, retarget_sql,
}
use dokploymigrator.Tests.{database, sha256, adapter, plan, approval, row}
use dokploymigrator.Model.{MigrationPlan}
use dokploymigrator.Dokploydb.Guard.Validity.{IsApproved, IsValid}
use dokploymigrator.Dokploydb.Retarget.Atomic.{apply_retarget_plan-atomic}
use dokploymigrator.Dokploydb.Retarget.Effect.{moved, apply_retarget_plan-effect}
use dokploymigrator.Dokploydb.Retarget.Safety.{
  InTables, apply_retarget_plan-guarded, apply_retarget_plan-frame,
}
use dokploymigrator.Dokploydb.Retarget.Undo.{KeyedIn}
use dokploymigrator.Dokploydb.Retarget.Rollback.{rollback_retarget_plan-restores}
use dokploymigrator.Dokploydb.Columns.Candidates.{id_column_candidates-eq}

applied :
    (apply_retarget_plan sha256 no_faults adapter plan approval (database (codes "a"))).0 ≡ ok tt
unfolding apply_retarget_plan validate_retarget_plan_for_write text_eq trim_space schema_fingerprint
    validate_write_schema apply_row is_retarget_table validated_id_column exec_update has_column
    retarget_sql nat_eq matches option_eq
applied = refl

abbrev before : Database
before = database (codes "a")

apply_retarget_plan-effect_example :
    (apply_retarget_plan sha256 no_faults adapter plan approval before).1.rows (codes "redis")
    ≡ map (moved (codes "a") (codes "b") (row ∷ []) (codes "redis")) (before.rows (codes "redis"))
apply_retarget_plan-effect_example =
    apply_retarget_plan-effect sha256 no_faults adapter plan approval before applied (codes "redis")

apply_retarget_plan-guarded_example :
    (current : Text) × (schema_fingerprint sha256 no_faults before ≡ ok current)
    × IsApproved current (codes "2a") approval []
    × IsValid plan
    × InTables (row ∷ [])
apply_retarget_plan-guarded_example =
    apply_retarget_plan-guarded sha256 no_faults adapter plan approval before applied

not_a_table : is_retarget_table (codes "user") ≡ false
unfolding is_retarget_table text_eq
not_a_table = refl

apply_retarget_plan-frame_example :
    (apply_retarget_plan sha256 no_faults adapter plan approval before).1.rows (codes "user")
    ≡ before.rows (codes "user")
apply_retarget_plan-frame_example =
    apply_retarget_plan-frame sha256 no_faults adapter plan approval before (codes "user")
      not_a_table

keyed : All (KeyedIn before) (row ∷ [])
unfolding count_rows text_eq option_eq
keyed = (omega arith, tt)

rollback_retarget_plan-restores_example :
    rollback_retarget_plan sha256 no_faults adapter plan approval
      (apply_retarget_plan sha256 no_faults adapter plan approval before).1
    ≡ (ok tt, before)
rollback_retarget_plan-restores_example =
    rollback_retarget_plan-restores sha256 no_faults adapter plan approval before applied keyed

-- The same resource twice: the second row finds nothing to move.
abbrev twice : MigrationPlan
twice = record plan { rows = row ∷ row ∷ [] }

refused :
    (apply_retarget_plan sha256 no_faults adapter twice approval before).0
    ≡ err (affected_rows row 0)
unfolding apply_retarget_plan validate_retarget_plan_for_write text_eq trim_space schema_fingerprint
    validate_write_schema apply_row is_retarget_table validated_id_column exec_update has_column
    retarget_sql nat_eq matches option_eq update_row
refused = refl

apply_retarget_plan-atomic_example :
    (apply_retarget_plan sha256 no_faults adapter twice approval before).1 ≡ before
apply_retarget_plan-atomic_example =
    apply_retarget_plan-atomic sha256 no_faults adapter twice approval before refused

id_column_candidates-eq_example :
    id_column_candidates (codes "redis") ≡ (codes "redis" ++ codes "Id") ∷ codes "id" ∷ []
id_column_candidates-eq_example = id_column_candidates-eq (codes "redis")

abbrev counts : Counts
counts = scan_resource_counts (group_by_server (before.rows (codes "redis"))) (λ k. 0)

counts_read : resource_counts_by_server no_faults before ≡ ok counts
unfolding resource_counts_by_server supported_tables sort_by resource_id_column text_eq has_column
counts_read = refl

resource_counts_by_server-rows_in_example :
    (tables : List SupportedTable) × (supported_tables no_faults before ≡ ok tables)
    × ((k : Text) → counts k ≡ rows_in k before tables)
resource_counts_by_server-rows_in_example =
    resource_counts_by_server-rows_in no_faults before counts counts_read
