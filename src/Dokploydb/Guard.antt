-- ===== src/Dokploydb/Guard.antt =====
-- The checks of internal/dokploydb/postgres.go before a write.
pub mod Validity
use dokploymigrator.Base.{
  Text, codes, List, [], ◌∷◌, Bool, true, false, ◌||◌, not, ◌==◌, ◌!=◌, text_eq, contains,
  trim_space, if◌then◌else◌, Result, ok, err, ◌>>=◌, ◌>>◌, fail_if,
}
use dokploymigrator.Model.{PlanRow, MigrationPlan}

pub data GuardError : Type 0 where
  plan_id_required server_ids_required server_ids_must_differ : GuardError
  schema_hash_required no_rows row_fields_required : GuardError
  row_servers_differ : PlanRow → GuardError
  hash_mismatch : Text → Text → GuardError
  approval_mismatch : Text → Text → GuardError
  approval_required : GuardError
  not_allowlisted : Text → GuardError

abbrev pub blank : Text → Bool
blank s = trim_space s == []

pub validate_rows : Text → Text → List PlanRow → Result GuardError (Unit {0})
validate_rows source target [] = ok tt
validate_rows source target (row ∷ rows) = do
  fail_if (blank row.table || blank row.id) row_fields_required
  fail_if (row.old_server_id != source || row.new_server_id != target) (row_servers_differ row)
  validate_rows source target rows

abbrev pub is_empty : {A : Type 0} → List A → Bool
is_empty [] = true
is_empty (x ∷ xs) = false

unfoldable pub validate_retarget_plan_for_write : MigrationPlan → Result GuardError (Unit {0})
unfolding validate_rows
validate_retarget_plan_for_write plan = do
  fail_if (blank plan.id) plan_id_required
  fail_if (blank plan.source_server_id || blank plan.target_server_id) server_ids_required
  fail_if (plan.source_server_id == plan.target_server_id) server_ids_must_differ
  fail_if (blank plan.schema_hash) schema_hash_required
  fail_if (is_empty plan.rows) no_rows
  validate_rows plan.source_server_id plan.target_server_id plan.rows

check_allowlist : Text → List Text → Result GuardError (Unit {0})
check_allowlist current [] = err approval_required
check_allowlist current (hash ∷ hashes) =
    fail_if (not (contains (hash ∷ hashes) current)) (not_allowlisted current)

unfoldable pub validate_write_schema : Text → Text → Text → List Text → Result GuardError (Unit {0})
unfolding check_allowlist
validate_write_schema current plan_hash approval allowed = do
  fail_if (plan_hash == []) schema_hash_required
  fail_if (plan_hash != current) (hash_mismatch plan_hash current)
  if approval != []
      then fail_if (approval != current) (approval_mismatch approval current)
      else check_allowlist current allowed
