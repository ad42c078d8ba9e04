-- ===== src/Dokploydb/Plan.antt =====
-- `BuildRetargetPlan`: a dry run, which reads the database and writes nothing.
pub mod Tables
pub mod Counted
pub mod Listed
pub mod Loop
pub mod Fresh
pub mod Ink
pub mod Applies
use dokploymigrator.Base.{
  ℕ, Text, codes, List, [], ◌++◌, map, Bool, ◌||◌, ◌==◌, text_eq, trim_space, decimal, Result, ok,
  ◌>>=◌, ◌>>◌, fail_if,
}
use dokploymigrator.Model.{Resource, PlanRow, MigrationPlan}
use dokploymigrator.Dokploydb.Postgres.{Database, Faults}
use dokploymigrator.Dokploydb.Adapter.{
  Adapter, AdapterError, source_and_target_required, source_and_target_must_differ, validate_schema,
}
use dokploymigrator.Dokploydb.Resources.{list_server_resources}

unfoldable pub plan_row : Text → Text → Resource → PlanRow
plan_row source target resource = record {
  table = resource.resource_type;
  id_column = resource.id_column;
  id = resource.id;
  name = resource.name;
  old_server_id = source;
  new_server_id = target;
}

-- `now` is what the two calls of `time.Now` say.
unfoldable pub plan_of : ℕ × ℕ → Text → Text → Text → List Resource → MigrationPlan
unfolding plan_row
plan_of now source target hash resources = record {
  id = codes "plan-" ++ decimal now.0;
  source_server_id = source;
  target_server_id = target;
  created_at = now.1;
  schema_hash = hash;
  rows = map (plan_row source target) resources;
}

module _ (sha256 : Text → List ℕ) (collate : Text → Text → Bool) where
  unfoldable pub plan_between :
      Faults → Adapter → ℕ × ℕ → Text → Text → Database → Result AdapterError MigrationPlan
  unfolding plan_of
  plan_between faults a now source target db = do
    fail_if (source == [] || target == []) source_and_target_required
    fail_if (source == target) source_and_target_must_differ
    hash ← validate_schema sha256 faults a db
    resources ← list_server_resources collate faults source db
    ok (plan_of now source target hash resources)

  unfoldable pub build_retarget_plan :
      Faults → Adapter → ℕ × ℕ → Text → Text → Database → Result AdapterError MigrationPlan
  unfolding plan_between
  build_retarget_plan faults a now source target db =
      plan_between faults a now (trim_space source) (trim_space target) db
