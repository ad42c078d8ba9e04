-- ===== src/Jobs/Validation.antt =====
-- `validateJobPlan` and `validateStoredDryRunPlan`: what is checked before a plan is written.
use dokploymigrator.Base.{
  Text, codes, List, [], ◌∷◌, Option, none, some, ◌||◌, ◌==◌, ◌!=◌, text_eq, trim_space,
  if◌then◌else◌, Result, ok, err, ◌>>=◌, ◌>>◌, fail_if, wrap,
}
use dokploymigrator.Model.{MigrationPlan}
use dokploymigrator.State.Time.{Calendar}
use dokploymigrator.State.Tables.{
  Payload, mode_payload, error_payload, rows_payload, plan_payload, empty_payload, Event, Store,
}
use dokploymigrator.State.Jobs.{get_job}
use dokploymigrator.State.Audit.{list_events}
use dokploymigrator.Jobs.Subset.{validate_plan_subset}
use dokploymigrator.Jobs.Manager.{
  JobsError, Env, state_store_missing, store_error, job_id_required, plan_id_required,
  schema_hash_required, servers_differ, plan_not_decoded, plan_not_subset, plan_not_stored,
}

abbrev pub plan_ready_message : Text
plan_ready_message = codes "dry-run plan ready"

abbrev pub zero_plan : MigrationPlan
zero_plan = record {
  id = [];
  source_server_id = [];
  target_server_id = [];
  created_at = 0;
  schema_hash = [];
  rows = [];
}

-- `json.Unmarshal` into a plan of what `json.Marshal` made: unknown keys are skipped, and a number
-- does not fit the field `rows`.
unfoldable pub decode_plan : Payload → Option MigrationPlan
decode_plan (plan_payload plan) = some plan
decode_plan (rows_payload n) = none
decode_plan (mode_payload mode) = some zero_plan
decode_plan (error_payload e) = some zero_plan
decode_plan empty_payload = some zero_plan

module _ {E : Type 0} where
  -- The loop over the events: one round, the rest of the loop last.
  unfoldable pub check_stored :
      Text
      → MigrationPlan
      → Option MigrationPlan
      → Result (JobsError E) (Unit {0})
      → Result (JobsError E) (Unit {0})
  check_stored job_id plan none rest = err (plan_not_decoded job_id)
  check_stored job_id plan (some stored) rest =
      if stored.id != plan.id then rest else wrap plan_not_subset (validate_plan_subset stored plan)

  unfoldable pub find_stored : Text → MigrationPlan → List Event → Result (JobsError E) (Unit {0})
  unfolding check_stored decode_plan
  find_stored job_id plan [] = err (plan_not_stored plan.id)
  find_stored job_id plan (event ∷ events) =
      let rest = find_stored job_id plan events in
      if event.message != plan_ready_message
      then rest
      else check_stored job_id plan (decode_plan event.payload) rest

  unfoldable pub validate_stored :
      Env → Text → MigrationPlan → Store → Result (JobsError E) (Unit {0})
  unfolding find_stored
  validate_stored env job_id plan s = do
    events ← wrap store_error (list_events (env.fault 1) job_id s)
    find_stored job_id plan events

  abbrev or_missing : Option Store → Result (JobsError E) Store
  or_missing none = err state_store_missing
  or_missing (some s) = ok s

  unfoldable pub validate_job_plan :
      Calendar → Env → Text → MigrationPlan → Option Store → Result (JobsError E) (Unit {0})
  unfolding validate_stored
  validate_job_plan calendar env job_id plan store = do
    s ← or_missing store
    fail_if (trim_space job_id == []) job_id_required
    fail_if (trim_space plan.id == []) plan_id_required
    fail_if (trim_space plan.schema_hash == []) schema_hash_required
    job ← wrap store_error (get_job calendar (env.fault 0) job_id s)
    fail_if
        (job.source_server_id != plan.source_server_id
          || job.target_server_id != plan.target_server_id)
        (servers_differ job_id)
    validate_stored env job_id plan s
