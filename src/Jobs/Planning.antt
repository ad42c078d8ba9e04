-- ===== src/Jobs/Planning.antt =====
-- `Plan` and `ListServers` of internal/jobs/jobs.go.
pub mod ReadOnly
pub mod Stored
pub mod Calls
pub mod Accepted
use Prim.Native.Nat.{◌*◌}
use dokploymigrator.Base.{
  ℕ, ◌+◌, Text, codes, List, [], ◌++◌, Option, none, some, ◌!=◌, text_eq, trim_space, decimal,
  if◌then◌else◌, Result, ok, err, wrap, ℤ,
}
use dokploymigrator.Model.{Server, MigrationPlan, normalize_migration_mode}
use dokploymigrator.State.Time.{Time}
use dokploymigrator.State.Tables.{
  job_pending, job_paused, job_failed, mode_payload, error_payload, plan_payload, empty_payload,
}
use dokploymigrator.State.Jobs.{Job, create_job}
use dokploymigrator.Jobs.Adapter.{DbAdapter}
use dokploymigrator.Jobs.ApiClient.{ApiClient, ApiError, health}
use dokploymigrator.Jobs.Manager.{
  JobsError, Env, World, M, pure, raise, attempt, on_store, require_db, require_store, ◌>>◌,
  dokploy_db_missing, unsupported_mode, adapter_error,
}
use dokploymigrator.Jobs.Validation.{plan_ready_message}
use dokploymigrator.Jobs.Workflow.{Setup, update, append}

-- `time.Now().UTC().UnixNano()`
abbrev pub unix_nano : Time → ℕ
unix_nano t = t.second * 1000000000 + t.nano

abbrev pub new_job : Time → Text → Text → Text → Job
new_job now source target mode = record {
  id = codes "job-" ++ decimal (unix_nano now);
  source_server_id = source;
  target_server_id = target;
  mode = mode;
  status = some job_pending;
  checkpoint = [];
  created_at = none;
  updated_at = none;
}

abbrev pub dry_run_ready : Text
dry_run_ready = codes "dry-run-ready"

module _ (d : DbAdapter) (setup : Setup d.Failure) (env : Env) where
  unfoldable pub log_health : Text → Result ApiError (Unit {0}) → M d (Unit {0})
  unfolding append
  log_health job_id (err e) = attempt (
      append d setup env 2 job_id (codes "warn") (codes "Dokploy API health failed")
        (error_payload (setup.print_api_error e)))
  log_health job_id (ok u) =
      attempt (
        append d setup env 2 job_id (codes "info") (codes "Dokploy API health passed")
          empty_payload)

  -- `m.api.Health`, if an API is configured, and the event about it. Its outcome stops nothing.
  unfoldable pub check_health : Text → Option ApiClient → M d (Unit {0})
  unfolding log_health
  check_health job_id none = pure tt
  check_health job_id (some api) =
      if api.base_url != [] then log_health job_id (health setup.network api) else pure tt

  -- The branch of a plan that could not be built.
  unfoldable pub mark_unplanned : Text → d.Failure → M d (Job × MigrationPlan)
  unfolding update append
  mark_unplanned job_id e = do
    attempt (update d setup env 3 job_id job_failed (codes "plan"))
    attempt (
        append d setup env 4 job_id (codes "error") (codes "plan failed")
          (error_payload (setup.print_error e)))
    raise (adapter_error e)

  unfoldable pub mark_planned : Job → MigrationPlan → M d (Job × MigrationPlan)
  unfolding update append
  mark_planned job plan = do
    update d setup env 3 job.id job_paused dry_run_ready
    append d setup env 4 job.id (codes "info") plan_ready_message (plan_payload plan)
    pure (record job { status = some job_paused; checkpoint = dry_run_ready }, plan)

  unfoldable pub record_plan : Job → Result d.Failure MigrationPlan → M d (Job × MigrationPlan)
  unfolding mark_planned mark_unplanned
  record_plan job (err e) = mark_unplanned job.id e
  record_plan job (ok plan) = mark_planned job plan

  unfoldable pub finish_plan : Job → Option d.State → M d (Job × MigrationPlan)
  unfolding record_plan
  finish_plan job none = raise dokploy_db_missing
  finish_plan job (some s) =
      record_plan job (d.build_retarget_plan job.source_server_id job.target_server_id s)

  unfoldable pub create_and_plan : Text → Job → M d (Job × MigrationPlan)
  unfolding append check_health finish_plan
  create_and_plan mode job = do
    on_store (create_job setup.calendar (env.fault 0) (env.now 0) job)
    append d setup env 1 job.id (codes "info") (codes "job created") (mode_payload mode)
    check_health job.id setup.api
    λ w. finish_plan job w.db w

  unfoldable pub plan_in_mode : Text → Text → Text → Option Text → M d (Job × MigrationPlan)
  unfolding create_and_plan
  plan_in_mode source target mode none = raise (unsupported_mode mode)
  plan_in_mode source target mode (some normalized) =
      create_and_plan normalized
        (new_job env.started (trim_space source) (trim_space target) normalized)

  unfoldable pub plan : Text → Text → Text → M d (Job × MigrationPlan)
  unfolding plan_in_mode
  plan source target mode = do
    require_db
    require_store
    plan_in_mode source target mode (normalize_migration_mode mode)

  unfoldable pub list_servers : ℤ → World d → Result (JobsError d.Failure) (List Server)
  list_servers dead_after w = elim w.db [
    | none ↦ err dokploy_db_missing
    | some s ↦ wrap adapter_error (d.list_servers dead_after s)
  ]
