-- ===== src/Jobs/Workflow.antt =====
-- `Apply` and `Rollback` of internal/jobs/jobs.go.
pub mod Review
pub mod Steps
pub mod Write
pub mod Outcome
pub mod Live
pub mod Failed
use dokploymigrator.Base.{
  ℕ, ◌+◌, Text, codes, List, [], ◌∷◌, ◌++◌, length, Option, none, some, Bool, true, false, not,
  ◌==◌, ◌!=◌, text_eq, trim_space, decimal, if◌then◌else◌, Result, ok, err, wrap, ℤ,
}
use dokploymigrator.Model.{Server, MigrationPlan, normalize_migration_mode}
use dokploymigrator.State.Time.{Time, Calendar}
use dokploymigrator.State.Tables.{
  JobStatus, job_pending, job_running, job_paused, job_succeeded, job_failed, job_rolled_back,
  Payload, mode_payload, error_payload, rows_payload, plan_payload, empty_payload, Store,
  StoreError,
}
use dokploymigrator.State.Jobs.{Job, Op, create_job, update_job}
use dokploymigrator.State.Audit.{append_event, save_report}
use dokploymigrator.Jobs.Adapter.{DbAdapter}
use dokploymigrator.Jobs.ApiClient.{ApiClient, ApiError, Request, Answer, health}
use dokploymigrator.Jobs.Report.{ReportBody, build_report}
use dokploymigrator.Jobs.Manager.{
  JobsError, Env, World, M, pure, raise, lift, attempt, on_store, or_else, require_db, on_db, ◌>>=◌,
  ◌>>◌, dokploy_db_missing, state_store_missing, apply_confirmation_missing, unsupported_mode,
  store_error, adapter_error,
}
use dokploymigrator.Jobs.Validation.{plan_ready_message, validate_job_plan}

pub record ApplyOptions : Type 0 where
  pub schema_hash_approval : Text
  pub confirmation_text : Text

abbrev pub apply_confirmation_text : Text
apply_confirmation_text = codes "APPLY"

-- The parts of the program's surroundings that are the same for every call: the calendar, the
-- printing of a report and of an error, the network, and the API client, where there is one.
pub record Setup (E : Type 0) : Type 0 where
  pub calendar : Calendar
  pub json : ReportBody → Text
  pub print_error : E → Text
  pub print_api_error : ApiError → Text
  pub network : Request → Answer
  pub api : Option ApiClient

module _ (d : DbAdapter) (setup : Setup d.Failure) (env : Env) where
  -- The n-th call of the store, with its time and fault.
  unfoldable pub update : ℕ → Text → JobStatus → Text → M d (Unit {0})
  update n id status checkpoint =
      on_store (update_job setup.calendar (env.fault n) (env.now n) id status checkpoint)

  unfoldable pub append : ℕ → Text → Text → Text → Payload → M d (Unit {0})
  append n id level message payload =
      on_store (append_event setup.calendar (env.fault n) (env.now n) id level message payload)

  unfoldable pub save : ℕ → Text → Text × Text → M d (Unit {0})
  save n id report =
      on_store (save_report setup.calendar (env.fault n) (env.now n) id report.0 report.1)

  abbrev pub error_text : JobsError d.Failure → Text
  error_text (adapter_error e) = setup.print_error e
  error_text e = []

  -- The branch of a failed write: the job is marked, the event says why, and the error comes back.
  unfoldable pub mark_failed : ℕ → Text → Text → Text → JobsError d.Failure → M d (Unit {0})
  unfolding update append
  mark_failed n id checkpoint message e = do
    attempt (update n id job_failed checkpoint)
    attempt (append (n + 1) id (codes "error") message (error_payload (error_text e)))
    raise e

  unfoldable pub validated : Text → MigrationPlan → M d (Unit {0})
  unfolding validate_job_plan lift
  validated job_id plan w = lift (validate_job_plan setup.calendar env job_id plan w.store) w

  -- The two calls before a write, which announce it.
  unfoldable pub begin_write : Text → MigrationPlan → Text → Text → M d (Unit {0})
  unfolding update append
  begin_write job_id plan checkpoint message = do
    update 2 job_id job_running checkpoint
    append 3 job_id (codes "info") message (rows_payload (length plan.rows))

  -- The calls after a write that was applied.
  unfoldable pub finish_apply : Text → MigrationPlan → M d (Unit {0})
  unfolding update append save build_report
  finish_apply job_id plan = do
    save 6 job_id (build_report setup.json job_id plan (codes "metadata retarget applied"))
    append 7 job_id (codes "info") (codes "report saved") empty_payload
    update 8 job_id job_succeeded (codes "metadata-retarget-complete")

  -- What `Apply` does after its checks.
  unfoldable pub apply_checked : Text → MigrationPlan → Text → M d (Unit {0})
  unfolding begin_write finish_apply mark_failed
  apply_checked job_id plan approval = do
    begin_write job_id plan (codes "apply-retarget") (codes "applying metadata retarget")
    or_else (on_db (d.apply_retarget_plan plan approval))
        (mark_failed 4 job_id (codes "apply-retarget") (codes "metadata retarget failed"))
    finish_apply job_id plan

  unfoldable pub apply : Text → MigrationPlan → ApplyOptions → M d (Unit {0})
  unfolding validated apply_checked
  apply job_id plan opts = do
    require_db
    (if opts.confirmation_text != apply_confirmation_text
        then raise apply_confirmation_missing
        else pure tt)
    validated job_id plan
    apply_checked job_id plan opts.schema_hash_approval

  -- The calls after a write that was rolled back.
  unfoldable pub finish_rollback : Text → MigrationPlan → M d (Unit {0})
  unfolding update append
  finish_rollback job_id plan = do
    append 6 job_id (codes "info") (codes "metadata rollback applied")
        (rows_payload (length plan.rows))
    update 7 job_id job_rolled_back (codes "metadata-rollback-complete")

  -- What `Rollback` does after its checks.
  unfoldable pub rollback_checked : Text → MigrationPlan → Text → M d (Unit {0})
  unfolding begin_write finish_rollback mark_failed
  rollback_checked job_id plan approval = do
    begin_write job_id plan (codes "rollback-retarget") (codes "applying metadata rollback")
    or_else (on_db (d.rollback_retarget_plan plan approval))
        (mark_failed 4 job_id (codes "rollback-retarget") (codes "metadata rollback failed"))
    finish_rollback job_id plan

  unfoldable pub rollback : Text → MigrationPlan → Text → M d (Unit {0})
  unfolding validated rollback_checked
  rollback job_id plan approval = do
    require_db
    validated job_id plan
    rollback_checked job_id plan approval
