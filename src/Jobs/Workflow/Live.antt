-- ===== src/Jobs/Workflow/Live.antt =====
-- When `Apply` of internal/jobs/jobs.go runs to its end.
use dokploymigrator.Base.{
  ℕ, Text, codes, List, [], ◌∷◌, length, none, some, true, text_eq, Result, ok, ◌≡◌, refl, ◌∙◌,
  arith,
}
use dokploymigrator.Model.{MigrationPlan}
use dokploymigrator.State.Tables.{
  JobStatus, JobRow, Payload, Store, find_job, has_job, job_running, job_succeeded, rows_payload,
  empty_payload,
}
use dokploymigrator.State.Time.{Time, Calendar, format_time}
use dokploymigrator.State.Jobs.{Op, update_job, update_status}
use dokploymigrator.State.Invariant.{has_job-set_status}
use dokploymigrator.State.Audit.{append_event, insert_event, save_report, replace_report}
use dokploymigrator.Jobs.Adapter.{DbAdapter}
use dokploymigrator.Jobs.Manager.{JobsError, Env, World, M, ◌>>=◌, ◌>>◌, on_store, on_db, or_else}
use dokploymigrator.Jobs.Validation.{validate_job_plan}
use dokploymigrator.Jobs.Report.{build_report}
use dokploymigrator.Jobs.Workflow.Review.{validate_job_plan-IsReviewed}
use dokploymigrator.Jobs.Workflow.{
  Setup, ApplyOptions, apply_confirmation_text, apply, apply_checked, validated, update, append,
  save, mark_failed, begin_write, finish_apply,
}

-- A call of the store that succeeds for a job that is there, and keeps the job.
Serves : Text → Op (Unit {0}) → Type 0
Serves id op =
    (s : Store) → has_job id s.jobs ≡ true → ((op s).0 ≡ ok tt) × (has_job id (op s).1.jobs ≡ true)

module _ (calendar : Calendar) (now : Time) (id : Text) where
  update_job-Serves :
      (status : JobStatus) (checkpoint : Text)
      → Serves id (update_job calendar none now id status checkpoint)
  unfolding Serves update_job update_status
  update_job-Serves status checkpoint s h =
      let kept = has_job-set_status id id status checkpoint (format_time calendar now) s.jobs ∙ h in
      rw h (refl, kept)

  append_event-Serves :
      (level message : Text) (payload : Payload)
      → Serves id (append_event calendar none now id level message payload)
  unfolding Serves append_event insert_event
  append_event-Serves level message payload s h = rw h (refl, h)

  save_report-Serves :
      (json markdown : Text) → Serves id (save_report calendar none now id json markdown)
  unfolding Serves save_report replace_report
  save_report-Serves json markdown s h = rw h (refl, h)

module _ (d : DbAdapter) (id : Text) where
  -- The store is there with the job, and the Dokploy database is `db`.
  abbrev pub Has : d.State → World d → Type 0
  Has db w = (s : Store) × (w.store ≡ some s) × (has_job id s.jobs ≡ true) × (w.db ≡ some db)

  -- An action that succeeds where this holds, and keeps it.
  unfoldable pub Runs : d.State → M d (Unit {0}) → Type 0
  Runs db m = (w : World d) → Has db w → ((m w).0 ≡ ok tt) × Has db (m w).1

  Runs-on_store : (db : d.State) (op : Op (Unit {0})) → Serves id op → Runs db (on_store op)
  unfolding Runs Serves on_store
  Runs-on_store db op serves w (s, store, there, same) =
      let (done, kept) = serves s there in rw (store, done) (refl, ((op s).1, refl, kept, same))

  Runs-then : (db : d.State) (m k : M d (Unit {0})) → Runs db m → Runs db k → Runs db (m >> k)
  unfolding Runs ◌>>=◌
  Runs-then db m k first next w h = let (done, has) = first w h in rw done (next (m w).1 has)

-- A job that is found is there.
pub find_job-has_job :
    (id : Text) (jobs : List JobRow) (job : JobRow)
    → find_job id jobs ≡ some job
    → has_job id jobs ≡ true
unfolding find_job has_job
find_job-has_job id [] job h = cc
find_job-has_job id (j ∷ jobs) job h = ground (arith, find_job-has_job id jobs job)

module _ (d : DbAdapter) (setup : Setup d.Failure) (env : Env) (job_id : Text)
    (plan : MigrationPlan) (quiet : (n : ℕ) → env.fault n ≡ none) where
  pub Runs-update :
      (db : d.State) (n : ℕ) (status : JobStatus) (checkpoint : Text)
      → Runs d job_id db (update d setup env n job_id status checkpoint)
  unfolding update
  Runs-update db n status checkpoint =
      Runs-on_store d job_id db _
        (rw (quiet n) (update_job-Serves setup.calendar (env.now n) job_id status checkpoint))

  Runs-append :
      (db : d.State) (n : ℕ) (level message : Text) (payload : Payload)
      → Runs d job_id db (append d setup env n job_id level message payload)
  unfolding append
  Runs-append db n level message payload =
      Runs-on_store d job_id db _
        (rw (quiet n) (append_event-Serves setup.calendar (env.now n) job_id level message payload))

  Runs-save :
      (db : d.State) (n : ℕ) (report : Text × Text)
      → Runs d job_id db (save d setup env n job_id report)
  unfolding save
  Runs-save db n report =
      Runs-on_store d job_id db _
        (rw (quiet n) (save_report-Serves setup.calendar (env.now n) job_id report.0 report.1))

  pub Runs-begin_write :
      (db : d.State) (checkpoint message : Text)
      → Runs d job_id db (begin_write d setup env job_id plan checkpoint message)
  unfolding begin_write
  Runs-begin_write db checkpoint message =
      Runs-then d job_id db _ _ (Runs-update db 2 job_running checkpoint)
        (Runs-append db 3 (codes "info") message (rows_payload (length plan.rows)))

  Runs-finish_apply : (db : d.State) → Runs d job_id db (finish_apply d setup env job_id plan)
  unfolding finish_apply
  Runs-finish_apply db =
      Runs-then d job_id db _ _
        (Runs-save db 6 (build_report setup.json job_id plan (codes "metadata retarget applied")))
        (Runs-then d job_id db _ _
          (Runs-append db 7 (codes "info") (codes "report saved") empty_payload)
          (Runs-update db 8 job_succeeded (codes "metadata-retarget-complete")))

  -- A write of the adapter that succeeds.
  write-done :
      (op : d.State → Result d.Failure (Unit {0}) × d.State)
      (handler : JobsError d.Failure → M d (Unit {0})) (db : d.State) (w : World d)
      → Has d job_id db w
      → (op db).0 ≡ ok tt
      → ((or_else (on_db op) handler w).0 ≡ ok tt)
        × Has d job_id (op db).1 (or_else (on_db op) handler w).1
  unfolding or_else on_db
  write-done op handler db w (s, store, there, same) fine =
      rw (same, fine) (refl, (s, store, there, refl))

  apply_checked-done :
      (approval : Text) (db : d.State) (w : World d)
      → Has d job_id db w
      → (d.apply_retarget_plan plan approval db).0 ≡ ok tt
      → (apply_checked d setup env job_id plan approval w).0 ≡ ok tt
  unfolding apply_checked ◌>>=◌ Runs
  apply_checked-done approval db w has fine =
      let op = d.apply_retarget_plan plan approval in
      let handler =
        mark_failed d setup env 4 job_id (codes "apply-retarget")
          (codes "metadata retarget failed") in
      let (begun, has1) =
        Runs-begin_write db (codes "apply-retarget") (codes "applying metadata retarget") w has in
      let v =
        (begin_write d setup env job_id plan (codes "apply-retarget")
          (codes "applying metadata retarget") w).1 in
      let (wrote, has2) = write-done op handler db v has1 fine in
      let (ended, _) = Runs-finish_apply (op db).1 (or_else (on_db op) handler v).1 has2 in
      rw (begun, wrote) ended

  pub apply-passes :
      (opts : ApplyOptions) (db : d.State) (w : World d)
      → w.db ≡ some db
      → opts.confirmation_text ≡ apply_confirmation_text
      → validate_job_plan {E = d.Failure} setup.calendar env job_id plan w.store ≡ ok tt
      → apply d setup env job_id plan opts w
        ≡ apply_checked d setup env job_id plan opts.schema_hash_approval w
  unfolding apply validated ◌>>=◌
  apply-passes opts db w there typed valid = ground arith

  pub apply-done :
      (opts : ApplyOptions) (db : d.State) (w : World d)
      → w.db ≡ some db
      → opts.confirmation_text ≡ apply_confirmation_text
      → validate_job_plan {E = d.Failure} setup.calendar env job_id plan w.store ≡ ok tt
      → (d.apply_retarget_plan plan opts.schema_hash_approval db).0 ≡ ok tt
      → (apply d setup env job_id plan opts w).0 ≡ ok tt
  apply-done opts db w there typed valid fine =
      let (s, store, reviewed) =
        validate_job_plan-IsReviewed {E = d.Failure} setup.calendar env job_id plan w.store valid in
      let has = find_job-has_job job_id s.jobs reviewed.job reviewed.found in
      rw (apply-passes opts db w there typed valid)
        (apply_checked-done opts.schema_hash_approval db w (s, store, has, there) fine)
