-- ===== src/Jobs/Workflow/Failed.antt =====
-- What `Apply` and `Rollback` of internal/jobs/jobs.go leave where the adapter fails.
use dokploymigrator.Base.{
  ℕ, Text, codes, List, [], ◌∷◌, ◌++◌, none, some, true, text_eq, Result, ok, err, ◌≡◌, refl, arith,
}
use dokploymigrator.Model.{MigrationPlan}
use dokploymigrator.State.Tables.{Event, Store, has_job, job_failed, error_payload}
use dokploymigrator.State.Time.{Time, Calendar}
use dokploymigrator.State.Audit.{append_event, insert_event, new_event}
use dokploymigrator.Jobs.Adapter.{DbAdapter}
use dokploymigrator.Jobs.Manager.{
  JobsError, Env, World, M, adapter_error, ◌>>=◌, ◌>>◌, on_store, on_db, or_else,
}
use dokploymigrator.Jobs.Validation.{validate_job_plan}
use dokploymigrator.Jobs.Workflow.{
  Setup, ApplyOptions, apply_confirmation_text, apply, apply_checked, rollback, rollback_checked,
  validated, update, append, mark_failed, begin_write, finish_apply, finish_rollback,
}
use dokploymigrator.Jobs.Workflow.Steps.{HasStatus, Ended, update-ok, mark_failed-err}
use dokploymigrator.Jobs.Workflow.Review.{validate_job_plan-IsReviewed}
use dokploymigrator.Jobs.Workflow.Live.{
  Has, Runs, Runs-begin_write, Runs-update, find_job-has_job, apply-passes,
}

-- The job is marked as failed, and the last event says why.
pub record IsFailed (id checkpoint reason : Text) (s : Store) : Type 0 where
  pub marked : HasStatus id job_failed checkpoint s
  pub earlier : List Event
  pub last : Event
  pub events : s.events ≡ earlier ++ last ∷ []
  pub of_job : last.job_id ≡ id
  pub level : last.level ≡ codes "error"
  pub payload : last.payload ≡ error_payload reason

append_event-IsFailed :
    (calendar : Calendar) (now : Time) (id checkpoint message reason : Text) (s : Store)
    → HasStatus id job_failed checkpoint s
    → IsFailed id checkpoint reason
        (append_event calendar none now id (codes "error") message (error_payload reason) s).1
unfolding append_event insert_event
append_event-IsFailed calendar now id checkpoint message reason s (row, found, status, at) =
    let there = find_job-has_job id s.jobs row found in
    rw there (record {
      marked = (row, found, status, at);
      earlier = s.events;
      last = record (new_event calendar now id (codes "error") message (error_payload reason)) {
        id = s.next_event_id;
      };
      events = refl;
      of_job = refl;
      level = refl;
      payload = refl;
    })

module _ (d : DbAdapter) (setup : Setup d.Failure) (env : Env) (job_id : Text)
    (plan : MigrationPlan) (quiet : (n : ℕ) → env.fault n ≡ none) where
  -- What a write that fails with `e` leaves: the database that the adapter left, and the failed job.
  abbrev pub Failed : Text → d.Failure → d.State → World d → Type 0
  Failed checkpoint e db w =
      (w.db ≡ some db)
      × (s : Store) × (w.store ≡ some s)
      × IsFailed job_id checkpoint (setup.print_error e) s

  appended :
      (n : ℕ) (checkpoint message : Text) (e : d.Failure) (db : d.State) (w : World d)
      → Ended d setup env job_id job_failed checkpoint w
      → w.db ≡ some db
      → Failed checkpoint e db
          (append d setup env n job_id
            (codes "error")
            message
            (error_payload (setup.print_error e))
            w).1
  unfolding append on_store
  appended n checkpoint message e db w (s, store, marked) there =
      rw (store, quiet n)
        (
          there,
          _,
          refl,
          append_event-IsFailed setup.calendar (env.now n) job_id checkpoint message
              (setup.print_error e) s marked,
        )

  mark_failed-leaves :
      (checkpoint message : Text) (e : d.Failure) (db : d.State) (w : World d)
      → Has d job_id db w
      → Failed checkpoint e db
          (mark_failed d setup env 4 job_id checkpoint message (adapter_error e) w).1
  unfolding mark_failed ◌>>=◌ Runs
  mark_failed-leaves checkpoint message e db w has =
      let (done, (_, _, _, same)) =
        Runs-update d setup env job_id plan quiet db 4 job_failed checkpoint w has in
      let ended = update-ok d setup env 4 job_id job_failed checkpoint w done in
      appended 5 checkpoint message e db (update d setup env 4 job_id job_failed checkpoint w).1
        ended same

  write_fails :
      (op : d.State → Result d.Failure (Unit {0}) × d.State)
      (handler : JobsError d.Failure → M d (Unit {0})) (db : d.State) (e : d.Failure) (w : World d)
      → w.db ≡ some db
      → (op db).0 ≡ err e
      → or_else (on_db op) handler w ≡ handler (adapter_error e) (record w { db = some (op db).1 })
  unfolding or_else on_db
  write_fails op handler db e w there h = rw (there, h) refl

  -- What surrounds a write that fails.
  around :
      (op : d.State → Result d.Failure (Unit {0}) × d.State) (after : M d (Unit {0}))
      (checkpoint started message : Text) (db : d.State) (e : d.Failure) (w : World d)
      → Has d job_id db w
      → (op db).0 ≡ err e
      → (let r =
            (begin_write d setup env job_id plan checkpoint started
                >> (or_else (on_db op) (mark_failed d setup env 4 job_id checkpoint message)
                    >> after))
              w in
          (r.0 ≡ err (adapter_error e)) × Failed checkpoint e (op db).1 r.1)
  unfolding ◌>>=◌ Runs
  around op after checkpoint started message db e w has fails =
      let (begun, (s, store, there, same)) =
        Runs-begin_write d setup env job_id plan quiet db checkpoint started w has in
      let v = (begin_write d setup env job_id plan checkpoint started w).1 in
      let handler = mark_failed d setup env 4 job_id checkpoint message in
      let wrote = write_fails op handler db e v same fails in
      let left =
        mark_failed-leaves checkpoint message e (op db).1 (record v { db = some (op db).1 })
          (s, store, there, refl) in
      let refused =
        mark_failed-err d setup env 4 job_id checkpoint message (adapter_error e)
          (record v { db = some (op db).1 }) in
      rw (begun, wrote, refused) (refl, left)

  job_there :
      (w : World d)
      → validate_job_plan {E = d.Failure} setup.calendar env job_id plan w.store ≡ ok tt
      → (s : Store) × (w.store ≡ some s) × (has_job job_id s.jobs ≡ true)
  job_there w valid =
      let (s, store, reviewed) =
        validate_job_plan-IsReviewed {E = d.Failure} setup.calendar env job_id plan w.store valid in
      (s, store, find_job-has_job job_id s.jobs reviewed.job reviewed.found)

  -- Where the adapter fails in `Apply`, after the checks and while the state database takes every call,
  -- `Apply` returns its error, the Dokploy database is as the adapter left it, the job is marked as
  -- failed at the checkpoint of the write, and the last event of the store is an error of the job that
  -- says why.
  pub apply-Failed :
      (opts : ApplyOptions) (db : d.State) (e : d.Failure) (w : World d)
      → w.db ≡ some db
      → opts.confirmation_text ≡ apply_confirmation_text
      → validate_job_plan {E = d.Failure} setup.calendar env job_id plan w.store ≡ ok tt
      → (d.apply_retarget_plan plan opts.schema_hash_approval db).0 ≡ err e
      → ((apply d setup env job_id plan opts w).0 ≡ err (adapter_error e))
        × Failed
            (codes "apply-retarget")
            e
            (d.apply_retarget_plan plan opts.schema_hash_approval db).1
            (apply d setup env job_id plan opts w).1
  unfolding apply_checked
  apply-Failed opts db e w there typed valid fails =
      let (s, store, has) = job_there w valid in
      rw (apply-passes d setup env job_id plan quiet opts db w there typed valid) (
        around (d.apply_retarget_plan plan opts.schema_hash_approval)
          (finish_apply d setup env job_id plan) (codes "apply-retarget")
          (codes "applying metadata retarget") (codes "metadata retarget failed") db e w
          (s, store, has, there) fails)

  rollback-passes :
      (approval : Text) (db : d.State) (w : World d)
      → w.db ≡ some db
      → validate_job_plan {E = d.Failure} setup.calendar env job_id plan w.store ≡ ok tt
      → rollback d setup env job_id plan approval w
        ≡ rollback_checked d setup env job_id plan approval w
  unfolding rollback validated ◌>>=◌
  rollback-passes approval db w there valid = ground arith

  -- Where the adapter fails in `Rollback`, after the checks and while the state database takes every
  -- call, `Rollback` returns its error, the Dokploy database is as the adapter left it, the job is
  -- marked as failed at the checkpoint of the rollback, and the last event of the store is an error of
  -- the job that says why.
  pub rollback-Failed :
      (approval : Text) (db : d.State) (e : d.Failure) (w : World d)
      → w.db ≡ some db
      → validate_job_plan {E = d.Failure} setup.calendar env job_id plan w.store ≡ ok tt
      → (d.rollback_retarget_plan plan approval db).0 ≡ err e
      → ((rollback d setup env job_id plan approval w).0 ≡ err (adapter_error e))
        × Failed
            (codes "rollback-retarget")
            e
            (d.rollback_retarget_plan plan approval db).1
            (rollback d setup env job_id plan approval w).1
  unfolding rollback_checked
  rollback-Failed approval db e w there valid fails =
      let (s, store, has) = job_there w valid in
      rw (rollback-passes approval db w there valid) (
        around (d.rollback_retarget_plan plan approval) (finish_rollback d setup env job_id plan)
          (codes "rollback-retarget") (codes "applying metadata rollback")
          (codes "metadata rollback failed") db e w (s, store, has, there) fails)
