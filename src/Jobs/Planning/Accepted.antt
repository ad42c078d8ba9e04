-- ===== src/Jobs/Planning/Accepted.antt =====
-- A plan that `Plan` of internal/jobs/jobs.go returns passes the checks of `Apply`.
use dokploymigrator.Base.{
  ℕ, Text, codes, [], Option, none, some, text_eq, trim_space, Result, ok, err, ◌≡◌, ◌≢◌, refl, sym,
  ap, ◌∙◌, arith, inl, inr, Option-cases, subst,
}
use dokploymigrator.Model.{MigrationPlan, normalize_migration_mode}
use dokploymigrator.State.Tables.{Store, job_paused, mode_payload, plan_payload}
use dokploymigrator.State.Jobs.{Job, create_job}
use dokploymigrator.State.Invariant.{IsWellFormed}
use dokploymigrator.Jobs.Adapter.{DbAdapter}
use dokploymigrator.Jobs.Manager.{
  adapter_error, Env, World, M, ◌>>=◌, ◌>>◌, on_store, raise, pure, require_db, require_store,
}
use dokploymigrator.State.Time.{Calendar}
use dokploymigrator.Jobs.Subset.{validate_plan_subset}
use dokploymigrator.Jobs.Validation.{validate_job_plan, plan_ready_message}
use dokploymigrator.Jobs.Workflow.{Setup, update, append}
use dokploymigrator.Jobs.Workflow.Steps.{update-ok}
use dokploymigrator.Jobs.Planning.{
  check_health, mark_unplanned, mark_planned, finish_plan, create_and_plan, plan, dry_run_ready,
  new_job, record_plan, plan_in_mode,
}
use dokploymigrator.Jobs.Planning.ReadOnly.{health-db}
use dokploymigrator.Jobs.Planning.Stored.{
  IsPlanned, create_job-IsUnplanned, validate_job_plan-stored,
}
use dokploymigrator.Jobs.Planning.Calls.{
  wrap-ok, bind-ok, Unplanned, Planned, updating, appending, checking, appended,
}

ok_pair :
    {E : Type 0} (job job' : Job) (p p' : MigrationPlan)
    → Path (Result E (Job × MigrationPlan)) (ok (job, p)) (ok (job', p'))
    → (job' ≡ job) × (p' ≡ p)
ok_pair job job' p p' h = (cc, cc)

module _ (d : DbAdapter) (setup : Setup d.Failure) (env : Env) (job : Job) where
  abbrev Waiting : World d → Type 0
  Waiting w = Unplanned d setup env job.id job.source_server_id job.target_server_id w.store

  abbrev pub After : MigrationPlan → World d → Type 0
  After p w = Planned d setup env job.id job.source_server_id job.target_server_id p w.store

  abbrev pub paused_job : Job
  paused_job = record job { status = some job_paused; checkpoint = dry_run_ready }

  -- What `Plan` does with the plan that the adapter made.
  marked :
      (job' : Job) (p p' : MigrationPlan) (w : World d)
      → Waiting w
      → (mark_planned d setup env job p w).0 ≡ ok (job', p')
      → (job' ≡ paused_job) × (p' ≡ p) × After p (mark_planned d setup env job p w).1
  unfolding mark_planned pure
  marked job' p p' w u h =
      let first = update d setup env 3 job.id job_paused dry_run_ready in
      let second = append d setup env 4 job.id (codes "info") plan_ready_message (plan_payload p) in
      let last : M d (Job × MigrationPlan) = pure (paused_job, p) in
      let (set, e) = bind-ok first (second >> last) w (job', p') h in
      let v = (first w).1 in
      let waiting =
        (updating d setup env job.id job.source_server_id job.target_server_id 3 job_paused
            dry_run_ready).at
          w u in
      let (done, e') = bind-ok second last v (job', p') (rw e at h) in
      let same = ok_pair paused_job job' p p' (sym (ap (λ r. r.0) (e ∙ e')) ∙ h) in
      let planned =
        appended d setup env job.id job.source_server_id job.target_server_id p v waiting
          (update-ok d setup env 3 job.id job_paused dry_run_ready w set) done in
      (same.0, same.1, rw (e, e') planned)

  unmarked :
      (e : d.Failure) (w : World d)
      → (mark_unplanned d setup env job.id e w).0 ≡ err (adapter_error e)
  unfolding mark_unplanned ◌>>=◌
  unmarked e w = refl

  recorded :
      (r : Result d.Failure MigrationPlan) (job' : Job) (p : MigrationPlan) (w : World d)
      → Waiting w
      → (record_plan d setup env job r w).0 ≡ ok (job', p)
      → (job' ≡ paused_job) × (r ≡ ok p) × After p (record_plan d setup env job r w).1
  unfolding record_plan
  recorded (ok q) job' p w u h =
      let (id, same, planned) = marked job' q p w u h in (id, ap ok (sym same), rw same planned)
  recorded (err e) job' p w u h = cc (unmarked e w)

  -- The plan of the adapter that `Plan` has stored.
  abbrev pub Stored : Job → MigrationPlan → World d → World d → Type 0
  Stored job' p w w' =
      (db : d.State) × (w.db ≡ some db)
      × (d.build_retarget_plan job.source_server_id job.target_server_id db ≡ ok p)
      × (job' ≡ paused_job)
      × After p w'

  finished :
      (job' : Job) (p : MigrationPlan) (w : World d)
      → Waiting w
      → (finish_plan d setup env job w.db w).0 ≡ ok (job', p)
      → Stored job' p w (finish_plan d setup env job w.db w).1
  unfolding finish_plan raise
  finished job' p w u h = go w.db w u h
    where
      go :
          (x : Option d.State) (w : World d)
          → Waiting w
          → (finish_plan d setup env job x w).0 ≡ ok (job', p)
          → (db : d.State) × (x ≡ some db)
            × (d.build_retarget_plan job.source_server_id job.target_server_id db ≡ ok p)
            × (job' ≡ paused_job)
            × After p (finish_plan d setup env job x w).1
      go none w u h = cc
      go (some db) w u h =
          let (id, same, after) =
            recorded (d.build_retarget_plan job.source_server_id job.target_server_id db) job' p w u
              h in
          (db, refl, same, id, after)

  begun :
      (w : World d) (s : Store)
      → w.store ≡ some s
      → IsWellFormed s
      → (on_store {d = d} (create_job setup.calendar (env.fault 0) (env.now 0) job) w).0 ≡ ok tt
      → Waiting (on_store {d = d} (create_job setup.calendar (env.fault 0) (env.now 0) job) w).1
  unfolding on_store Unplanned
  begun w s store sound c = rw store (
      create_job-IsUnplanned setup.calendar (env.fault 0) (env.now 0) job s sound
        (wrap-ok _ _ (rw store at c)))

  created :
      (mode : Text) (job' : Job) (p : MigrationPlan) (w : World d) (s : Store)
      → w.store ≡ some s
      → IsWellFormed s
      → (create_and_plan d setup env mode job w).0 ≡ ok (job', p)
      → Stored job' p w (create_and_plan d setup env mode job w).1
  unfolding create_and_plan
  created mode job' p w s store sound h =
      let op = create_job setup.calendar (env.fault 0) (env.now 0) job in
      let first : M d (Unit {0}) = on_store op in
      let second =
        append d setup env 1 job.id (codes "info") (codes "job created") (mode_payload mode) in
      let third = check_health d setup env job.id setup.api in
      let last : M d (Job × MigrationPlan) = λ w. finish_plan d setup env job w.db w in
      let (c, e1) = bind-ok first (second >> (third >> last)) w (job', p) h in
      let w1 = (first w).1 in
      let (_, e2) = bind-ok second (third >> last) w1 (job', p) (rw e1 at h) in
      let w2 = (second w1).1 in
      let (_, e3) = bind-ok third last w2 (job', p) (rw (e1 ∙ e2) at h) in
      let w3 = (third w2).1 in
      let all = e1 ∙ e2 ∙ e3 in
      let u1 : Waiting w1 = begun w s store sound c in
      let u2 =
        (appending d setup env job.id job.source_server_id job.target_server_id 1 (codes "info")
            (codes "job created") (mode_payload mode) (λ e. ground arith)).at
          w1 u1 in
      let u3 =
        (checking d setup env job.id job.source_server_id job.target_server_id setup.api).at w2
          u2 in
      let same =
        health-db d setup env op job.id (codes "info") (codes "job created") (mode_payload mode)
          w in
      let (db, there, made, id, after) = finished job' p w3 u3 (rw all at h) in
      (db, sym same ∙ there, made, id, rw all after)

module _ {d : DbAdapter} where
  require_db-world : (w : World d) → (require_db w).1 ≡ w
  unfolding require_db
  require_db-world w = elim (Option-cases w.db) [ inl e ↦ rw e refl | inr (x, e) ↦ rw e refl ]

  require_store-ok :
      (w : World d)
      → (require_store w).0 ≡ ok tt
      → ((require_store w).1 ≡ w) × (s : Store) × (w.store ≡ some s)
  unfolding require_store
  require_store-ok w h = elim (Option-cases w.store) [
    | inl e ↦ cc (rw e at h)
    | inr (s, e) ↦ (rw e refl, s, e)
  ]

module _ (d : DbAdapter) (setup : Setup d.Failure) (env : Env) (source target mode : Text) where
  abbrev pub fresh_job : Text → Job
  fresh_job m = new_job env.started (trim_space source) (trim_space target) m

  in_mode-begun :
      (n : Option Text) (w : World d) (a : Job × MigrationPlan)
      → (plan_in_mode d setup env source target mode n w).0 ≡ ok a
      → (m : Text) × (n ≡ some m)
        × (plan_in_mode d setup env source target mode n w
            ≡ create_and_plan d setup env m (fresh_job m) w)
  unfolding plan_in_mode raise
  in_mode-begun none w a h = cc
  in_mode-begun (some m) w a h = (m, refl, refl)

  -- `Plan` that succeeds has begun its work.
  plan-begun :
      (w : World d) (a : Job × MigrationPlan)
      → (plan d setup env source target mode w).0 ≡ ok a
      → (s : Store) × (w.store ≡ some s)
        × (m : Text) × (normalize_migration_mode mode ≡ some m)
        × (plan d setup env source target mode w ≡ create_and_plan d setup env m (fresh_job m) w)
  unfolding plan
  plan-begun w a h =
      let last = plan_in_mode d setup env source target mode (normalize_migration_mode mode) in
      let (_, e) = bind-ok require_db (require_store >> last) w a h in
      let e1 = e ∙ ap (require_store >> last) (require_db-world w) in
      let (there, e2) = bind-ok require_store last w a (rw e1 at h) in
      let (same, s, store) = require_store-ok w there in
      let e3 = e1 ∙ e2 ∙ ap last same in
      let (m, known, e4) = in_mode-begun (normalize_migration_mode mode) w a (rw e3 at h) in
      (s, store, m, known, e3 ∙ e4)

  -- Where `Plan` succeeds on a state database that keeps its invariant, the mode is known, the plan is
  -- the one that the adapter builds of the Dokploy database between the two trimmed servers, the job
  -- that is returned is the new one, paused and ready for its confirmation, and the state database
  -- holds it so, between these servers, with an event behind all others that records this plan, and no
  -- event of another plan for it.
  pub plan-Stored :
      (w : World d) (job : Job) (p : MigrationPlan)
      → ((s : Store) → w.store ≡ some s → IsWellFormed s)
      → (plan d setup env source target mode w).0 ≡ ok (job, p)
      → (m : Text) × (normalize_migration_mode mode ≡ some m)
        × Stored d setup env (fresh_job m) job p w (plan d setup env source target mode w).1
  plan-Stored w job p sound h =
      let (s, store, m, known, e) = plan-begun w (job, p) h in
      (
        m,
        known,
        rw e (created d setup env (fresh_job m) m job p w s store (sound s store) (rw e at h)),
      )

-- The checks before a write let such a plan through.
pub Planned-validated :
    (calendar : Calendar) (env : Env) (d : DbAdapter) (setup : Setup d.Failure) (before : Env)
    (id source target : Text) (plan : MigrationPlan) (store : Option Store)
    → ((n : ℕ) → env.fault n ≡ none)
    → source ≡ plan.source_server_id
    → target ≡ plan.target_server_id
    → Planned d setup before id source target plan store
    → trim_space id ≢ []
    → trim_space plan.id ≢ []
    → trim_space plan.schema_hash ≢ []
    → validate_plan_subset plan plan ≡ ok tt
    → validate_job_plan {E = d.Failure} calendar env id plan store ≡ ok tt
unfolding Planned
Planned-validated calendar env d setup before id source target plan none quiet _ _ p given plan_id
      hash v =
    absurd p
Planned-validated calendar env d setup before id source target plan (some s) quiet from to p given
      plan_id hash v =
    validate_job_plan-stored {E = d.Failure} calendar env id plan s quiet
      (subst (λ t. IsPlanned id plan.source_server_id t plan s) to
        (subst (λ t. IsPlanned id t target plan s) from p))
      given plan_id hash v
