-- ===== src/Jobs/Planned.antt =====
-- The way from `Plan` of internal/jobs/jobs.go, through `BuildRetargetPlan` of
-- internal/dokploydb/postgres.go and `Apply`, to the end of the job.
use dokploymigrator.Base.{
  ap, ℕ, Text, codes, List, [], ◌∷◌, ◌++◌, Option, none, some, Bool, true, false, ◌||◌, All,
  All-map, ok, ◌≡◌, ◌≢◌, refl, sym, ◌∙◌, subst, trim_space, is_space, decimal,
}
use mathlib.Core.Option.{some-injective}
use dokploymigrator.State.Jobs.{Job}
use dokploymigrator.State.Invariant.{IsWellFormed, Sound}
use dokploymigrator.Model.{PlanRow, MigrationPlan}
use dokploymigrator.State.Tables.{Store, job_succeeded}
use dokploymigrator.Dokploydb.Postgres.{Database, no_faults}
use dokploymigrator.Dokploydb.Adapter.{AdapterError}
use dokploymigrator.Dokploydb.Plan.{build_retarget_plan}
use dokploymigrator.Dokploydb.Plan.Applies.{
  IsAppliable, build_retarget_plan-applies, build_retarget_plan-servers,
}
use dokploymigrator.Dokploydb.Retarget.{apply_retarget_plan}
use dokploymigrator.Dokploydb.Plan.Ink.{trim_space-ink, trim_space_again}
use dokploymigrator.Jobs.Subset.{validate_plan_subset, same_row}
use dokploymigrator.Jobs.Subset.Sound.{Distinct, IsComplete, has_row, same_row_iff}
use dokploymigrator.Jobs.Subset.Complete.{validate_plan_subset_iff}
use dokploymigrator.Jobs.Planning.{plan, unix_nano}
use dokploymigrator.Jobs.Planning.ReadOnly.{plan-db}
use dokploymigrator.Jobs.Planning.Accepted.{plan-Stored, fresh_job, Planned-validated}
use dokploymigrator.Jobs.Manager.{Env, World}
use dokploymigrator.Jobs.Postgres.{Connection, postgres}
use dokploymigrator.Jobs.Validation.{validate_job_plan}
use dokploymigrator.Jobs.Workflow.{Setup, ApplyOptions, apply_confirmation_text, apply}
use dokploymigrator.Jobs.Workflow.Steps.{Ended}
use dokploymigrator.Jobs.Workflow.Outcome.{apply-succeeded}
use dokploymigrator.Jobs.Workflow.Live.{apply-done}

-- A plan that is made of the database of the call, and passes the checks of the job.
apply-planned :
    (c : Connection) (setup : Setup AdapterError) (env : Env) (source target job_id : Text)
    (plan : MigrationPlan) (opts : ApplyOptions) (w : World (postgres c)) (db : Database)
    → ((n : ℕ) → env.fault n ≡ none)
    → c.faults ≡ no_faults
    → w.db ≡ some db
    → build_retarget_plan c.sha256 c.collate c.faults c.adapter c.plan_now source target db
      ≡ ok plan
    → IsAppliable db plan
    → validate_job_plan {E = AdapterError} setup.calendar env job_id plan w.store ≡ ok tt
    → opts.confirmation_text ≡ apply_confirmation_text
    → opts.schema_hash_approval ≡ plan.schema_hash
    → ((apply (postgres c) setup env job_id plan opts w).0 ≡ ok tt)
      × Ended
          (postgres c)
          setup
          env
          job_id
          job_succeeded
          (codes "metadata-retarget-complete")
          (apply (postgres c) setup env job_id plan opts w).1
apply-planned c setup env source target job_id plan opts w db quiet calm there built ready valid
      typed approved =
    let applies =
      build_retarget_plan-applies c.sha256 c.collate c.faults c.adapter c.plan_now source target db
        plan built ready in
    let fine : (apply_retarget_plan c.sha256 c.faults c.adapter plan opts.schema_hash_approval db).0
        ≡ ok tt =
      rw (calm, approved) applies in
    let done =
      apply-done (postgres c) setup env job_id plan quiet opts db w there typed valid fine in
    (done, (apply-succeeded (postgres c) setup env job_id plan opts w done).1)

or_true : (b : Bool) → (b || true) ≡ true
or_true true = refl
or_true false = refl

rows_stored :
    (rows : List PlanRow)
    → All IsComplete rows
    → All (λ r. (has_row r rows ≡ true) × IsComplete r) rows
rows_stored [] _ = tt
rows_stored (r ∷ rows) (c, cs) = (
  (rw ((same_row_iff r r).1 refl) refl, c),
  All-map (λ q. (has_row q rows ≡ true) × IsComplete q)
      (λ q. (has_row q (r ∷ rows) ≡ true) × IsComplete q)
      (λ q h. (rw h.0 (or_true (same_row q r)), h.1)) rows (rows_stored rows cs),
)

-- A plan is a part of itself.
validate_plan_subset_self :
    (p : MigrationPlan)
    → p.rows ≢ []
    → All IsComplete p.rows
    → Distinct p.rows
    → validate_plan_subset p p ≡ ok tt
validate_plan_subset_self p some_row complete distinct =
    (validate_plan_subset_iff p p complete distinct).1 (record {
      source = refl;
      target = refl;
      hash = refl;
      some_row = some_row;
      distinct = distinct;
      rows = rows_stored p.rows complete;
    })

job_id_ink : (n : ℕ) → trim_space (codes "job-" ++ decimal n) ≢ []
job_id_ink n = trim_space-ink (codes "job-" ++ decimal n) (unfold is_space in refl)

-- A plan that `Plan` has returned runs through `Apply`: if `Plan` worked on a state database that
-- keeps its invariant, the operator has typed APPLY and approved the schema hash of the plan,
-- PostgreSQL refuses no call, and the state database refuses no call of `Apply`, then `Apply` of the
-- job and the plan has no error, and the job is marked as succeeded. The plan is taken to have rows
-- that are complete and distinct up to spaces, a schema hash and IDs that are not blank, and an ID for
-- each row that one row of its table has at most.
pub plan-applied :
    (c : Connection) (setup : Setup AdapterError) (before env : Env) (source target mode : Text)
    (job : Job) (p : MigrationPlan) (opts : ApplyOptions) (w : World (postgres c)) (db : Database)
    → Sound w.store
    → w.db ≡ some db
    → (plan (postgres c) setup before source target mode w).0 ≡ ok (job, p)
    → IsAppliable db p
    → All IsComplete p.rows
    → Distinct p.rows
    → ((n : ℕ) → env.fault n ≡ none)
    → c.faults ≡ no_faults
    → opts.confirmation_text ≡ apply_confirmation_text
    → opts.schema_hash_approval ≡ p.schema_hash
    → ((apply
          (postgres c)
          setup
          env
          job.id
          p
          opts
          (plan (postgres c) setup before source target mode w).1).0
        ≡ ok tt)
      × Ended
          (postgres c)
          setup
          env
          job.id
          job_succeeded
          (codes "metadata-retarget-complete")
          (apply
            (postgres c)
            setup
            env
            job.id
            p
            opts
            (plan (postgres c) setup before source target mode w).1).1
plan-applied c setup before env source target mode job p opts w db sound there planned ready
      complete distinct quiet calm typed approved =
    let (m, _, (x, there', made, returned, after)) =
      plan-Stored (postgres c) setup before source target mode w job p (sound_store w.store sound)
        planned in
    let w' = (plan (postgres c) setup before source target mode w).1 in
    let same : x ≡ db = some-injective x db (sym there' ∙ there) in
    let (from, to, plan_id) =
      build_retarget_plan-servers c.sha256 c.collate c.faults c.adapter c.plan_now
        (trim_space source) (trim_space target) x p made in
    let valid =
      Planned-validated setup.calendar env (postgres c) setup before
        (fresh_job (postgres c) setup before source target mode m).id (trim_space source)
        (trim_space target) p w'.store quiet (sym (from ∙ trim_space_again source))
        (sym (to ∙ trim_space_again target)) after (job_id_ink (unix_nano before.started)) plan_id
        ready.hash (validate_plan_subset_self p ready.some_row complete distinct) in
    apply-planned c setup env (trim_space source) (trim_space target) job.id p opts w' db quiet calm
      (plan-db (postgres c) setup before source target mode w ∙ there)
      (subst
        (λ y.
          build_retarget_plan c.sha256 c.collate c.faults c.adapter c.plan_now (trim_space source)
            (trim_space target) y
          ≡ ok p)
        same made)
      ready
      (subst (λ i. validate_job_plan {E = AdapterError} setup.calendar env i p w'.store ≡ ok tt)
        (sym (ap (λ (j : Job). j.id) returned)) valid)
      typed approved
  where
    sound_store :
        (store : Option Store) → Sound store → (s : Store) → store ≡ some s → IsWellFormed s
    sound_store none sound s e = cc
    sound_store (some t) sound s e = subst IsWellFormed (some-injective t s e) sound
