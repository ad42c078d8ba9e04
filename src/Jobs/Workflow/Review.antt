-- ===== src/Jobs/Workflow/Review.antt =====
-- Nothing is written without a reviewed plan.
use dokploymigrator.Base.{
  Text, List, [], ◌∷◌, Option, none, some, ◌==◌, text_eq, trim_space, filter_by, Result, ok, ◌≡◌,
  ◌≢◌, arith, ◌⊎◌, inl, inr, Option-cases,
}
use dokploymigrator.Model.{MigrationPlan}
use dokploymigrator.State.Tables.{JobRow, Event, Store, Failure, find_job}
use dokploymigrator.State.Jobs.{Job, get_job, scan_job}
use dokploymigrator.State.Time.{Calendar}
use dokploymigrator.State.Audit.{list_events}
use dokploymigrator.Jobs.Adapter.{DbAdapter}
use dokploymigrator.Jobs.Subset.{validate_plan_subset}
use dokploymigrator.Jobs.Subset.Sound.{IsPart, validate_plan_subset-IsPart}
use dokploymigrator.Jobs.Manager.{JobsError, Env, World, ◌>>=◌}
use dokploymigrator.Jobs.Validation.{
  plan_ready_message, decode_plan, check_stored, find_stored, validate_stored, validate_job_plan,
}
use dokploymigrator.Jobs.Workflow.{
  Setup, ApplyOptions, apply_confirmation_text, apply, apply_checked, rollback, rollback_checked,
  validated,
}

-- An event of the job that records a dry-run plan, of which the submitted plan is a part.
pub record IsRecorded (job_id : Text) (plan : MigrationPlan) (e : Event) : Type 0 where
  pub of_job : e.job_id ≡ job_id
  pub message : e.message ≡ plan_ready_message
  pub stored : MigrationPlan
  pub decoded : decode_plan e.payload ≡ some stored
  pub same_id : stored.id ≡ plan.id
  pub part : IsPart stored plan

-- One of the events does.
abbrev pub Recorded : Text → MigrationPlan → List Event → Type 0
Recorded job_id plan [] = ⊥
Recorded job_id plan (e ∷ events) = IsRecorded job_id plan e ⊎ Recorded job_id plan events

subset_of_checked :
    {E : Type 0} (job_id : Text) (plan stored : MigrationPlan)
    (rest : Result (JobsError E) (Unit {0}))
    → check_stored job_id plan (some stored) rest ≡ ok tt
    → (stored.id ≡ plan.id) × (validate_plan_subset stored plan ≡ ok tt) ⊎ (rest ≡ ok tt)
unfolding check_stored
subset_of_checked job_id plan stored rest h = ground arith

not_checked :
    {E : Type 0} (job_id : Text) (plan : MigrationPlan) (rest : Result (JobsError E) (Unit {0}))
    → check_stored job_id plan none rest ≢ ok tt
unfolding check_stored
not_checked job_id plan rest h = cc

checked_by_event :
    {E : Type 0} (job_id : Text) (plan : MigrationPlan) (e : Event)
    (rest : Result (JobsError E) (Unit {0}))
    → e.job_id ≡ job_id
    → e.message ≡ plan_ready_message
    → check_stored job_id plan (decode_plan e.payload) rest ≡ ok tt
    → IsRecorded job_id plan e ⊎ (rest ≡ ok tt)
checked_by_event job_id plan e rest j m h = elim (Option-cases (decode_plan e.payload)) [
  | inl gone ↦ absurd (not_checked job_id plan rest (rw gone at h))
  | inr (stored, d) ↦ elim (subset_of_checked job_id plan stored rest (rw d at h)) [
    | inl (same, passed) ↦ inl (record {
      of_job = j;
      message = m;
      stored = stored;
      decoded = d;
      same_id = same;
      part = validate_plan_subset-IsPart stored plan passed;
    })
    | inr k ↦ inr k
  ]
]

find_stored-Recorded :
    {E : Type 0} (job_id : Text) (plan : MigrationPlan) (events : List Event)
    → find_stored {E = E} job_id plan (filter_by (λ e. e.job_id == job_id) events) ≡ ok tt
    → Recorded job_id plan events
unfolding find_stored
find_stored-Recorded job_id plan [] h = cc
find_stored-Recorded {E} job_id plan (e ∷ events) h =
    let ours = find_stored {E = E} job_id plan (filter_by (λ f. f.job_id == job_id) events) in
    elim (text_eq.dec e.job_id job_id) [
      | yes j ↦ elim (text_eq.dec e.message plan_ready_message) [
        | yes m ↦ elim (checked_by_event job_id plan e ours j m (ground arith)) [
          | inl r ↦ inl r
          | inr k ↦ inr (find_stored-Recorded {E = E} job_id plan events k)
        ]
        | no n ↦ inr (find_stored-Recorded {E = E} job_id plan events (ground arith))
      ]
      | no n ↦ inr (find_stored-Recorded {E = E} job_id plan events (ground arith))
    ]

-- What has been checked before a plan is written.
pub record IsReviewed (job_id : Text) (plan : MigrationPlan) (s : Store) : Type 0 where
  pub job : JobRow
  pub found : find_job job_id s.jobs ≡ some job
  pub source : job.source_server_id ≡ plan.source_server_id
  pub target : job.target_server_id ≡ plan.target_server_id
  pub plan_id : trim_space plan.id ≢ []
  pub hash : trim_space plan.schema_hash ≢ []
  pub recorded : Recorded job_id plan s.events

got :
    (calendar : Calendar) (fault : Option Failure) (id : Text) (s : Store) (job : Job)
    → get_job calendar fault id s ≡ ok job
    → (row : JobRow) × (find_job id s.jobs ≡ some row) × (job ≡ scan_job calendar row)
unfolding get_job
got calendar fault id s job h = ground arith

stored_checked :
    {E : Type 0} (env : Env) (job_id : Text) (plan : MigrationPlan) (s : Store)
    → validate_stored {E = E} env job_id plan s ≡ ok tt
    → find_stored {E = E} job_id plan (filter_by (λ e. e.job_id == job_id) s.events) ≡ ok tt
unfolding validate_stored list_events
stored_checked env job_id plan s h = ground arith

-- What `validateJobPlan` lets through has been reviewed.
module _ {E : Type 0} (calendar : Calendar) (env : Env) (job_id : Text) (plan : MigrationPlan) where
  validated_parts :
      (store : Option Store)
      → validate_job_plan {E = E} calendar env job_id plan store ≡ ok tt
      → (s : Store) × (store ≡ some s)
        × (trim_space plan.id ≢ [])
        × (trim_space plan.schema_hash ≢ [])
        × (job : Job) × (get_job calendar (env.fault 0) job_id s ≡ ok job)
        × (job.source_server_id ≡ plan.source_server_id)
        × (job.target_server_id ≡ plan.target_server_id)
        × (validate_stored {E = E} env job_id plan s ≡ ok tt)
  unfolding validate_job_plan
  validated_parts store h = ground arith

  pub validate_job_plan-IsReviewed :
      (store : Option Store)
      → validate_job_plan {E = E} calendar env job_id plan store ≡ ok tt
      → (s : Store) × (store ≡ some s) × IsReviewed job_id plan s
  unfolding scan_job
  validate_job_plan-IsReviewed store h =
      let (s, is, plan_id, hash, job, g, source, target, stored) = validated_parts store h in
      let (row, found, scanned) = got calendar (env.fault 0) job_id s job g in
      (
        s,
        is,
        record {
          job = row;
          found = found;
          source = ground arith;
          target = ground arith;
          plan_id = plan_id;
          hash = hash;
          recorded =
              find_stored-Recorded {E = E} job_id plan s.events
                (stored_checked {E = E} env job_id plan s stored);
        },
      )

module _ (d : DbAdapter) (setup : Setup d.Failure) (env : Env) (job_id : Text)
    (plan : MigrationPlan) where
  -- `Apply` and `Rollback` stop before they begin, or their checks have passed.
  pub apply-cases :
      (opts : ApplyOptions) (w : World d)
      → ((apply d setup env job_id plan opts w).0 ≢ ok tt)
          × ((apply d setup env job_id plan opts w).1 ≡ w)
        ⊎ (opts.confirmation_text ≡ apply_confirmation_text)
          × (validate_job_plan {E = d.Failure} setup.calendar env job_id plan w.store ≡ ok tt)
          × (apply d setup env job_id plan opts w
              ≡ apply_checked d setup env job_id plan opts.schema_hash_approval w)
  unfolding apply validated ◌>>=◌
  apply-cases opts w = ground arith

  pub rollback-cases :
      (approval : Text) (w : World d)
      → ((rollback d setup env job_id plan approval w).0 ≢ ok tt)
          × ((rollback d setup env job_id plan approval w).1 ≡ w)
        ⊎ (validate_job_plan {E = d.Failure} setup.calendar env job_id plan w.store ≡ ok tt)
          × (rollback d setup env job_id plan approval w
              ≡ rollback_checked d setup env job_id plan approval w)
  unfolding rollback validated ◌>>=◌
  rollback-cases approval w = ground arith

  -- Whatever is written by `Apply`, in the store or in the Dokploy database, is written after the
  -- operator typed APPLY and for a plan whose job is there between the same servers, and of which an
  -- event of this job records a dry-run plan that the plan is a part of. In every other case the call
  -- fails, and both databases are as they were.
  pub apply-IsReviewed :
      (opts : ApplyOptions) (w : World d)
      → ((apply d setup env job_id plan opts w).0 ≢ ok tt)
          × ((apply d setup env job_id plan opts w).1 ≡ w)
        ⊎ (opts.confirmation_text ≡ apply_confirmation_text)
          × (s : Store) × (w.store ≡ some s)
          × IsReviewed job_id plan s
  apply-IsReviewed opts w = elim (apply-cases opts w) [
    | inl stopped ↦ inl stopped
    | inr (typed, valid, _) ↦
        let (s, is, reviewed) =
          validate_job_plan-IsReviewed {E = d.Failure} setup.calendar env job_id plan w.store
            valid in
        inr (typed, s, is, reviewed)
  ]

  -- Whatever is written by `Rollback`, in the store or in the Dokploy database, is written for a
  -- plan whose job is there between the same servers, and of which an event of this job records a
  -- dry-run plan that the plan is a part of. In every other case the call fails, and both databases
  -- are as they were.
  pub rollback-IsReviewed :
      (approval : Text) (w : World d)
      → ((rollback d setup env job_id plan approval w).0 ≢ ok tt)
          × ((rollback d setup env job_id plan approval w).1 ≡ w)
        ⊎ (s : Store) × (w.store ≡ some s) × IsReviewed job_id plan s
  rollback-IsReviewed approval w = elim (rollback-cases approval w) [
    | inl stopped ↦ inl stopped
    | inr (valid, _) ↦
        inr (
          validate_job_plan-IsReviewed {E = d.Failure} setup.calendar env job_id plan w.store valid)
  ]
