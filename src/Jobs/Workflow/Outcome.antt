-- ===== src/Jobs/Workflow/Outcome.antt =====
-- What has happened to the databases when `Apply` or `Rollback` of internal/jobs/jobs.go returns.
use dokploymigrator.Base.{Text, codes, Result, ok, ◌≡◌, refl, ap, ◌∙◌, ◌⊎◌, inl, inr}
use dokploymigrator.Model.{MigrationPlan}
use dokploymigrator.State.Tables.{job_succeeded, job_rolled_back}
use dokploymigrator.Jobs.Adapter.{DbAdapter, IsAtomic}
use dokploymigrator.Jobs.Manager.{Env, World}
use dokploymigrator.Jobs.Workflow.{
  Setup, ApplyOptions, apply, apply_checked, rollback, finish_apply, finish_rollback,
  rollback_checked,
}
use dokploymigrator.Jobs.Workflow.Steps.{Ended, then-ok, update-ok}
use dokploymigrator.Jobs.Workflow.Review.{apply-cases, rollback-cases}
use dokploymigrator.Jobs.Workflow.Write.{
  Written, Same-finish_apply, Same-finish_rollback, checked-ok, checked-Changed,
}

module _ (d : DbAdapter) (setup : Setup d.Failure) (env : Env) (job_id : Text)
    (plan : MigrationPlan) where
  finish_apply-ok :
      (w : World d)
      → (finish_apply d setup env job_id plan w).0 ≡ ok tt
      → Ended d setup env job_id job_succeeded
          (codes "metadata-retarget-complete")
          (finish_apply d setup env job_id plan w).1
  unfolding finish_apply
  finish_apply-ok w h =
      let (_, e) = then-ok _ _ w h in
      let (_, e') = then-ok _ _ _ (rw e at h) in
      let ended = update-ok d setup env 8 job_id _ _ _ (rw (e, e') at h) in rw (e, e') ended

  finish_rollback-ok :
      (w : World d)
      → (finish_rollback d setup env job_id plan w).0 ≡ ok tt
      → Ended d setup env job_id job_rolled_back
          (codes "metadata-rollback-complete")
          (finish_rollback d setup env job_id plan w).1
  unfolding finish_rollback
  finish_rollback-ok w h =
      let (_, e) = then-ok _ _ w h in
      let ended = update-ok d setup env 7 job_id _ _ _ (rw e at h) in rw e ended

  abbrev applied : Text → d.State → Result d.Failure (Unit {0}) × d.State
  applied approval = d.apply_retarget_plan plan approval

  abbrev rolled_back : Text → d.State → Result d.Failure (Unit {0}) × d.State
  rolled_back approval = d.rollback_retarget_plan plan approval

  -- When `Apply` reports success, the adapter has applied the plan to the Dokploy database with the
  -- approval that was given and without an error, nothing else has changed that database, and the
  -- stored job is marked as succeeded at its last checkpoint.
  pub apply-succeeded :
      (opts : ApplyOptions) (w : World d)
      → (apply d setup env job_id plan opts w).0 ≡ ok tt
      → Written d
          (d.apply_retarget_plan plan opts.schema_hash_approval)
          w
          (apply d setup env job_id plan opts w).1
        × Ended d setup env job_id job_succeeded
            (codes "metadata-retarget-complete")
            (apply d setup env job_id plan opts w).1
  unfolding apply_checked
  apply-succeeded opts w h = elim (apply-cases d setup env job_id plan opts w) [
    | inl (failed, _) ↦ absurd (failed h)
    | inr (_, _, run) ↦
        let (v, (x, there, fine, db), done, e) =
          checked-ok d setup env job_id plan _ _ _ (applied opts.schema_hash_approval) _ w
            (rw run at h) in
        let same = (Same-finish_apply d setup env v.db job_id plan).at v refl in
        rw (run, e) ((x, there, fine, same ∙ db), finish_apply-ok v done)
  ]

  -- When `Rollback` reports success, the adapter has rolled the plan back without an error, nothing
  -- else has changed the Dokploy database, and the stored job is marked as rolled back.
  pub rollback-succeeded :
      (approval : Text) (w : World d)
      → (rollback d setup env job_id plan approval w).0 ≡ ok tt
      → Written d
          (d.rollback_retarget_plan plan approval)
          w
          (rollback d setup env job_id plan approval w).1
        × Ended d setup env job_id job_rolled_back
            (codes "metadata-rollback-complete")
            (rollback d setup env job_id plan approval w).1
  unfolding rollback_checked
  rollback-succeeded approval w h = elim (rollback-cases d setup env job_id plan approval w) [
    | inl (failed, _) ↦ absurd (failed h)
    | inr (_, run) ↦
        let (v, (x, there, fine, db), done, e) =
          checked-ok d setup env job_id plan _ _ _ (rolled_back approval) _ w (rw run at h) in
        let same = (Same-finish_rollback d setup env v.db job_id plan).at v refl in
        rw (run, e) ((x, there, fine, same ∙ db), finish_rollback-ok v done)
  ]

  -- However `Apply` ends, with any fault of the store or of the Dokploy database, the Dokploy
  -- database is as it was or exactly as a write of the plan without an error left it, for an adapter
  -- whose failed writes change nothing.
  pub apply-all_or_nothing :
      IsAtomic d
      → (opts : ApplyOptions) (w : World d)
      → ((apply d setup env job_id plan opts w).1.db ≡ w.db)
        ⊎ Written d
            (d.apply_retarget_plan plan opts.schema_hash_approval)
            w
            (apply d setup env job_id plan opts w).1
  unfolding apply_checked
  apply-all_or_nothing atomic opts w = elim (apply-cases d setup env job_id plan opts w) [
    | inl (_, same) ↦ inl (ap (λ v. v.db) same)
    | inr (_, _, run) ↦ rw run (
        checked-Changed d setup env job_id plan _ _ _ (applied opts.schema_hash_approval) _
          (λ x e failed. atomic.apply_atomic plan opts.schema_hash_approval x e failed)
          (λ db. Same-finish_apply d setup env db job_id plan) w)
  ]

  -- However `Rollback` ends, with any fault of the store or of the Dokploy database, the Dokploy
  -- database is as it was or exactly as a rollback of the plan without an error left it, for an
  -- adapter whose failed writes change nothing.
  pub rollback-all_or_nothing :
      IsAtomic d
      → (approval : Text) (w : World d)
      → ((rollback d setup env job_id plan approval w).1.db ≡ w.db)
        ⊎ Written d
            (d.rollback_retarget_plan plan approval)
            w
            (rollback d setup env job_id plan approval w).1
  unfolding rollback_checked
  rollback-all_or_nothing atomic approval w =
      elim (rollback-cases d setup env job_id plan approval w) [
        | inl (_, same) ↦ inl (ap (λ v. v.db) same)
        | inr (_, run) ↦ rw run (
            checked-Changed d setup env job_id plan _ _ _ (rolled_back approval) _
              (λ x e failed. atomic.rollback_atomic plan approval x e failed)
              (λ db. Same-finish_rollback d setup env db job_id plan) w)
      ]
