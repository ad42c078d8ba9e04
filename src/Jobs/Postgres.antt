-- ===== src/Jobs/Postgres.antt =====
-- The adapter of internal/dokploydb/postgres.go as the `DBAdapter` of internal/jobs/jobs.go.
use dokploymigrator.Base.{
  ℕ, Text, List, [], ◌∷◌, ◌++◌, map, Bool, ◌||◌, any, some, text_eq, option_eq, ◌≡◌, refl, ◌∙◌,
  arith, ◌⊎◌, inl, inr, map_pointwise,
}
use dokploymigrator.Model.{PlanRow, MigrationPlan}
use dokploymigrator.Dokploydb.Postgres.{Database, Row, Faults}
use dokploymigrator.Dokploydb.Adapter.{Adapter, AdapterError}
use dokploymigrator.Dokploydb.Plan.{build_retarget_plan}
use dokploymigrator.Dokploydb.Servers.{list_servers}
use dokploymigrator.Dokploydb.Retarget.{
  apply_retarget_plan, rollback_retarget_plan, reverse_row, reverse_rows, reversed,
}
use dokploymigrator.Dokploydb.Retarget.Atomic.{
  apply_retarget_plan-atomic, rollback_retarget_plan-atomic,
}
use dokploymigrator.Dokploydb.Retarget.Effect.{moved, targets, apply_retarget_plan-effect}
use dokploymigrator.Jobs.Adapter.{DbAdapter, IsAtomic}
use dokploymigrator.Jobs.Manager.{Env, World}
use dokploymigrator.Jobs.Workflow.{Setup, ApplyOptions, apply, rollback}
use dokploymigrator.Jobs.Workflow.Outcome.{apply-all_or_nothing, rollback-all_or_nothing}

-- What the adapter works with: the hash, the collation of the server, Go's table of lower case, the
-- faults of the server during a call, the allowlist, and the time of a call.
pub record Connection : Type 0 where
  pub sha256 : Text → List ℕ
  pub collate : Text → Text → Bool
  pub lower_rune : ℕ → ℕ
  pub faults : Faults
  pub adapter : Adapter
  pub now : ℕ
  pub plan_now : ℕ × ℕ

abbrev pub postgres : Connection → DbAdapter
postgres c = record {
  State = Database;
  Failure = AdapterError;
  list_servers = λ dead_after db. list_servers c.lower_rune c.collate c.faults dead_after c.now db;
  build_retarget_plan = λ source target db.
      build_retarget_plan c.sha256 c.collate c.faults c.adapter c.plan_now source target db;
  apply_retarget_plan =
      λ plan approval db. apply_retarget_plan c.sha256 c.faults c.adapter plan approval db;
  rollback_retarget_plan =
      λ plan approval db. rollback_retarget_plan c.sha256 c.faults c.adapter plan approval db;
}

pub postgres-IsAtomic : (c : Connection) → IsAtomic (postgres c)
postgres-IsAtomic c = record {
  apply_atomic = λ plan approval s e h.
      apply_retarget_plan-atomic c.sha256 c.faults c.adapter plan approval s h;
  rollback_atomic = λ plan approval s e h.
      rollback_retarget_plan-atomic c.sha256 c.faults c.adapter plan approval s h;
}

-- However `Apply` ends on PostgreSQL, with any fault of the store or of the server, the Dokploy
-- database is the one from before, or the one in which exactly the resources that the plan names
-- and that were on the source server have moved to the target server.
pub apply-moves :
    (c : Connection) (setup : Setup AdapterError) (env : Env) (job_id : Text) (plan : MigrationPlan)
    (opts : ApplyOptions) (w : World (postgres c))
    → ((apply (postgres c) setup env job_id plan opts w).1.db ≡ w.db)
      ⊎ ((db db' : Database) × (w.db ≡ some db)
          × ((apply (postgres c) setup env job_id plan opts w).1.db ≡ some db')
          × ((t : Text)
              → db'.rows t
                ≡ map (moved plan.source_server_id plan.target_server_id plan.rows t) (db.rows t)))
apply-moves c setup env job_id plan opts w =
    elim (apply-all_or_nothing (postgres c) setup env job_id plan (postgres-IsAtomic c) opts w) [
      | inl same ↦ inl same
      | inr (db, there, fine, left) ↦ inr (
        db,
        (apply_retarget_plan c.sha256 c.faults c.adapter plan opts.schema_hash_approval db).1,
        there,
        left,
        apply_retarget_plan-effect c.sha256 c.faults c.adapter plan opts.schema_hash_approval db
            fine,
      )
    ]

any-append : (p : PlanRow → Bool) (xs ys : List PlanRow) → any p (xs ++ ys) ≡ (any p xs || any p ys)
any-append p [] ys = refl
any-append p (x ∷ xs) ys = ground (arith, any-append p xs ys)

-- A plan and its reverse name the same rows.
any-reverse_rows :
    (t : Text) (r : Row) (rows : List PlanRow)
    → any (targets t r) (reverse_rows rows) ≡ any (targets t r) rows
unfolding reverse_rows
any-reverse_rows t r [] = refl
any-reverse_rows t r (p ∷ rows) = ground (
  arith,
  any-append (targets t r) (reverse_rows rows) (reverse_row p ∷ []),
  any-reverse_rows t r rows,
)

moved-reverse_rows :
    (source target t : Text) (rows : List PlanRow) (r : Row)
    → moved target source (reverse_rows rows) t r ≡ moved target source rows t r
moved-reverse_rows source target t rows r = rw (any-reverse_rows t r rows) refl

-- However `Rollback` ends on PostgreSQL, with any fault of the store or of the server, the Dokploy
-- database is the one from before, or the one in which exactly the resources that the plan names
-- and that were on the target server have moved back to the source server.
pub rollback-moves :
    (c : Connection) (setup : Setup AdapterError) (env : Env) (job_id : Text) (plan : MigrationPlan)
    (approval : Text) (w : World (postgres c))
    → ((rollback (postgres c) setup env job_id plan approval w).1.db ≡ w.db)
      ⊎ ((db db' : Database) × (w.db ≡ some db)
          × ((rollback (postgres c) setup env job_id plan approval w).1.db ≡ some db')
          × ((t : Text)
              → db'.rows t
                ≡ map (moved plan.target_server_id plan.source_server_id plan.rows t) (db.rows t)))
unfolding rollback_retarget_plan reversed
rollback-moves c setup env job_id plan approval w =
    elim (rollback-all_or_nothing (postgres c) setup env job_id plan (postgres-IsAtomic c) approval
      w) [
        | inl same ↦ inl same
        | inr (db, there, fine, left) ↦ inr (
          db,
          (rollback_retarget_plan c.sha256 c.faults c.adapter plan approval db).1,
          there,
          left,
          λ t.
              apply_retarget_plan-effect c.sha256 c.faults c.adapter (reversed plan) approval db
                fine t
              ∙ map_pointwise _ _ (db.rows t)
                  (moved-reverse_rows plan.source_server_id plan.target_server_id t plan.rows),
        )
      ]
