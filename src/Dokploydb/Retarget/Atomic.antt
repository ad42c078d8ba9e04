-- ===== src/Dokploydb/Retarget/Atomic.antt =====
-- A write of the adapter happens as a whole or not at all.
use dokploymigrator.Base.{ℕ, Text, List, err, ◌≡◌, arith}
use dokploymigrator.Model.{PlanRow, MigrationPlan}
use dokploymigrator.Dokploydb.Postgres.{Database, Faults}
use dokploymigrator.Dokploydb.Adapter.{Adapter, AdapterError}
use dokploymigrator.Dokploydb.Retarget.{transact, apply_retarget_plan, rollback_retarget_plan}

transact-atomic :
    (faults : Faults) (rows : List PlanRow) (db : Database) {e : AdapterError}
    → (transact faults rows db).0 ≡ err e
    → (transact faults rows db).1 ≡ db
unfolding transact
transact-atomic faults rows db h = ground arith

module _ (sha256 : Text → List ℕ) where
  -- A retarget that returns an error leaves the database as it was, whatever the row at which it
  -- failed and also where a statement, the begin or the commit is refused.
  pub apply_retarget_plan-atomic :
      (faults : Faults) (a : Adapter) (plan : MigrationPlan) (approval : Text) (db : Database)
      {e : AdapterError}
      → (apply_retarget_plan sha256 faults a plan approval db).0 ≡ err e
      → (apply_retarget_plan sha256 faults a plan approval db).1 ≡ db
  unfolding apply_retarget_plan
  apply_retarget_plan-atomic faults a plan approval db h =
      ground (arith, transact-atomic faults plan.rows db)

  pub rollback_retarget_plan-atomic :
      (faults : Faults) (a : Adapter) (plan : MigrationPlan) (approval : Text) (db : Database)
      {e : AdapterError}
      → (rollback_retarget_plan sha256 faults a plan approval db).0 ≡ err e
      → (rollback_retarget_plan sha256 faults a plan approval db).1 ≡ db
  unfolding rollback_retarget_plan
  rollback_retarget_plan-atomic faults a plan approval db h =
      apply_retarget_plan-atomic faults a _ approval db h
