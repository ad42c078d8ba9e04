-- ===== src/Jobs/Adapter.antt =====
-- The interface `DBAdapter` of internal/jobs/jobs.go.
use dokploymigrator.Base.{Text, List, Result, err, ◌≡◌, ℤ}
use dokploymigrator.Model.{Server, MigrationPlan}

-- `State` is the Dokploy database as the adapter sees it. Reading leaves it alone.
pub record DbAdapter : Type 1 where
  pub State : Type 0
  pub Failure : Type 0
  pub list_servers : ℤ → State → Result Failure (List Server)
  pub build_retarget_plan : Text → Text → State → Result Failure MigrationPlan
  pub apply_retarget_plan : MigrationPlan → Text → State → Result Failure (Unit {0}) × State
  pub rollback_retarget_plan : MigrationPlan → Text → State → Result Failure (Unit {0}) × State

-- What the manager may count on: a write that fails has changed nothing.
pub record IsAtomic (d : DbAdapter) : Type 0 where
  pub apply_atomic :
      (plan : MigrationPlan) (approval : Text) (s : d.State) (e : d.Failure)
      → (d.apply_retarget_plan plan approval s).0 ≡ err e
      → (d.apply_retarget_plan plan approval s).1 ≡ s
  pub rollback_atomic :
      (plan : MigrationPlan) (approval : Text) (s : d.State) (e : d.Failure)
      → (d.rollback_retarget_plan plan approval s).0 ≡ err e
      → (d.rollback_retarget_plan plan approval s).1 ≡ s
