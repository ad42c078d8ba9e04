-- ===== src/Jobs/Manager.antt =====
-- The manager of internal/jobs/jobs.go: what it works on, its errors, and its monad.
pub mod Keeps
use dokploymigrator.Base.{ℕ, Text, Option, none, some, Bool, true, false, Result, ok, err, wrap}
use dokploymigrator.State.Tables.{Store, Failure, StoreError}
use dokploymigrator.State.Time.{Time}
use dokploymigrator.State.Jobs.{Op}
use dokploymigrator.Jobs.Adapter.{DbAdapter}
use dokploymigrator.Jobs.Subset.{SubsetError}

-- `E` is the error of the database adapter.
pub data JobsError (E : Type 0) : Type 0 where
  dokploy_db_missing state_store_missing apply_confirmation_missing : JobsError E
  unsupported_mode : Text → JobsError E
  store_error : StoreError → JobsError E
  adapter_error : E → JobsError E
  job_id_required plan_id_required schema_hash_required : JobsError E
  servers_differ : Text → JobsError E
  plan_not_decoded : Text → JobsError E
  plan_not_subset : SubsetError → JobsError E
  plan_not_stored : Text → JobsError E

-- What happens around one call of the manager: the time and the fault at each of its calls of the
-- store, which are numbered, and the time from which a new job takes its ID.
pub record Env : Type 0 where
  pub started : Time
  pub now : ℕ → Time
  pub fault : ℕ → Option Failure

-- The store and the Dokploy database; `none` is a nil pointer.
pub record World (d : DbAdapter) : Type 0 where
  pub store : Option Store
  pub db : Option d.State

module _ (d : DbAdapter) where
  -- What was written before an error stays written.
  abbrev pub M : Type 0 → Type 0
  M A = World d → Result (JobsError d.Failure) A × World d

module _ {d : DbAdapter} {A : Type 0} where
  unfoldable pub pure : A → M d A
  pure a w = (ok a, w)

  unfoldable pub raise : JobsError d.Failure → M d A
  raise e w = (err e, w)

  unfoldable pub lift : Result (JobsError d.Failure) A → M d A
  lift r w = (r, w)

  -- `_ = …`: the error is dropped, and what was written stays.
  unfoldable pub attempt : M d A → M d (Unit {0})
  attempt m w = (ok tt, (m w).1)

  -- A call of the store. That it is there has been checked before each such call.
  unfoldable pub on_store : Op A → M d A
  on_store op w = elim w.store [
    | none ↦ (err state_store_missing, w)
    | some s ↦ let (r, s') = op s in (wrap store_error r, record w { store = some s' })
  ]

  abbrev pub handle : (JobsError d.Failure → M d A) → Result (JobsError d.Failure) A → M d A
  handle handler (ok a) w = (ok a, w)
  handle handler (err e) w = handler e w

  -- `if err := …; err != nil { … }`
  unfoldable pub or_else : M d A → (JobsError d.Failure → M d A) → M d A
  or_else m handler w = let (r, w') = m w in handle handler r w'

module _ {d : DbAdapter} where
  unfoldable pub require_db : M d (Unit {0})
  require_db w = elim w.db [ none ↦ (err dokploy_db_missing, w) | some s ↦ (ok tt, w) ]

  unfoldable pub require_store : M d (Unit {0})
  require_store w = elim w.store [ none ↦ (err state_store_missing, w) | some s ↦ (ok tt, w) ]

  -- A write of the adapter.
  unfoldable pub on_db : (d.State → Result d.Failure (Unit {0}) × d.State) → M d (Unit {0})
  on_db op w = elim w.db [
    | none ↦ (err dokploy_db_missing, w)
    | some s ↦ let (r, s') = op s in (wrap adapter_error r, record w { db = some s' })
  ]

module _ {d : DbAdapter} {A B : Type 0} where
  abbrev pub continue : Result (JobsError d.Failure) A → (A → M d B) → M d B
  continue (ok a) f w = f a w
  continue (err e) f w = (err e, w)

  infixl 5 ◌>>=◌ ◌>>◌
  -- To open this opens the actions above.
  unfoldable pub ◌>>=◌ : M d A → (A → M d B) → M d B
  unfolding pure raise lift attempt on_store or_else require_db require_store on_db
  ◌>>=◌ m f w = let (r, w') = m w in continue r f w'

  abbrev pub ◌>>◌ : M d A → M d B → M d B
  m >> k = m >>= λ _. k
