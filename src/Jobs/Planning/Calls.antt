-- ===== src/Jobs/Planning/Calls.antt =====
-- The calls of `Plan` of internal/jobs/jobs.go, one by one: what each keeps or adds in the state
-- database.
use dokploymigrator.Base.{
  ℕ, Text, codes, Option, none, some, text_eq, Result, ok, err, wrap, ◌≡◌, ◌≢◌, refl, arith, sym,
  subst,
}
use mathlib.Core.Option.{some-injective}
use dokploymigrator.Model.{MigrationPlan}
use dokploymigrator.State.Tables.{JobStatus, Payload, Store, plan_payload, job_paused}
use dokploymigrator.State.Jobs.{Op}
use dokploymigrator.Jobs.Adapter.{DbAdapter}
use dokploymigrator.Jobs.ApiClient.{ApiClient, ApiError}
use dokploymigrator.Jobs.Manager.{JobsError, Env, World, M, ◌>>=◌, ◌>>◌, continue, on_store}
use dokploymigrator.Jobs.Manager.Keeps.{Keeps, keeps_rules, Keeps-on_store, Keeps-attempt}
use dokploymigrator.Jobs.Validation.{plan_ready_message}
use dokploymigrator.Jobs.Workflow.{Setup, update, append}
use dokploymigrator.Jobs.Workflow.Steps.{HasStatus, Ended}
use dokploymigrator.Jobs.Planning.{check_health, log_health}
use dokploymigrator.Jobs.Planning.Stored.{
  IsUnplanned, IsPlanned, append_event-IsUnplanned, update_job-IsUnplanned, append_event-IsPlanned,
}

pub wrap-ok : {E F : Type 0} (f : E → F) (r : Result E (Unit {0})) → wrap f r ≡ ok tt → r ≡ ok tt
wrap-ok f (ok _) h = refl
wrap-ok f (err e) h = cc

module _ {d : DbAdapter} {A : Type 0} where
  -- An action that succeeds behind another.
  pub bind-ok :
      (m : M d (Unit {0})) (k : M d A) (w : World d) (a : A)
      → ((m >> k) w).0 ≡ ok a
      → ((m w).0 ≡ ok tt) × ((m >> k) w ≡ k (m w).1)
  unfolding ◌>>=◌
  bind-ok m k w a h = go (m w) h
    where
      go :
          (r : Result (JobsError d.Failure) (Unit {0}) × World d)
          → (continue r.0 (λ _. k) r.1).0 ≡ ok a
          → (r.0 ≡ ok tt) × (continue r.0 (λ _. k) r.1 ≡ k r.1)
      go (ok tt, w') e = (refl, refl)
      go (err x, w') e = cc

module _ (d : DbAdapter) (setup : Setup d.Failure) (env : Env) (id source target : Text) where
  unfoldable pub Unplanned : Option Store → Type 0
  Unplanned none = ⊥
  Unplanned (some s) = IsUnplanned id source target s

  unfoldable pub Planned : MigrationPlan → Option Store → Type 0
  Planned p none = ⊥
  Planned p (some s) = IsPlanned id source target p s

  abbrev pub Before : World d → Type 0
  Before w = Unplanned w.store

  store_call :
      (op : Op (Unit {0}))
      → ((s : Store) → IsUnplanned id source target s → IsUnplanned id source target (op s).1)
      → Keeps Before (on_store op)
  unfolding Unplanned
  store_call op k = Keeps-on_store op (λ s x h. k s h)

  pub appending :
      (n : ℕ) (level message : Text) (payload : Payload)
      → message ≢ plan_ready_message
      → Keeps Before (append d setup env n id level message payload)
  unfolding append
  appending n level message payload other = store_call _ (λ s h.
      append_event-IsUnplanned setup.calendar (env.fault n) (env.now n) id source target level
        message payload s other h)

  pub updating :
      (n : ℕ) (status : JobStatus) (checkpoint : Text)
      → Keeps Before (update d setup env n id status checkpoint)
  unfolding update
  updating n status checkpoint = store_call _ (λ s h.
      update_job-IsUnplanned setup.calendar (env.fault n) (env.now n) id source target status
        checkpoint s h)

  logging : (r : Result ApiError (Unit {0})) → Keeps Before (log_health d setup env id r)
  unfolding log_health
  logging (err e) = Keeps-attempt _ (appending 2 _ _ _ (λ e. ground arith))
  logging (ok u) = Keeps-attempt _ (appending 2 _ _ _ (λ e. ground arith))

  pub checking : (api : Option ApiClient) → Keeps Before (check_health d setup env id api)
  unfolding check_health
  checking none = search keeps_rules
  checking (some api) = search (keeps_rules, logging)

  -- The last call, on a store that is there.
  pub appended :
      (p : MigrationPlan) (w : World d)
      → Before w
      → Ended d setup env id job_paused (codes "dry-run-ready") w
      → (append d setup env 4 id (codes "info") plan_ready_message (plan_payload p) w).0 ≡ ok tt
      → Planned p
          (append d setup env 4 id (codes "info") plan_ready_message (plan_payload p) w).1.store
  unfolding Unplanned Planned append on_store
  appended p w u (s0, store, paused) h = go w.store w.db u store h
    where
      go :
          (store : Option Store) (db : Option d.State)
          → Unplanned store
          → store ≡ some s0
          → (append d setup env 4 id
              (codes "info")
              plan_ready_message
              (plan_payload p)
              (record { store = store; db = db })).0
            ≡ ok tt
          → Planned p
              (append d setup env 4 id
                (codes "info")
                plan_ready_message
                (plan_payload p)
                (record { store = store; db = db })).1.store
      go none db u e h = absurd u
      go (some s) db u e h =
          append_event-IsPlanned setup.calendar (env.fault 4) (env.now 4) id source target
            (codes "info") p s u
            (subst (HasStatus id job_paused (codes "dry-run-ready")) (sym (some-injective s s0 e))
              paused)
            (wrap-ok _ _ h)
