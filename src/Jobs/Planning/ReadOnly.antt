-- ===== src/Jobs/Planning/ReadOnly.antt =====
-- `Plan` of internal/jobs/jobs.go only reads the Dokploy database.
use dokploymigrator.Base.{Text, Option, none, some, Result, ok, err, ◌≡◌, refl}
use dokploymigrator.Model.{MigrationPlan}
use dokploymigrator.State.Tables.{Payload}
use dokploymigrator.State.Audit.{append_event}
use dokploymigrator.State.Jobs.{Job, Op}
use dokploymigrator.Jobs.Adapter.{DbAdapter}
use dokploymigrator.Jobs.ApiClient.{ApiClient, ApiError}
use dokploymigrator.Jobs.Manager.{Env, World, raise, on_store}
use dokploymigrator.Jobs.Manager.Keeps.{Keeps, keeps_rules, Keeps-on_store}
use dokploymigrator.Jobs.Workflow.{Setup, update, append}
use dokploymigrator.Jobs.Planning.{
  check_health, mark_unplanned, mark_planned, finish_plan, create_and_plan, plan, log_health,
  record_plan, plan_in_mode,
}

module _ (d : DbAdapter) (setup : Setup d.Failure) (env : Env) (db : Option d.State) where
  abbrev Unread : World d → Type 0
  Unread w = w.db ≡ db

  store_call : (op : Op (Unit {0})) → Keeps Unread (on_store op)
  store_call op = Keeps-on_store op (λ s x h. h)

  logging :
      (job_id : Text) (r : Result ApiError (Unit {0}))
      → Keeps Unread (log_health d setup env job_id r)
  unfolding log_health append
  logging job_id (err e) = search (keeps_rules, store_call)
  logging job_id (ok u) = search (keeps_rules, store_call)

  checking :
      (job_id : Text) (api : Option ApiClient) → Keeps Unread (check_health d setup env job_id api)
  unfolding check_health
  checking job_id none = search keeps_rules
  checking job_id (some api) = search (keeps_rules, logging)

  recording :
      (job : Job) (r : Result d.Failure MigrationPlan)
      → Keeps Unread (record_plan d setup env job r)
  unfolding record_plan mark_planned mark_unplanned update append
  recording job (err e) = search (keeps_rules, store_call)
  recording job (ok p) = search (keeps_rules, store_call)

  finishing : (job : Job) → Keeps Unread (λ w. finish_plan d setup env job w.db w)
  unfolding finish_plan raise
  finishing job = record { at = λ w h. go w.db w h }
    where
      go :
          (x : Option d.State) (w : World d) → Unread w → Unread (finish_plan d setup env job x w).1
      go none w h = h
      go (some s) w h =
          (recording job (d.build_retarget_plan job.source_server_id job.target_server_id s)).at w h

  creating : (mode : Text) (job : Job) → Keeps Unread (create_and_plan d setup env mode job)
  unfolding create_and_plan append
  creating mode job = search (keeps_rules, store_call, checking, finishing)

  in_mode :
      (source target mode : Text) (normalized : Option Text)
      → Keeps Unread (plan_in_mode d setup env source target mode normalized)
  unfolding plan_in_mode
  in_mode source target mode none = search keeps_rules
  in_mode source target mode (some m) = creating m _

  planning : (source target mode : Text) → Keeps Unread (plan d setup env source target mode)
  unfolding plan
  planning source target mode = search (keeps_rules, in_mode)

-- `Plan` leaves the Dokploy database as it is, however it ends.
pub plan-db :
    (d : DbAdapter) (setup : Setup d.Failure) (env : Env) (source target mode : Text) (w : World d)
    → (plan d setup env source target mode w).1.db ≡ w.db
plan-db d setup env source target mode w = (planning d setup env w.db source target mode).at w refl

-- The calls before a plan is built.
pub health-db :
    (d : DbAdapter) (setup : Setup d.Failure) (env : Env) (op : Op (Unit {0}))
    (id level message : Text) (payload : Payload) (w : World d)
    → (check_health d setup env id setup.api
        (append d setup env 1 id level message payload (on_store op w).1).1).1.db
      ≡ w.db
unfolding append
health-db d setup env op id level message payload w =
    let first = (store_call d setup env w.db op).at w refl in
    let event = append_event setup.calendar (env.fault 1) (env.now 1) id level message payload in
    let second = (store_call d setup env w.db event).at (on_store op w).1 first in
    (checking d setup env w.db id setup.api).at (on_store event (on_store op w).1).1 second
