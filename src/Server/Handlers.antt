-- ===== src/Server/Handlers.antt =====
-- The handlers of internal/server/server.go and its routes.
use dokploymigrator.Base.{
  ℕ, suc, Text, codes, List, [], ◌∷◌, Option, none, some, Bool, false, ◌||◌, not, ◌==◌, ◌!=◌,
  text_eq, contains, trim_space, if◌then◌else◌, Result, ok, err, ℤ, pos,
}
use dokploymigrator.Model.{MigrationPlan, mode_dead_recovery}
use dokploymigrator.State.Tables.{Store, StoreError, job_not_found}
use dokploymigrator.State.Jobs.{Job, list_jobs_page, count_jobs, protected_job_ids, delete_job}
use dokploymigrator.Jobs.Adapter.{DbAdapter}
use dokploymigrator.Jobs.Manager.{JobsError, Env, World, store_error, state_store_missing, on_store}
use dokploymigrator.Jobs.Workflow.{Setup, ApplyOptions, apply, rollback}
use dokploymigrator.Jobs.Planning.{plan, list_servers}
use dokploymigrator.Server.Request.{
  Config, Request, PlanRequest, PlanActionRequest, Body, Answer, status_text, server_list,
  jobs_page, planned, failed, message, static_file, job_history_page_size, protected_job_count,
  max_job_history_page_size, basic_auth, check_admin_token, non_negative_query_int,
  bounded_query_int,
}

pub data Route : Type 0 where
  get_health get_servers get_jobs post_plan post_apply post_rollback static_files : Route
  delete_at : Text → Route

is_get : Text → Bool
is_get method = method == codes "GET" || method == codes "HEAD"

-- The wildcard `{id}` is one segment that is not empty.
job_path : List Text → Option Text
job_path [] = none
job_path (a ∷ []) = none
job_path (a ∷ b ∷ []) = none
job_path (a ∷ b ∷ id ∷ []) =
    if a != codes "api" || b != codes "jobs" || id == [] then none else some id
job_path (a ∷ b ∷ c ∷ d ∷ path) = none

delete_or_static : Text → Option Text → Route
delete_or_static method none = static_files
delete_or_static method (some id) = if method == codes "DELETE" then delete_at id else static_files

at_path : List Text → Text → Bool
at_path [] name = false
at_path (a ∷ []) name = false
at_path (a ∷ b ∷ []) name = not (a != codes "api" || b != name)
at_path (a ∷ b ∷ c ∷ path) name = false

-- The patterns of `Handler`. Whatever fits none of them goes to the file server, which `/` names.
unfoldable pub route : Text → List Text → Route
unfolding is_get at_path job_path delete_or_static
route method path =
    if is_get method
    then if at_path path (codes "health")
      then get_health
      else if at_path path (codes "servers")
      then get_servers
      else if at_path path (codes "jobs")
      then get_jobs
      else static_files
    else if method == codes "POST"
    then if at_path path (codes "plan")
      then post_plan
      else if at_path path (codes "apply")
      then post_apply
      else if at_path path (codes "rollback")
      then post_rollback
      else static_files
    else delete_or_static method (job_path path)

module _ (d : DbAdapter) (setup : Setup d.Failure) (cfg : Config) (env : Env) where
  abbrev pub E : Type 0
  E = JobsError d.Failure

  abbrev pub Handler : Type 0
  Handler = World d → Answer E × World d

  abbrev pub answer : ℕ → Body E → Answer E
  answer status body = record { status = status; body = body }

  abbrev refuse : ℕ → E → Answer E
  refuse status e = answer status (failed e)

  abbrev pub forbidden : Answer E
  forbidden = answer 403 (message (codes "invalid admin token"))

  -- `writeError` in front of the result, where there is an error.
  abbrev or_refuse : {A : Type 0} → ℕ → (A → Answer E) → Result E A → Answer E
  or_refuse status f (ok a) = f a
  or_refuse status f (err e) = refuse status e

  unfoldable pub handle_servers : Handler
  handle_servers w = (
    or_refuse 503 (λ servers. answer 200 (server_list servers))
        (list_servers d setup env cfg.dead_after w),
    w,
  )

  jobs_answer : ℤ → ℤ → Result StoreError (List Job) → Result StoreError ℕ → Answer E
  jobs_answer limit offset (err e) total = refuse 500 (store_error e)
  jobs_answer limit offset (ok jobs) (err e) = refuse 500 (store_error e)
  jobs_answer limit offset (ok jobs) (ok total) = answer 200 (
      jobs_page (record {
        jobs = jobs;
        total = total;
        limit = limit;
        offset = offset;
        protected_count = protected_job_count;
      }))

  -- The server is always built with a store, so that the case without one is not met.
  list_answer : ℤ → ℤ → Option Store → Answer E
  unfolding jobs_answer
  list_answer limit offset none = refuse 500 state_store_missing
  list_answer limit offset (some s) =
      jobs_answer limit offset (list_jobs_page setup.calendar (env.fault 0) limit offset s)
        (count_jobs (env.fault 1) s)

  unfoldable pub handle_jobs : (Text → Text) → Handler
  unfolding list_answer
  handle_jobs query w =
      let limit =
        bounded_query_int (query (codes "limit")) (pos job_history_page_size)
          (pos max_job_history_page_size) in
      let offset = non_negative_query_int (query (codes "offset")) (pos 0) in
      (list_answer limit offset w.store, w)

  unfoldable pub delete_answer : Result E (Unit {0}) → Answer E
  delete_answer (ok u) = answer 200 (status_text (codes "deleted"))
  delete_answer (err (store_error (job_not_found id))) = refuse 404 (store_error (job_not_found id))
  delete_answer (err e) = refuse 500 e

  abbrev delete_now : Text → Handler
  delete_now id w =
      let (r, w') = on_store (delete_job (λ n. env.fault (suc n)) id) w in (delete_answer r, w')

  unfoldable pub delete_unprotected : Text → Result StoreError (List Text) → Handler
  unfolding delete_answer on_store
  delete_unprotected id (err e) w = (refuse 500 (store_error e), w)
  delete_unprotected id (ok protected) w =
      if contains protected id
      then (answer 409 (message (codes "latest 50 jobs cannot be deleted")), w)
      else delete_now id w

  unfoldable pub delete_in : Text → Option Store → Handler
  unfolding delete_unprotected
  delete_in id none w = (refuse 500 state_store_missing, w)
  delete_in id (some s) w =
      delete_unprotected id
        (protected_job_ids setup.calendar (env.fault 0) (pos protected_job_count) s) w

  unfoldable pub handle_delete_job : Text → Text → Handler
  unfolding delete_in
  handle_delete_job token path_id w =
      if not (check_admin_token cfg token)
      then (forbidden, w)
      else let id = trim_space path_id in
        if id == []
        then (answer 400 (message (codes "job id is required")), w)
        else delete_in id w.store w

  planned_answer : Result E (Job × MigrationPlan) → Answer E
  planned_answer r = or_refuse 400 (λ p. answer 200 (planned p.0 p.1)) r

  undecoded : Answer E
  undecoded = answer 400 (message (codes "malformed body"))

  unfoldable pub plan_body : Option PlanRequest → Handler
  unfolding planned_answer undecoded
  plan_body none w = (undecoded, w)
  plan_body (some req) w =
      let mode = if req.mode == [] then mode_dead_recovery else req.mode in
      let (r, w') = plan d setup env req.source_server_id req.target_server_id mode w in
      (planned_answer r, w')

  unfoldable pub handle_plan : Text → Option PlanRequest → Handler
  unfolding plan_body
  handle_plan token body w =
      if not (check_admin_token cfg token) then (forbidden, w) else plan_body body w

  done_answer : Text → Result E (Unit {0}) → Answer E
  done_answer done r = or_refuse 400 (λ u. answer 200 (status_text done)) r

  unfoldable pub apply_body : Option PlanActionRequest → Handler
  unfolding done_answer undecoded
  apply_body none w = (undecoded, w)
  apply_body (some req) w =
      let opts : ApplyOptions = record {
        schema_hash_approval = req.schema_hash_approval;
        confirmation_text = req.confirmation_text;
      } in
      let (r, w') = apply d setup env req.job_id req.plan opts w in
      (done_answer (codes "applied") r, w')

  unfoldable pub handle_apply : Text → Option PlanActionRequest → Handler
  unfolding apply_body
  handle_apply token body w =
      if not (check_admin_token cfg token) then (forbidden, w) else apply_body body w

  unfoldable pub rollback_body : Option PlanActionRequest → Handler
  unfolding done_answer undecoded
  rollback_body none w = (undecoded, w)
  rollback_body (some req) w =
      let (r, w') = rollback d setup env req.job_id req.plan req.schema_hash_approval w in
      (done_answer (codes "rolled_back") r, w')

  unfoldable pub handle_rollback : Text → Option PlanActionRequest → Handler
  unfolding rollback_body
  handle_rollback token body w =
      if not (check_admin_token cfg token) then (forbidden, w) else rollback_body body w

  unfoldable pub dispatch : Route → Request → Handler
  unfolding handle_servers handle_jobs handle_delete_job handle_plan handle_apply handle_rollback
  dispatch get_health req w = (answer 200 (status_text (codes "ok")), w)
  dispatch get_servers req w = handle_servers w
  dispatch get_jobs req w = handle_jobs req.query w
  dispatch (delete_at id) req w = handle_delete_job req.admin_token id w
  dispatch post_plan req w = handle_plan req.admin_token req.plan_body w
  dispatch post_apply req w = handle_apply req.admin_token req.action_body w
  dispatch post_rollback req w = handle_rollback req.admin_token req.action_body w
  dispatch static_files req w = (answer req.file_status (static_file req.path), w)

  -- `basicAuth` in front of the routes.
  unfoldable pub serve : Request → Handler
  unfolding dispatch
  serve req w =
      if basic_auth cfg req.basic
      then dispatch (route req.method req.path) req w
      else (answer 401 (message (codes "unauthorized")), w)
