-- ===== src/Server/Disconnected.antt =====
-- The server of internal/server/server.go without a Dokploy database.
use dokploymigrator.Base.{
  Text, List, [], Option, none, some, Bool, true, false, not, ◌==◌, text_eq, contains, trim_space,
  if◌then◌else◌, Result, ok, err, ◌≡◌, refl, ◌∙◌, inl, inr, Bool-cases, Option-cases,
}
use dokploymigrator.Model.{MigrationPlan}
use dokploymigrator.State.Tables.{Store, StoreError}
use dokploymigrator.State.Jobs.{Op}
use dokploymigrator.Jobs.Adapter.{DbAdapter, IsAtomic}
use dokploymigrator.Jobs.Manager.{Env, World, on_store}
use dokploymigrator.Jobs.Workflow.{Setup, ApplyOptions, apply, rollback}
use dokploymigrator.Jobs.Workflow.Outcome.{apply-all_or_nothing, rollback-all_or_nothing}
use dokploymigrator.Jobs.Planning.ReadOnly.{plan-db}
use dokploymigrator.Server.Request.{
  Config, Request, PlanRequest, PlanActionRequest, basic_auth, check_admin_token,
}
use dokploymigrator.Server.Handlers.{
  Route, get_health, get_servers, get_jobs, delete_at, post_plan, post_apply, post_rollback,
  static_files, route, dispatch, serve, handle_servers, handle_jobs, handle_delete_job, handle_plan,
  handle_apply, handle_rollback, delete_in, delete_unprotected, plan_body, apply_body,
  rollback_body,
}

module _ (d : DbAdapter) (setup : Setup d.Failure) (cfg : Config) (env : Env)
    (atomic : IsAtomic d) where
  on_store-db : (op : Op (Unit {0})) (w : World d) → (on_store op w).1.db ≡ w.db
  unfolding on_store
  on_store-db op w = elim (Option-cases w.store) [ inl e ↦ rw e refl | inr (s, e) ↦ rw e refl ]

  unprotected-db :
      (id : Text) (protected : Result StoreError (List Text)) (w : World d)
      → (delete_unprotected d setup cfg env id protected w).1.db ≡ w.db
  unfolding delete_unprotected
  unprotected-db id (err e) w = refl
  unprotected-db id (ok protected) w = elim (Bool-cases (contains protected id)) [
    | inl kept ↦ rw kept refl
    | inr free ↦ rw free (on_store-db _ w)
  ]

  delete_in-db :
      (id : Text) (store : Option Store) (w : World d)
      → (delete_in d setup cfg env id store w).1.db ≡ w.db
  unfolding delete_in
  delete_in-db id none w = refl
  delete_in-db id (some s) w = unprotected-db id _ w

  if_db :
      (test : Bool) {A : Type 0} (x y : A × World d) (w : World d)
      → x.1.db ≡ w.db
      → y.1.db ≡ w.db
      → (if test then x else y).1.db ≡ w.db
  if_db true x y w hx hy = hx
  if_db false x y w hx hy = hy

  delete_job-db :
      (token path_id : Text) (w : World d)
      → (handle_delete_job d setup cfg env token path_id w).1.db ≡ w.db
  unfolding handle_delete_job
  delete_job-db token path_id w =
      if_db (not (check_admin_token cfg token)) _ _ w refl
        (if_db (trim_space path_id == []) _ _ w refl (delete_in-db (trim_space path_id) w.store w))

  plan_body-db :
      (body : Option PlanRequest) (w : World d) → (plan_body d setup cfg env body w).1.db ≡ w.db
  unfolding plan_body
  plan_body-db none w = refl
  plan_body-db (some req) w = plan-db d setup env _ _ _ w

  handle_plan-db :
      (token : Text) (body : Option PlanRequest) (w : World d)
      → (handle_plan d setup cfg env token body w).1.db ≡ w.db
  unfolding handle_plan
  handle_plan-db token body w =
      if_db (not (check_admin_token cfg token)) _ _ w refl (plan_body-db body w)

  -- Without a database a write does not bring one.
  apply-none :
      (job_id : Text) (p : MigrationPlan) (opts : ApplyOptions) (w : World d)
      → w.db ≡ none
      → (apply d setup env job_id p opts w).1.db ≡ w.db
  apply-none job_id p opts w h = elim (apply-all_or_nothing d setup env job_id p atomic opts w) [
    | inl same ↦ same
    | inr (x, there, _, _) ↦ absurd (cc)
  ]

  rollback-none :
      (job_id : Text) (p : MigrationPlan) (approval : Text) (w : World d)
      → w.db ≡ none
      → (rollback d setup env job_id p approval w).1.db ≡ w.db
  rollback-none job_id p approval w h =
      elim (rollback-all_or_nothing d setup env job_id p atomic approval w) [
        | inl same ↦ same
        | inr (x, there, _, _) ↦ absurd (cc)
      ]

  apply_body-none :
      (body : Option PlanActionRequest) (w : World d)
      → w.db ≡ none
      → (apply_body d setup cfg env body w).1.db ≡ w.db
  unfolding apply_body
  apply_body-none none w h = refl
  apply_body-none (some req) w h = apply-none req.job_id req.plan _ w h

  rollback_body-none :
      (body : Option PlanActionRequest) (w : World d)
      → w.db ≡ none
      → (rollback_body d setup cfg env body w).1.db ≡ w.db
  unfolding rollback_body
  rollback_body-none none w h = refl
  rollback_body-none (some req) w h = rollback-none req.job_id req.plan _ w h

  dispatch-none :
      (r : Route) (req : Request) (w : World d)
      → w.db ≡ none
      → (dispatch d setup cfg env r req w).1.db ≡ w.db
  unfolding dispatch handle_servers handle_jobs handle_apply handle_rollback
  dispatch-none get_health req w h = refl
  dispatch-none get_servers req w h = refl
  dispatch-none get_jobs req w h = refl
  dispatch-none (delete_at id) req w h = delete_job-db req.admin_token id w
  dispatch-none post_plan req w h = handle_plan-db req.admin_token req.plan_body w
  dispatch-none post_apply req w h =
      if_db (not (check_admin_token cfg req.admin_token)) _ _ w refl
        (apply_body-none req.action_body w h)
  dispatch-none post_rollback req w h =
      if_db (not (check_admin_token cfg req.admin_token)) _ _ w refl
        (rollback_body-none req.action_body w h)
  dispatch-none static_files req w h = refl

  pub serve-none :
      (req : Request) (w : World d) → w.db ≡ none → (serve d setup cfg env req w).1.db ≡ none
  unfolding serve
  serve-none req w h =
      if_db (basic_auth cfg req.basic) _ _ w (dispatch-none (route req.method req.path) req w h)
        refl
      ∙ h
