-- ===== src/Server/Access.antt =====
-- Who may change anything through the HTTP API of internal/server/server.go.
use dokploymigrator.Base.{
  Text, [], Option, none, some, true, false, text_eq, ◌≡◌, ◌≢◌, refl, arith, ◌⊎◌, inl, inr,
  Bool-cases,
}
use dokploymigrator.Jobs.Adapter.{DbAdapter}
use dokploymigrator.Jobs.Manager.{Env, World}
use dokploymigrator.Jobs.Workflow.{Setup}
use dokploymigrator.Server.Request.{Config, Request, basic_auth, check_admin_token}
use dokploymigrator.Server.Handlers.{
  Route, get_health, get_servers, get_jobs, delete_at, post_plan, post_apply, post_rollback,
  static_files, route, dispatch, serve, handle_servers, handle_jobs, handle_delete_job, handle_plan,
  handle_apply, handle_rollback,
}

-- The request has the user and the password, and the admin token of a server that has one.
pub record IsAuthorized (cfg : Config) (req : Request) : Type 0 where
  pub basic : req.basic ≡ some (cfg.basic_user, cfg.basic_password)
  pub token_set : cfg.admin_token ≢ []
  pub token : req.admin_token ≡ cfg.admin_token

basic_auth-ok :
    (cfg : Config) (basic : Option (Text × Text))
    → basic_auth cfg basic ≡ true
    → basic ≡ some (cfg.basic_user, cfg.basic_password)
unfolding basic_auth
basic_auth-ok cfg none h = cc
basic_auth-ok cfg (some (user, password)) h = ground arith

check_admin_token-ok :
    (cfg : Config) (got : Text)
    → check_admin_token cfg got ≡ true
    → (cfg.admin_token ≢ []) × (got ≡ cfg.admin_token)
unfolding check_admin_token
check_admin_token-ok cfg got h = ground arith

module _ (d : DbAdapter) (setup : Setup d.Failure) (cfg : Config) (env : Env) where
  dispatch-token :
      (r : Route) (req : Request) (w : World d)
      → (check_admin_token cfg req.admin_token ≡ true) ⊎ ((dispatch d setup cfg env r req w).1 ≡ w)
  unfolding dispatch handle_servers handle_jobs handle_delete_job handle_plan handle_apply
      handle_rollback
  dispatch-token r req w = elim (Bool-cases (check_admin_token cfg req.admin_token)) [
    | inl yes_it_is ↦ inl yes_it_is
    | inr refused ↦ inr (unchanged r refused)
  ]
    where
      unchanged :
          (r : Route)
          → check_admin_token cfg req.admin_token ≡ false
          → (dispatch d setup cfg env r req w).1 ≡ w
      unchanged get_health h = refl
      unchanged get_servers h = refl
      unchanged get_jobs h = refl
      unchanged (delete_at id) h = ground arith
      unchanged post_plan h = ground arith
      unchanged post_apply h = ground arith
      unchanged post_rollback h = ground arith
      unchanged static_files h = refl

  -- A request, whatever its method, path and body, changes nothing in the state store and in the
  -- Dokploy database unless it has the user and the password and the admin token, and the server has
  -- an admin token at all.
  pub serve-IsAuthorized :
      (req : Request) (w : World d) → IsAuthorized cfg req ⊎ ((serve d setup cfg env req w).1 ≡ w)
  unfolding serve
  serve-IsAuthorized req w = elim (Bool-cases (basic_auth cfg req.basic)) [
    | inl fits ↦ elim (dispatch-token (route req.method req.path) req w) [
      | inl token ↦
          let (is_set, same) = check_admin_token-ok cfg req.admin_token token in
          inl
            (record { basic = basic_auth-ok cfg req.basic fits; token_set = is_set; token = same })
      | inr same ↦ inr (ground (arith, same))
    ]
    | inr refused ↦ inr (ground arith)
  ]

  -- A request without the user and the password is answered with 401, on every route, and nothing
  -- else happens.
  pub serve-unauthenticated :
      (req : Request) (w : World d)
      → req.basic ≢ some (cfg.basic_user, cfg.basic_password)
      → (((serve d setup cfg env req w).0).status ≡ 401) × ((serve d setup cfg env req w).1 ≡ w)
  unfolding serve
  serve-unauthenticated req w stranger = elim (Bool-cases (basic_auth cfg req.basic)) [
    | inl fits ↦ absurd (stranger (basic_auth-ok cfg req.basic fits))
    | inr refused ↦ ground arith
  ]
