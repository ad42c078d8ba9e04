-- ===== src/Cmd/Serving.antt =====
-- What the command `serve` of cmd/dokploy-migrator/main.go does to the Dokploy databases.
use dokploymigrator.Base.{
  Text, List, [], ◌∷◌, none, false, Result, Any, ◌≡◌, ◌≢◌, refl, ap, ◌⊎◌, inl, inr, wrap, text_eq,
}
use dokploymigrator.Config.{Config}
use dokploymigrator.Jobs.Adapter.{DbAdapter, IsAtomic}
use dokploymigrator.Jobs.Postgres.{postgres-IsAtomic}
use dokploymigrator.Jobs.Manager.{Env, World}
use dokploymigrator.Jobs.Workflow.{Setup}
use dokploymigrator.Server.Request.{Config as ServerConfig, Request}
use dokploymigrator.Server.Handlers.{serve}
use dokploymigrator.Server.Listen.{listen_and_serve}
use dokploymigrator.Server.Access.{IsAuthorized, serve-IsAuthorized}
use dokploymigrator.Server.Disconnected.{serve-none}
use dokploymigrator.Cmd.Runtime.{
  Process, Machine, CliError, listen_error, adapter_of, setup_of, connection_of, Runtime,
  put_database, with_runtime,
}
use dokploymigrator.Cmd.Serve.{serve_all, server_config, serve_with}
use dokploymigrator.Cmd.Databases.{IsConnected, with_runtime-databases}
use dokploymigrator.Cmd.Moves.{IsUnmoved, kept_database}

-- Some request is authorized.
abbrev pub IsVisited : ServerConfig → List (Env × Request) → Type 0
IsVisited cfg requests = Any (λ (r : Env × Request). IsAuthorized cfg r.1) requests

module _ (d : DbAdapter) (setup : Setup d.Failure) (cfg : ServerConfig) where
  serve_all-IsVisited :
      (requests : List (Env × Request)) (w : World d)
      → (serve_all d setup cfg requests w ≡ w) ⊎ IsVisited cfg requests
  unfolding serve_all
  serve_all-IsVisited [] w = inl refl
  serve_all-IsVisited ((env, req) ∷ requests) w = elim (serve-IsAuthorized d setup cfg env req w) [
    | inl authorized ↦ inr (inl authorized)
    | inr same ↦ elim (serve_all-IsVisited requests w) [
      | inl rest ↦ inl (rw same rest)
      | inr later ↦ inr (inr later)
    ]
  ]

  serve_all-none :
      IsAtomic d
      → (requests : List (Env × Request)) (w : World d) → w.db ≡ none
      → (serve_all d setup cfg requests w).db ≡ none
  unfolding serve_all
  serve_all-none atomic [] w h = h
  serve_all-none atomic ((env, req) ∷ requests) w h =
      serve_all-none atomic requests (serve d setup cfg env req w).1
        (serve-none d setup cfg env atomic req w h)

module _ (p : Process) (cfg : Config) where
  abbrev served : Runtime p cfg → Runtime p cfg
  served w = serve_all (adapter_of p cfg) (setup_of p cfg) (server_config cfg) p.requests w

  served_database :
      (m m' : Machine) (w : Runtime p cfg)
      → IsConnected p cfg m w
      → m'.databases ≡ put_database p cfg (served w).db m.databases
      → IsUnmoved m m'
        ⊎ ((cfg.dokploy_postgres_dsn ≢ []) × IsVisited (server_config cfg) p.requests)
  served_database m m' w (inl no_db) left = inl (λ dsn.
      rw
        (
          left,
          serve_all-none _ (setup_of p cfg) _ (postgres-IsAtomic (connection_of p cfg)) p.requests w
              no_db,
        )
        refl)
  served_database m m' w (inr (here, given)) left =
      elim (serve_all-IsVisited (adapter_of p cfg) (setup_of p cfg) (server_config cfg) p.requests
        w) [
          | inl same ↦ inl (kept_database p cfg m m' w (inr (here, given)) (rw same at left))
          | inr visited ↦ inr (given, visited)
        ]

  -- `serve` leaves every database as it is, unless the settings name one and some request is
  -- authorized.
  pub serve_with-IsVisited :
      (m : Machine)
      → IsUnmoved m (serve_with p cfg m).1
        ⊎ ((cfg.dokploy_postgres_dsn ≢ []) × IsVisited (server_config cfg) p.requests)
  unfolding serve_with
  serve_with-IsVisited m =
      let action : Runtime p cfg → Result CliError (Unit {0}) × Runtime p cfg =
        λ w. (wrap listen_error (listen_and_serve p.ending), served w) in
      elim (with_runtime-databases p cfg false action m) [
        | inl same ↦ inl (λ dsn. ap (λ (f : Text → _). f dsn) same)
        | inr (w, connected, left) ↦
            served_database m (with_runtime p cfg false action m).1 w connected left
      ]
