-- ===== src/Cmd/Serve.antt =====
-- The command `serve` of cmd/dokploy-migrator/main.go.
use dokploymigrator.Base.{
  Text, codes, List, [], ◌∷◌, false, ◌!=◌, text_eq, if◌then◌else◌, Result, wrap,
}
use dokploymigrator.Config.{Config}
use dokploymigrator.Jobs.Adapter.{DbAdapter}
use dokploymigrator.Jobs.Manager.{Env, World}
use dokploymigrator.Jobs.Workflow.{Setup}
use dokploymigrator.Server.Request.{Config as ServerConfig, Request}
use dokploymigrator.Server.Handlers.{serve}
use dokploymigrator.Server.Listen.{listen_and_serve}
use dokploymigrator.Cmd.Flags.{Formal, text_flag, text_of}
use dokploymigrator.Cmd.Runtime.{
  Process, Machine, CliError, listen_error, adapter_of, setup_of, with_runtime,
}
use dokploymigrator.Cmd.Start.{Exit, with_flags, with_config}

-- The requests that the server answers, one after the other.
unfoldable pub serve_all :
    (d : DbAdapter) → Setup d.Failure → ServerConfig → List (Env × Request) → World d → World d
unfolding serve
serve_all d setup cfg [] w = w
serve_all d setup cfg ((env, req) ∷ requests) w =
    serve_all d setup cfg requests (serve d setup cfg env req w).1

abbrev pub server_config : Config → ServerConfig
server_config cfg = record {
  basic_user = cfg.basic_auth_user;
  basic_password = cfg.basic_auth_password;
  admin_token = cfg.admin_token;
  dead_after = cfg.dead_after;
}

abbrev pub with_addr : Text → Config → Config
with_addr addr cfg = if addr != [] then record cfg { addr = addr } else cfg

abbrev pub serve_flags : Formal
serve_flags = (codes "addr", text_flag) ∷ []

module _ (p : Process) where
  unfoldable pub serve_with : Config → Machine → Result CliError (Unit {0}) × Machine
  unfolding with_runtime serve_all listen_and_serve
  serve_with cfg m =
      with_runtime p cfg false
        (λ w. (
          wrap listen_error (listen_and_serve p.ending),
          serve_all (adapter_of p cfg) (setup_of p cfg) (server_config cfg) p.requests w,
        ))
        m

  unfoldable pub serve_command : List Text → Machine → Exit × Machine
  unfolding with_flags with_config serve_with text_of
  serve_command args m =
      with_flags p serve_flags args
        (λ values.
          with_config p (λ cfg. serve_with (with_addr (text_of values (codes "addr") []) cfg) m) m)
        m
