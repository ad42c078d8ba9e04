-- ===== src/Cmd/Runtime.antt =====
-- What the commands of cmd/dokploy-migrator/main.go run in: the process with its surroundings, the
-- machine that it changes, and buildRuntime and readPlan.
use dokploymigrator.Base.{
  ℕ, Text, List, [], Option, none, some, Bool, ◌==◌, ◌!=◌, text_eq, if◌then◌else◌, ℤ, Result, ok,
  err, ◌>>=◌, wrap,
}
use dokploymigrator.Model.{MigrationPlan}
use dokploymigrator.Config.{Environment, ConfigError, require_dokploy_db, Config}
use dokploymigrator.Dokploydb.Postgres.{Database}
use dokploymigrator.Dokploydb.Adapter.{AdapterError, open_postgres}
use dokploymigrator.State.Tables.{Failure, StoreError}
use dokploymigrator.State.Jobs.{Job}
use dokploymigrator.State.Opening.{Disk, OpenError, open_state, store_of, disk_of}
use dokploymigrator.Jobs.Adapter.{DbAdapter}
use dokploymigrator.Jobs.Postgres.{Connection, postgres}
use dokploymigrator.Jobs.Manager.{Env, World, JobsError}
use dokploymigrator.Jobs.Workflow.{Setup}
use dokploymigrator.Jobs.ApiClient.{ApiClient, new_api_client}
use dokploymigrator.Server.Request.{Request}
use dokploymigrator.Server.Listen.{Ending, ListenError}

pub data CliError : Type 0 where
  unknown_command : Text → CliError
  apply_needs_job_and_plan rollback_needs_job_and_plan apply_confirmation_required : CliError
  config_error : ConfigError → CliError
  state_error : OpenError → CliError
  postgres_error : Text → CliError
  manager_error : JobsError AdapterError → CliError
  store_error : StoreError → CliError
  read_plan_file decode_plan_file write_plan_file marshal_failed : Text → CliError
  no_plan_in_file : CliError
  listen_error : ListenError → CliError

-- The surroundings of the process. `sql_open` is the error of `sql.Open` for a DSN, `opening` that
-- for a state file, `migrating` the faults of its statements; `decode_direct` and `decode_wrapped`
-- are `json.Unmarshal` of a file into a plan and into a record with a plan, `encode` and
-- `encode_jobs` are `json.MarshalIndent`, `writing` is the error of `os.WriteFile`. `requests` are
-- those that the server answers before its `ending`, each with what happens around it.
pub record Process : Type 0 where
  pub environment : Environment
  pub parse_duration : Text → Option ℤ
  pub parse_int : Text → Option ℤ
  pub connection : Connection
  pub setup : Setup AdapterError
  pub env : Env
  pub sql_open : Text → Option Text
  pub opening : Text → Option Failure
  pub migrating : ℕ → Option Failure
  pub decode_direct : Text → Result Text MigrationPlan
  pub decode_wrapped : Text → Result Text MigrationPlan
  pub encode : Job × MigrationPlan → Result Text Text
  pub encode_jobs : List Job → Result Text Text
  pub writing : Text → Option Text
  pub requests : List (Env × Request)
  pub ending : Ending

pub data Output : Type 0 where
  usage : Output
  encoded : Text → Output

-- What the program changes: the state files by their paths, the Dokploy databases by their DSNs, the
-- other files, whose reading may fail, and what it has printed.
pub record Machine : Type 0 where
  pub disks : Text → Disk
  pub databases : Text → Database
  pub files : Text → Result Text Text
  pub printed : List Output

abbrev pub put {ℓ} : {A : Type ℓ} → Text → A → (Text → A) → Text → A
put key a at other = if other == key then a else at other

-- The adapter that is opened with the settings.
abbrev pub connection_of : Process → Config → Connection
connection_of p cfg = record p.connection { adapter = open_postgres cfg.schema_allowlist }

abbrev pub adapter_of : Process → Config → DbAdapter
adapter_of p cfg = postgres (connection_of p cfg)

abbrev pub api_of : Config → ApiClient
api_of cfg =
    new_api_client cfg.dokploy_api_base_url cfg.dokploy_api_token cfg.health_path cfg.deploy_path

abbrev pub setup_of : Process → Config → Setup AdapterError
setup_of p cfg = record p.setup { api = some (api_of cfg) }

module _ (p : Process) (cfg : Config) where
  -- What the manager works on.
  abbrev pub Runtime : Type 0
  Runtime = World (adapter_of p cfg)

  -- The rest of `buildRuntime` with an open store: `sql.Open`, unless there is no DSN.
  unfoldable pub connect : Bool → Disk → Machine → Result CliError Runtime
  unfolding require_dokploy_db
  connect require_db disk m = elim (require_dokploy_db cfg) [
    | err e ↦
        if require_db
        then err (config_error e)
        else ok (record { store = some (store_of disk); db = none })
    | ok u ↦ elim (p.sql_open cfg.dokploy_postgres_dsn) [
      | some e ↦ err (postgres_error e)
      | none ↦ ok (record {
        store = some (store_of disk);
        db = some (m.databases cfg.dokploy_postgres_dsn);
      })
    ]
  ]

  abbrev pub if_opened :
      Result OpenError (Unit {0}) → Result CliError Runtime → Result CliError Runtime
  if_opened (err e) next = err (state_error e)
  if_opened (ok u) next = next

  -- The state file is opened, and migrated, before anything else, and stays so.
  unfoldable pub build_runtime : Bool → Machine → Result CliError Runtime × Machine
  unfolding open_state connect
  build_runtime require_db m =
      let (opened, disk) =
        open_state (p.opening cfg.state_path) p.migrating (m.disks cfg.state_path) in
      (
        if_opened opened (connect require_db disk m),
        record m { disks = put cfg.state_path disk m.disks },
      )

  abbrev pub put_database : Option Database → (Text → Database) → Text → Database
  put_database none databases = databases
  put_database (some db) databases = put cfg.dokploy_postgres_dsn db databases

  abbrev disk_with : Option Disk → (Text → Disk) → Text → Disk
  disk_with none disks = disks
  disk_with (some disk) disks = put cfg.state_path disk disks

  -- The machine with what the manager has left.
  unfoldable pub leave : Runtime → Machine → Machine
  unfolding disk_of
  leave w m = record m {
    disks = disk_with (elim w.store [ none ↦ none | some s ↦ some (disk_of s) ]) m.disks;
    databases = put_database w.db m.databases;
  }

  unfoldable pub run_with :
      {A : Type 0}
      → Result CliError Runtime
      → (Runtime → Result CliError A × Runtime)
      → Machine
      → Result CliError A × Machine
  unfolding leave
  run_with (err e) action m = (err e, m)
  run_with (ok w) action m = let (r, w') = action w in (r, leave w' m)

  -- `buildRuntime`, and an action on what it returns.
  unfoldable pub with_runtime :
      {A : Type 0}
      → Bool
      → (Runtime → Result CliError A × Runtime)
      → Machine
      → Result CliError A × Machine
  unfolding build_runtime run_with
  with_runtime require_db action m =
      let (built, m') = build_runtime require_db m in run_with built action m'

-- The second try of `readPlan`.
unfoldable pub wrapped_plan : Result Text MigrationPlan → Result CliError MigrationPlan
wrapped_plan (err e) = err (decode_plan_file e)
wrapped_plan (ok plan) = if plan.id == [] then err no_plan_in_file else ok plan

unfoldable pub direct_or_wrapped :
    Result Text MigrationPlan → Result Text MigrationPlan → Result CliError MigrationPlan
unfolding wrapped_plan
direct_or_wrapped (err e) wrapped = wrapped_plan wrapped
direct_or_wrapped (ok plan) wrapped = if plan.id != [] then ok plan else wrapped_plan wrapped

unfoldable pub read_plan : Process → Text → Machine → Result CliError MigrationPlan
unfolding direct_or_wrapped
read_plan p path m = do
  body ← wrap read_plan_file (m.files path)
  direct_or_wrapped (p.decode_direct body) (p.decode_wrapped body)
