-- ===== src/Cmd/Quiet.antt =====
-- The commands of cmd/dokploy-migrator/main.go that leave the Dokploy databases alone, and `serve`, which
-- does unless a request asks for more.
use dokploymigrator.Base.{
  Text, codes, List, [], true, ◌!=◌, text_eq, if◌then◌else◌, Result, ok, err, Result-cases,
  Option-cases, Bool-cases, wrap, ℤ, pos, ◌≡◌, ◌≢◌, refl, ap, ◌∙◌, ◌⊎◌, inl, inr,
}
use dokploymigrator.Model.{MigrationPlan, mode_dead_recovery}
use dokploymigrator.Config.{Config, ConfigError, load}
use dokploymigrator.Dokploydb.Postgres.{Database}
use dokploymigrator.State.Jobs.{Job}
use dokploymigrator.State.Opening.{Disk, OpenError, open_state}
use dokploymigrator.State.Tables.{StoreError}
use dokploymigrator.Jobs.Planning.{plan}
use dokploymigrator.Jobs.Planning.ReadOnly.{plan-db}
use dokploymigrator.Cmd.Flags.{Formal, Value, parse, text_of, int_of}
use dokploymigrator.Cmd.Runtime.{
  Process, Machine, CliError, manager_error, adapter_of, setup_of, Runtime, put, with_runtime,
}
use dokploymigrator.Cmd.Start.{on_settings, with_flags, with_config}
use dokploymigrator.Cmd.Serve.{serve_command, serve_flags, server_config, with_addr, serve_with}
use dokploymigrator.Cmd.Serving.{IsVisited, serve_with-IsVisited}
use dokploymigrator.Cmd.Reports.{
  put_out, finish_plan, plan_with, plan_command, list_jobs_with, list_jobs_command, plan_for,
  list_jobs_for, plan_flags, jobs_flags, listed_jobs, opened_jobs,
}
use dokploymigrator.Cmd.Databases.{with_runtime-databases}
use dokploymigrator.Cmd.Moves.{IsUnmoved, kept_database}
use dokploymigrator.Cmd.Confirmed.{values_move}

module _ (p : Process) where
  -- The server ran with settings that name a database, and some request was authorized.
  pub record IsServed (args : List Text) : Type 0 where
    pub values : List (Text × Value)
    pub cfg : Config
    pub flags : parse p.parse_int serve_flags args ≡ ok values
    pub settings : load p.parse_duration p.environment ≡ ok cfg
    pub named : cfg.dokploy_postgres_dsn ≢ []
    pub visited : IsVisited (server_config cfg) p.requests

  put_out-databases :
      (out : Text) (text : Result Text Text) (m : Machine)
      → (put_out p out text m).1.databases ≡ m.databases
  unfolding put_out
  put_out-databases out (err e) m = refl
  put_out-databases out (ok text) m = elim (Bool-cases (out != [])) [
    | inl to_file ↦ elim (Option-cases (p.writing out)) [
      | inl written ↦ rw (to_file, written) refl
      | inr (e, failed) ↦ rw (to_file, failed) refl
    ]
    | inr printed ↦ rw printed refl
  ]

  finish_plan-databases :
      (out : Text) (planned : Result CliError (Job × MigrationPlan)) (m : Machine)
      → (finish_plan p out (planned, m)).1.databases ≡ m.databases
  finish_plan-databases out (err e) m = refl
  finish_plan-databases out (ok planned) m = put_out-databases out (p.encode planned) m

  plan_with-IsUnmoved :
      (source target mode out : Text) (m : Machine) (cfg : Config)
      → IsUnmoved m (plan_with p source target mode out m cfg).1
  unfolding plan_with
  plan_with-IsUnmoved source target mode out m cfg dsn =
      let action : Runtime p cfg → Result CliError (Job × MigrationPlan) × Runtime p cfg = λ w.
        let (r, w') = plan (adapter_of p cfg) (setup_of p cfg) p.env source target mode w in
        (wrap manager_error r, w') in
      let (r, m') = with_runtime p cfg true action m in
      ap (λ (f : Text → Database). f dsn) (finish_plan-databases out r m')
      ∙ elim (with_runtime-databases p cfg true action m) [
        | inl same ↦ ap (λ (f : Text → Database). f dsn) same
        | inr (w, connected, left) ↦
            kept_database p cfg m m' w connected
              (rw (plan-db (adapter_of p cfg) (setup_of p cfg) p.env source target mode w) at left)
              dsn
      ]

  listed_jobs-databases :
      (m : Machine) (jobs : Result StoreError (List Job))
      → (listed_jobs p m jobs).1.databases ≡ m.databases
  listed_jobs-databases m (err e) = refl
  listed_jobs-databases m (ok jobs) = elim (Result-cases (p.encode_jobs jobs)) [
    | inl (text, e) ↦ rw e refl
    | inr (failure, e) ↦ rw e refl
  ]

  opened_jobs-databases :
      (limit offset : ℤ) (disk : Disk) (m : Machine) (opened : Result OpenError (Unit {0}))
      → (opened_jobs p limit offset disk m opened).1.databases ≡ m.databases
  unfolding opened_jobs
  opened_jobs-databases limit offset disk m (err e) = refl
  opened_jobs-databases limit offset disk m (ok u) = listed_jobs-databases m _

  list_jobs_with-databases :
      (state_path : Text) (limit offset : ℤ) (m : Machine) (cfg : Config)
      → (list_jobs_with p state_path limit offset m cfg).1.databases ≡ m.databases
  unfolding list_jobs_with
  list_jobs_with-databases state_path limit offset m cfg =
      let path = if state_path != [] then state_path else cfg.state_path in
      let (opened, disk) = open_state (p.opening path) p.migrating (m.disks path) in
      opened_jobs-databases limit offset disk (record m { disks = put path disk m.disks }) opened

  -- A command that keeps the databases for all settings.
  quiet :
      (formal : Formal) (args : List Text)
      (next : List (Text × Value) → Config → Result CliError (Unit {0}) × Machine) (m : Machine)
      → ((values : List (Text × Value)) (cfg : Config) → IsUnmoved m (next values cfg).1)
      → IsUnmoved m (with_flags p formal args (λ values. with_config p (next values) m) m).1
  unfolding with_flags with_config
  quiet formal args next m still dsn = elim (Result-cases (parse p.parse_int formal args)) [
    | inl (values, parsed) ↦ elim (Result-cases (load p.parse_duration p.environment)) [
      | inl (cfg, loaded) ↦ rw (parsed, loaded) (still values cfg dsn)
      | inr (e, failed) ↦ rw (parsed, failed) refl
    ]
    | inr (status, failed) ↦ rw failed refl
  ]

  plan_for-IsUnmoved :
      (values : List (Text × Value)) (m : Machine) (cfg : Config)
      → IsUnmoved m (plan_for p values m cfg).1
  unfolding plan_for
  plan_for-IsUnmoved values m cfg =
      plan_with-IsUnmoved (text_of values (codes "source") []) (text_of values (codes "target") [])
        (text_of values (codes "mode") mode_dead_recovery) (text_of values (codes "out") []) m cfg

  pub plan_command-IsUnmoved :
      (args : List Text) (m : Machine) → IsUnmoved m (plan_command p args m).1
  unfolding plan_command
  plan_command-IsUnmoved args m =
      quiet plan_flags args (λ values. plan_for p values m) m
        (λ values cfg. plan_for-IsUnmoved values m cfg)

  list_jobs_for-IsUnmoved :
      (values : List (Text × Value)) (m : Machine) (cfg : Config)
      → IsUnmoved m (list_jobs_for p values m cfg).1
  unfolding list_jobs_for
  list_jobs_for-IsUnmoved values m cfg dsn =
      ap (λ (f : Text → Database). f dsn)
        (list_jobs_with-databases (text_of values (codes "state") [])
          (int_of values (codes "limit") (pos 50)) (int_of values (codes "offset") (pos 0)) m cfg)

  pub list_jobs_command-IsUnmoved :
      (args : List Text) (m : Machine) → IsUnmoved m (list_jobs_command p args m).1
  unfolding list_jobs_command
  list_jobs_command-IsUnmoved args m =
      quiet jobs_flags args (λ values. list_jobs_for p values m) m
        (λ values cfg. list_jobs_for-IsUnmoved values m cfg)

  with_addr_same :
      (addr : Text) (cfg : Config)
      → ((with_addr addr cfg).dokploy_postgres_dsn ≡ cfg.dokploy_postgres_dsn)
        × (server_config (with_addr addr cfg) ≡ server_config cfg)
  with_addr_same addr cfg = elim (Bool-cases (addr != [])) [
    | inl e ↦ rw e (refl, refl)
    | inr e ↦ rw e (refl, refl)
  ]

  settings_served :
      (addr : Text) (m : Machine) (loaded : Result ConfigError Config)
      → IsUnmoved m (on_settings loaded (λ cfg. serve_with p (with_addr addr cfg) m) m).1
        ⊎ ((cfg : Config) × (loaded ≡ ok cfg)
            × (cfg.dokploy_postgres_dsn ≢ [])
            × IsVisited (server_config cfg) p.requests)
  settings_served addr m (err e) = inl (λ dsn. refl)
  settings_served addr m (ok cfg) = elim (serve_with-IsVisited p (with_addr addr cfg) m) [
    | inl same ↦ inl same
    | inr (given, visited) ↦
        let (dsn, config) = with_addr_same addr cfg in
        inr (cfg, refl, rw dsn at given, rw config at visited)
  ]

  pub serve_command-IsServed :
      (args : List Text) (m : Machine) → IsUnmoved m (serve_command p args m).1 ⊎ IsServed args
  unfolding serve_command with_flags with_config
  serve_command-IsServed args m =
      elim (values_move p
        (λ values m'.
          (cfg : Config) × (load p.parse_duration p.environment ≡ ok cfg)
          × (cfg.dokploy_postgres_dsn ≢ [])
          × IsVisited (server_config cfg) p.requests)
        (parse p.parse_int serve_flags args)
        (λ values.
          on_settings (load p.parse_duration p.environment)
            (λ cfg. serve_with p (with_addr (text_of values (codes "addr") []) cfg) m) m)
        m
        (λ values.
          settings_served (text_of values (codes "addr") []) m
            (load p.parse_duration p.environment))) [
              | inl same ↦ inl same
              | inr (values, flags, (cfg, settings, named, visited)) ↦ inr (record {
                values = values;
                cfg = cfg;
                flags = flags;
                settings = settings;
                named = named;
                visited = visited;
              })
            ]
