-- ===== src/Cmd/Confirmed.antt =====
-- What the command line of cmd/dokploy-migrator/main.go asks for before a Dokploy database changes.
use dokploymigrator.Base.{
  ℕ, Text, codes, List, [], ◌||◌, ◌==◌, ◌!=◌, text_eq, Result, ok, err, Bool-cases, ◌≡◌, ◌≢◌, refl,
  arith, ◌⊎◌, inl, inr,
}
use dokploymigrator.Model.{MigrationPlan}
use dokploymigrator.Config.{Config, load}
use dokploymigrator.Jobs.Workflow.{ApplyOptions, apply_confirmation_text}
use dokploymigrator.Cmd.Flags.{Value, parse, text_of}
use dokploymigrator.Cmd.Runtime.{Process, Machine, CliError}
use dokploymigrator.Cmd.Start.{on_values, on_settings, with_flags, with_config}
use dokploymigrator.Cmd.Writes.{
  apply_with, apply_checked, apply_command, apply_flags, rollback_with, rollback_checked,
  rollback_command, rollback_flags,
}
use dokploymigrator.Cmd.Moves.{IsUnmoved, IsFileMove, apply_with-moves, rollback_with-moves}

module _ (p : Process) where
  -- The flags of `apply` name a job and a plan file and confirm, the settings can be loaded, and
  -- the resources that the plan of the file names have moved from the source to the target server.
  pub record IsApplied (args : List Text) (m m' : Machine) : Type 0 where
    pub values : List (Text × Value)
    pub cfg : Config
    pub flags : parse p.parse_int apply_flags args ≡ ok values
    pub job : text_of values (codes "job") [] ≢ []
    pub plan_file : text_of values (codes "plan") [] ≢ []
    pub confirmed : text_of values (codes "confirm") [] ≡ codes "APPLY"
    pub settings : load p.parse_duration p.environment ≡ ok cfg
    pub move :
        IsFileMove p cfg
          (text_of values (codes "plan") [])
          (λ plan. plan.source_server_id)
          (λ plan. plan.target_server_id)
          m
          m'

  -- The same for `rollback`, whose resources move from the target to the source server.
  pub record IsRolledBack (args : List Text) (m m' : Machine) : Type 0 where
    pub values : List (Text × Value)
    pub cfg : Config
    pub flags : parse p.parse_int rollback_flags args ≡ ok values
    pub job : text_of values (codes "job") [] ≢ []
    pub plan_file : text_of values (codes "plan") [] ≢ []
    pub settings : load p.parse_duration p.environment ≡ ok cfg
    pub move :
        IsFileMove p cfg
          (text_of values (codes "plan") [])
          (λ plan. plan.target_server_id)
          (λ plan. plan.source_server_id)
          m
          m'

  module _ (source target : MigrationPlan → Text) (path : Text)
      (next : Config → Result CliError (Unit {0}) × Machine) (m : Machine) where
    settings_move :
        (loaded : Result _ Config)
        → ((cfg : Config)
            → IsUnmoved m (next cfg).1 ⊎ IsFileMove p cfg path source target m (next cfg).1)
        → IsUnmoved m (on_settings loaded next m).1
          ⊎ ((cfg : Config) × (loaded ≡ ok cfg)
              × IsFileMove p cfg path source target m (on_settings loaded next m).1)
    settings_move (err e) moves = inl (λ dsn. refl)
    settings_move (ok cfg) moves = elim (moves cfg) [
      | inl same ↦ inl same
      | inr move ↦ inr (cfg, refl, move)
    ]

  apply_checked-moves :
      (job_id path : Text) (opts : ApplyOptions) (m : Machine)
      → IsUnmoved m (apply_checked p job_id path opts m).1
        ⊎ ((job_id ≢ [])
            × (path ≢ [])
            × (opts.confirmation_text ≡ codes "APPLY")
            × (cfg : Config) × (load p.parse_duration p.environment ≡ ok cfg)
            × IsFileMove p cfg path
                (λ plan. plan.source_server_id)
                (λ plan. plan.target_server_id)
                m
                (apply_checked p job_id path opts m).1)
  unfolding apply_checked with_config
  apply_checked-moves job_id path opts m = elim (Bool-cases (job_id == [] || path == [])) [
    | inl missing ↦ inl (λ dsn. rw missing refl)
    | inr given ↦ elim (Bool-cases (opts.confirmation_text != apply_confirmation_text)) [
      | inl other ↦ inl (λ dsn. rw (given, other) refl)
      | inr confirmed ↦
          elim (settings_move _ _ path (apply_with p job_id path opts m) m
            (load p.parse_duration p.environment)
            (λ cfg. apply_with-moves p cfg job_id path opts m)) [
              | inl same ↦ inl (λ dsn. rw (given, confirmed) (same dsn))
              | inr (cfg, loaded, move) ↦ inr (
                ground arith,
                ground arith,
                ground arith,
                cfg,
                loaded,
                rw (given, confirmed) move,
              )
            ]
    ]
  ]

  rollback_checked-moves :
      (job_id path approval : Text) (m : Machine)
      → IsUnmoved m (rollback_checked p job_id path approval m).1
        ⊎ ((job_id ≢ [])
            × (path ≢ [])
            × (cfg : Config) × (load p.parse_duration p.environment ≡ ok cfg)
            × IsFileMove p cfg path
                (λ plan. plan.target_server_id)
                (λ plan. plan.source_server_id)
                m
                (rollback_checked p job_id path approval m).1)
  unfolding rollback_checked with_config
  rollback_checked-moves job_id path approval m = elim (Bool-cases (job_id == [] || path == [])) [
    | inl missing ↦ inl (λ dsn. rw missing refl)
    | inr given ↦
        elim (settings_move _ _ path (rollback_with p job_id path approval m) m
          (load p.parse_duration p.environment)
          (λ cfg. rollback_with-moves p cfg job_id path approval m)) [
            | inl same ↦ inl (λ dsn. rw given (same dsn))
            | inr (cfg, loaded, move) ↦ inr (ground arith, ground arith, cfg, loaded, rw given move)
          ]
  ]

  -- A flag error changes nothing; else what the values lead to decides.
  pub values_move :
      (C : List (Text × Value) → Machine → Type 0) (parsed : Result ℕ (List (Text × Value)))
      (next : List (Text × Value) → Result CliError (Unit {0}) × Machine) (m : Machine)
      → ((values : List (Text × Value)) → IsUnmoved m (next values).1 ⊎ C values (next values).1)
      → IsUnmoved m (on_values parsed next m).1
        ⊎ ((values : List (Text × Value)) × (parsed ≡ ok values)
            × C values (on_values parsed next m).1)
  values_move C (err status) next m moves = inl (λ dsn. refl)
  values_move C (ok values) next m moves = elim (moves values) [
    | inl same ↦ inl same
    | inr move ↦ inr (values, refl, move)
  ]

  -- The command `apply` leaves every Dokploy database as it is, or its flags name a job and a plan
  -- file and confirm with the word APPLY, and in the database that the settings name exactly the
  -- resources that the plan of that file names and that were on its source server have moved to its
  -- target server.
  pub apply_command-IsApplied :
      (args : List Text) (m : Machine)
      → IsUnmoved m (apply_command p args m).1 ⊎ IsApplied args m (apply_command p args m).1
  unfolding apply_command with_flags
  apply_command-IsApplied args m =
      elim (values_move
        (λ values m'.
          (text_of values (codes "job") [] ≢ [])
          × (text_of values (codes "plan") [] ≢ [])
          × (text_of values (codes "confirm") [] ≡ codes "APPLY")
          × (cfg : Config) × (load p.parse_duration p.environment ≡ ok cfg)
          × IsFileMove p cfg (text_of values (codes "plan") []) (λ plan. plan.source_server_id)
              (λ plan. plan.target_server_id) m m')
        (parse p.parse_int apply_flags args) _ m (λ values. apply_checked-moves _ _ _ m)) [
          | inl same ↦ inl same
          | inr (values, flags, (job, plan_file, confirmed, cfg, settings, move)) ↦ inr (record {
            values = values;
            cfg = cfg;
            flags = flags;
            job = job;
            plan_file = plan_file;
            confirmed = confirmed;
            settings = settings;
            move = move;
          })
        ]

  pub rollback_command-IsRolledBack :
      (args : List Text) (m : Machine)
      → IsUnmoved m (rollback_command p args m).1
        ⊎ IsRolledBack args m (rollback_command p args m).1
  unfolding rollback_command with_flags
  rollback_command-IsRolledBack args m =
      elim (values_move
        (λ values m'.
          (text_of values (codes "job") [] ≢ [])
          × (text_of values (codes "plan") [] ≢ [])
          × (cfg : Config) × (load p.parse_duration p.environment ≡ ok cfg)
          × IsFileMove p cfg (text_of values (codes "plan") []) (λ plan. plan.target_server_id)
              (λ plan. plan.source_server_id) m m')
        (parse p.parse_int rollback_flags args) _ m (λ values. rollback_checked-moves _ _ _ m)) [
          | inl same ↦ inl same
          | inr (values, flags, (job, plan_file, cfg, settings, move)) ↦ inr (record {
            values = values;
            cfg = cfg;
            flags = flags;
            job = job;
            plan_file = plan_file;
            settings = settings;
            move = move;
          })
        ]
