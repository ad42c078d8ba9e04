-- ===== src/Cmd/Reports.antt =====
-- The commands `plan` and `jobs` of cmd/dokploy-migrator/main.go.
use dokploymigrator.Base.{
  Text, codes, List, [], ◌∷◌, ◌++◌, none, some, true, ◌!=◌, text_eq, if◌then◌else◌, ℤ, pos, Result,
  ok, err, wrap,
}
use dokploymigrator.Model.{MigrationPlan, mode_dead_recovery}
use dokploymigrator.Config.{Config}
use dokploymigrator.State.Tables.{StoreError}
use dokploymigrator.State.Opening.{Disk, OpenError, open_state, store_of}
use dokploymigrator.State.Jobs.{Job, list_jobs_page}
use dokploymigrator.Jobs.Planning.{plan}
use dokploymigrator.Cmd.Flags.{Formal, Value, text_flag, int_flag, text_of, int_of}
use dokploymigrator.Cmd.Runtime.{
  Process, Machine, CliError, state_error, manager_error, store_error, write_plan_file,
  marshal_failed, encoded, put, adapter_of, setup_of, with_runtime,
}
use dokploymigrator.Cmd.Start.{Exit, with_flags, with_config}

abbrev pub plan_flags : Formal
plan_flags =
    (codes "source", text_flag)
    ∷ (codes "target", text_flag)
    ∷ (codes "mode", text_flag)
    ∷ (codes "out", text_flag)
    ∷ []

abbrev pub jobs_flags : Formal
jobs_flags =
    (codes "state", text_flag) ∷ (codes "limit", int_flag) ∷ (codes "offset", int_flag) ∷ []

module _ (p : Process) where
  -- What `plan` does with the encoded plan.
  unfoldable pub put_out : Text → Result Text Text → Machine → Result CliError (Unit {0}) × Machine
  put_out out (err e) m = (err (marshal_failed e), m)
  put_out out (ok text) m =
      if out != []
      then elim (p.writing out) [
        | some e ↦ (err (write_plan_file e), m)
        | none ↦ (ok tt, record m { files = put out (ok text) m.files })
      ]
      else (ok tt, record m { printed = m.printed ++ encoded text ∷ [] })

  abbrev pub finish_plan :
      Text → Result CliError (Job × MigrationPlan) × Machine → Result CliError (Unit {0}) × Machine
  finish_plan out (err e, m) = (err e, m)
  finish_plan out (ok planned, m) = put_out out (p.encode planned) m

  unfoldable pub plan_with :
      Text → Text → Text → Text → Machine → Config → Result CliError (Unit {0}) × Machine
  unfolding with_runtime plan put_out
  plan_with source target mode out m cfg = finish_plan out (
      with_runtime p cfg true
        (λ w.
          let (r, w') = plan (adapter_of p cfg) (setup_of p cfg) p.env source target mode w in
          (wrap manager_error r, w'))
        m)

  -- What `plan` does with its flags and the settings.
  unfoldable pub plan_for :
      List (Text × Value) → Machine → Config → Result CliError (Unit {0}) × Machine
  unfolding plan_with text_of
  plan_for values m cfg =
      plan_with (text_of values (codes "source") []) (text_of values (codes "target") [])
        (text_of values (codes "mode") mode_dead_recovery) (text_of values (codes "out") []) m cfg

  unfoldable pub plan_command : List Text → Machine → Exit × Machine
  unfolding with_flags with_config plan_for
  plan_command args m =
      with_flags p plan_flags args (λ values. with_config p (plan_for values m) m) m

  abbrev pub print_jobs : Machine → Result Text Text → Result CliError (Unit {0}) × Machine
  print_jobs m (err e) = (err (marshal_failed e), m)
  print_jobs m (ok text) = (ok tt, record m { printed = m.printed ++ encoded text ∷ [] })

  abbrev pub listed_jobs :
      Machine → Result StoreError (List Job) → Result CliError (Unit {0}) × Machine
  listed_jobs m (err e) = (err (store_error e), m)
  listed_jobs m (ok jobs) = print_jobs m (p.encode_jobs jobs)

  unfoldable pub opened_jobs :
      ℤ → ℤ → Disk → Machine → Result OpenError (Unit {0}) → Result CliError (Unit {0}) × Machine
  unfolding store_of list_jobs_page
  opened_jobs limit offset disk m (err e) = (err (state_error e), m)
  opened_jobs limit offset disk m (ok u) =
      listed_jobs m (list_jobs_page p.setup.calendar (p.env.fault 0) limit offset (store_of disk))

  unfoldable pub list_jobs_with :
      Text → ℤ → ℤ → Machine → Config → Result CliError (Unit {0}) × Machine
  unfolding open_state opened_jobs
  list_jobs_with state_path limit offset m cfg =
      let path = if state_path != [] then state_path else cfg.state_path in
      let (opened, disk) = open_state (p.opening path) p.migrating (m.disks path) in
      opened_jobs limit offset disk (record m { disks = put path disk m.disks }) opened

  -- What `jobs` does with its flags and the settings.
  unfoldable pub list_jobs_for :
      List (Text × Value) → Machine → Config → Result CliError (Unit {0}) × Machine
  unfolding list_jobs_with text_of int_of
  list_jobs_for values m cfg =
      list_jobs_with (text_of values (codes "state") []) (int_of values (codes "limit") (pos 50))
        (int_of values (codes "offset") (pos 0)) m cfg

  unfoldable pub list_jobs_command : List Text → Machine → Exit × Machine
  unfolding with_flags with_config list_jobs_for
  list_jobs_command args m =
      with_flags p jobs_flags args (λ values. with_config p (list_jobs_for values m) m) m
