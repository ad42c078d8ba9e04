-- ===== src/Cmd/Start.antt =====
-- How the commands of cmd/dokploy-migrator/main.go begin: their flags and the settings.
use dokploymigrator.Base.{ℕ, Text, List, text_eq, Result, ok, err}
use dokploymigrator.Config.{Config, ConfigError, load}
use dokploymigrator.Cmd.Flags.{Formal, Value, parse}
use dokploymigrator.Cmd.Runtime.{Process, Machine, CliError, config_error}

-- How `run` ends: `os.Args[2:]` is out of range, the flags end the process, or there is a result.
pub data Exit : Type 0 where
  panicked : Exit
  exited : ℕ → Exit
  returned : Result CliError (Unit {0}) → Exit

abbrev pub on_values :
    Result ℕ (List (Text × Value))
    → (List (Text × Value) → Result CliError (Unit {0}) × Machine)
    → Machine
    → Exit × Machine
on_values (err status) next m = (exited status, m)
on_values (ok values) next m = let (r, m') = next values in (returned r, m')

-- `flags.Parse`, and what follows with the values.
unfoldable pub with_flags :
    Process
    → Formal
    → List Text
    → (List (Text × Value) → Result CliError (Unit {0}) × Machine)
    → Machine
    → Exit × Machine
unfolding parse
with_flags p formal args next m = on_values (parse p.parse_int formal args) next m

abbrev pub on_settings :
    Result ConfigError Config
    → (Config → Result CliError (Unit {0}) × Machine)
    → Machine
    → Result CliError (Unit {0}) × Machine
on_settings (err e) next m = (err (config_error e), m)
on_settings (ok cfg) next m = next cfg

-- `config.Load`, and what follows with the settings.
unfoldable pub with_config :
    Process
    → (Config → Result CliError (Unit {0}) × Machine)
    → Machine
    → Result CliError (Unit {0}) × Machine
unfolding load
with_config p next m = on_settings (load p.parse_duration p.environment) next m
