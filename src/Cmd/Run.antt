-- ===== src/Cmd/Run.antt =====
-- The dispatch of cmd/dokploy-migrator/main.go on its command.
use dokploymigrator.Base.{
  ℕ, Text, codes, List, [], ◌∷◌, ◌++◌, Option, none, some, ◌||◌, ◌==◌, text_eq, if◌then◌else◌, ok,
  err,
}
use dokploymigrator.Cmd.Runtime.{Process, Machine, unknown_command, usage}
use dokploymigrator.Cmd.Start.{Exit, panicked, exited, returned}
use dokploymigrator.Cmd.Serve.{serve_command}
use dokploymigrator.Cmd.Reports.{plan_command, list_jobs_command}
use dokploymigrator.Cmd.Writes.{apply_command, rollback_command}

-- `os.Args[2:]`; `none` is a slice out of range.
abbrev pub rest_of : List Text → Option (List Text)
rest_of [] = none
rest_of (program ∷ []) = none
rest_of (program ∷ command ∷ args) = some args

abbrev pub command_of : List Text → Text
command_of [] = codes "serve"
command_of (program ∷ []) = codes "serve"
command_of (program ∷ command ∷ args) = command

abbrev pub with_rest :
    (List Text → Machine → Exit × Machine) → Option (List Text) → Machine → Exit × Machine
with_rest next none m = (panicked, m)
with_rest next (some args) m = next args m

-- The case `help` of the dispatch, and its default.
abbrev pub help_or_unknown : Text → Machine → Exit × Machine
help_or_unknown command m =
    if command == codes "help" || command == codes "-h" || command == codes "--help"
    then (returned (ok tt), record m { printed = m.printed ++ usage ∷ [] })
    else (returned (err (unknown_command command)), m)

module _ (p : Process) where
  unfoldable pub run : List Text → Machine → Exit × Machine
  unfolding serve_command plan_command apply_command rollback_command list_jobs_command
  run args m =
      let command = command_of args in
      if command == codes "serve"
      then with_rest (serve_command p) (rest_of args) m
      else if command == codes "plan"
      then with_rest (plan_command p) (rest_of args) m
      else if command == codes "apply"
      then with_rest (apply_command p) (rest_of args) m
      else if command == codes "rollback"
      then with_rest (rollback_command p) (rest_of args) m
      else if command == codes "jobs"
      then with_rest (list_jobs_command p) (rest_of args) m
      else help_or_unknown command m

-- The exit status of the process: `log.Fatal` exits with 1, and a panic with 2.
unfoldable pub exit_status : Exit → ℕ
exit_status panicked = 2
exit_status (exited status) = status
exit_status (returned (ok u)) = 0
exit_status (returned (err e)) = 1
