-- ===== src/Cmd/Panics.antt =====
-- When the program of cmd/dokploy-migrator/main.go panics: `os.Args[2:]` is evaluated for the default
-- command too.
use dokploymigrator.Base.{
  ℕ, Text, codes, List, [], ◌∷◌, length, true, false, Bool, ◌||◌, ◌==◌, nat_eq, text_eq,
  if◌then◌else◌, Result, ok, err, ◌≡◌, ◌≢◌, refl, arith, ◌↔◌, ◌≤◌, Bool-cases, inl, inr,
}
use dokploymigrator.Cmd.Flags.{Value, Formal, parse}
use dokploymigrator.Cmd.Runtime.{Process, Machine, CliError}
use dokploymigrator.Cmd.Start.{Exit, panicked, exited, returned, on_values, with_flags}
use dokploymigrator.Cmd.Serve.{serve_command, serve_flags}
use dokploymigrator.Cmd.Reports.{plan_command, list_jobs_command, plan_flags, jobs_flags}
use dokploymigrator.Cmd.Writes.{apply_command, rollback_command, apply_flags, rollback_flags}
use dokploymigrator.Cmd.Run.{run, help_or_unknown}

-- Whether the program has panicked.
abbrev pub is_panic : Exit → Bool
is_panic panicked = true
is_panic (exited status) = false
is_panic (returned r) = false

-- Where it has not.
record IsQuiet (ended : Exit × Machine) : Type 0 where
  no_panic : is_panic ended.0 ≡ false

loud : (ended : Exit × Machine) → IsQuiet ended → is_panic ended.0 ≢ true
loud ended quiet h = ground arith

on_values-IsQuiet :
    (parsed : Result ℕ (List (Text × Value)))
    (next : List (Text × Value) → Result CliError (Unit {0}) × Machine) (m : Machine)
    → IsQuiet (on_values parsed next m)
on_values-IsQuiet (err status) next m = record { no_panic = refl }
on_values-IsQuiet (ok values) next m = record { no_panic = refl }

if_IsQuiet :
    (test : Bool) (x y : Exit × Machine) → IsQuiet x → IsQuiet y → IsQuiet (if test then x else y)
if_IsQuiet true x y hx hy = hx
if_IsQuiet false x y hx hy = hy

help-IsQuiet : (command : Text) (m : Machine) → IsQuiet (help_or_unknown command m)
help-IsQuiet command m =
    elim (Bool-cases
      (command == codes "help" || command == codes "-h" || command == codes "--help")) [
        | inl help ↦ record { no_panic = rw help refl }
        | inr unknown ↦ record { no_panic = rw unknown refl }
      ]

module _ (p : Process) where
  with_flags-IsQuiet :
      (formal : Formal) (args : List Text)
      (next : List (Text × Value) → Result CliError (Unit {0}) × Machine) (m : Machine)
      → IsQuiet (with_flags p formal args next m)
  unfolding with_flags
  with_flags-IsQuiet formal args next m = on_values-IsQuiet (parse p.parse_int formal args) next m

  with_command-IsQuiet :
      (program command : Text) (args : List Text) (m : Machine)
      → IsQuiet (run p (program ∷ command ∷ args) m)
  unfolding run serve_command plan_command apply_command rollback_command list_jobs_command
  with_command-IsQuiet program command args m =
      if_IsQuiet (command == codes "serve") _ _ (with_flags-IsQuiet serve_flags args _ m) (
        if_IsQuiet (command == codes "plan") _ _ (with_flags-IsQuiet plan_flags args _ m) (
          if_IsQuiet (command == codes "apply") _ _ (with_flags-IsQuiet apply_flags args _ m) (
            if_IsQuiet (command == codes "rollback") _ _
              (with_flags-IsQuiet rollback_flags args _ m)
              (if_IsQuiet (command == codes "jobs") _ _ (with_flags-IsQuiet jobs_flags args _ m)
                (help-IsQuiet command m)))))

  -- The program panics exactly when it is called without a command: its default `serve` is not
  -- served. With a command, whatever its flags, it ends with a result or an exit status.
  pub run-is_panic :
      (args : List Text) (m : Machine) → (is_panic (run p args m).0 ≡ true) ↔ (length args ≤ 1)
  unfolding run text_eq
  run-is_panic [] m = (λ _. omega arith, λ _. refl)
  run-is_panic (program ∷ []) m = (λ _. omega arith, λ _. refl)
  run-is_panic (program ∷ command ∷ args) m = (
    λ h. absurd (loud _ (with_command-IsQuiet program command args m) h),
    λ h. absurd (omega arith),
  )
