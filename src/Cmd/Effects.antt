-- ===== src/Cmd/Effects.antt =====
-- When the program of cmd/dokploy-migrator/main.go changes a Dokploy database, and when it panics.
use dokploymigrator.Base.{
  Text, codes, List, Option, none, some, ◌||◌, ◌==◌, text_eq, if◌then◌else◌, Bool-cases, ◌≡◌, refl,
  arith, ◌⊎◌, inl, inr,
}
use dokploymigrator.Cmd.Runtime.{Process, Machine}
use dokploymigrator.Cmd.Start.{Exit}
use dokploymigrator.Cmd.Serve.{serve_command}
use dokploymigrator.Cmd.Writes.{apply_command, rollback_command}
use dokploymigrator.Cmd.Run.{run, rest_of, command_of, with_rest, help_or_unknown}
use dokploymigrator.Cmd.Moves.{IsUnmoved}
use dokploymigrator.Cmd.Confirmed.{
  IsApplied, IsRolledBack, apply_command-IsApplied, rollback_command-IsRolledBack,
}
use dokploymigrator.Cmd.Quiet.{
  IsServed, plan_command-IsUnmoved, list_jobs_command-IsUnmoved, serve_command-IsServed,
}

module _ (p : Process) where
  -- Why a database may have changed.
  pub data IsAsked (args : List Text) (m m' : Machine) : Type 0 where
    by_apply :
        command_of args ≡ codes "apply"
        → (rest : List Text) → rest_of args ≡ some rest
        → IsApplied p rest m m'
        → IsAsked args m m'
    by_rollback :
        command_of args ≡ codes "rollback"
        → (rest : List Text) → rest_of args ≡ some rest
        → IsRolledBack p rest m m'
        → IsAsked args m m'
    by_serve :
        command_of args ≡ codes "serve"
        → (rest : List Text) → rest_of args ≡ some rest
        → IsServed p rest
        → IsAsked args m m'

  with_rest-moves :
      (C : List Text → Machine → Type 0) (next : List Text → Machine → Exit × Machine)
      (rest : Option (List Text)) (m : Machine)
      → ((args : List Text) → IsUnmoved m (next args m).1 ⊎ C args (next args m).1)
      → IsUnmoved m (with_rest next rest m).1
        ⊎ ((args : List Text) × (rest ≡ some args) × C args (with_rest next rest m).1)
  with_rest-moves C next none m moves = inl (λ dsn. refl)
  with_rest-moves C next (some args) m moves = elim (moves args) [
    | inl same ↦ inl same
    | inr move ↦ inr (args, refl, move)
  ]

  -- A branch of the dispatch that changes nothing.
  still_rest :
      (next : List Text → Machine → Exit × Machine) (rest : Option (List Text)) (m : Machine)
      → ((args : List Text) → IsUnmoved m (next args m).1)
      → IsUnmoved m (with_rest next rest m).1
  still_rest next none m still = λ dsn. refl
  still_rest next (some args) m still = still args

  -- The test of one case of the dispatch, and the cases behind it.
  on_case :
      (args : List Text) (name : Text) (m : Machine) (this others : Exit × Machine)
      → (command_of args ≡ name → IsUnmoved m this.1 ⊎ IsAsked args m this.1)
      → IsUnmoved m others.1 ⊎ IsAsked args m others.1
      → let ended = if command_of args == name then this else others in
        IsUnmoved m ended.1 ⊎ IsAsked args m ended.1
  on_case args name m this others asked rest = elim (Bool-cases (command_of args == name)) [
    | inl is ↦ rw is (asked (ground arith))
    | inr other ↦ rw other rest
  ]

  help_still : (command : Text) (m : Machine) → IsUnmoved m (help_or_unknown command m).1
  help_still command m dsn =
      elim (Bool-cases
        (command == codes "help" || command == codes "-h" || command == codes "--help")) [
          | inl help ↦ rw help refl
          | inr unknown ↦ rw unknown refl
        ]

  serve_case :
      (args : List Text) (m : Machine)
      → command_of args ≡ codes "serve"
      → let ended = with_rest (serve_command p) (rest_of args) m in
        IsUnmoved m ended.1 ⊎ IsAsked args m ended.1
  serve_case args m is =
      elim (with_rest-moves (λ rest m'. IsServed p rest) (serve_command p) (rest_of args) m
        (λ rest. serve_command-IsServed p rest m)) [
          | inl same ↦ inl same
          | inr (rest, behind, served) ↦ inr (by_serve is rest behind served)
        ]

  apply_case :
      (args : List Text) (m : Machine)
      → command_of args ≡ codes "apply"
      → let ended = with_rest (apply_command p) (rest_of args) m in
        IsUnmoved m ended.1 ⊎ IsAsked args m ended.1
  apply_case args m is =
      elim (with_rest-moves (λ rest m'. IsApplied p rest m m') (apply_command p) (rest_of args) m
        (λ rest. apply_command-IsApplied p rest m)) [
          | inl same ↦ inl same
          | inr (rest, behind, applied) ↦ inr (by_apply is rest behind applied)
        ]

  rollback_case :
      (args : List Text) (m : Machine)
      → command_of args ≡ codes "rollback"
      → let ended = with_rest (rollback_command p) (rest_of args) m in
        IsUnmoved m ended.1 ⊎ IsAsked args m ended.1
  rollback_case args m is =
      elim (with_rest-moves (λ rest m'. IsRolledBack p rest m m') (rollback_command p)
        (rest_of args) m (λ rest. rollback_command-IsRolledBack p rest m)) [
          | inl same ↦ inl same
          | inr (rest, behind, rolled_back) ↦ inr (by_rollback is rest behind rolled_back)
        ]

  -- A run of the program leaves every Dokploy database as it is, unless it is asked for more: by
  -- `apply` with a job, a plan file and the confirmation, which moves exactly the resources of the
  -- plan of that file, by `rollback` with a job and a plan file, which moves them back, or by `serve`
  -- with settings that name a database, of whose requests some one has the credentials and the admin
  -- token.
  pub run-IsAsked :
      (args : List Text) (m : Machine)
      → IsUnmoved m (run p args m).1 ⊎ IsAsked args m (run p args m).1
  unfolding run
  run-IsAsked args m = on_case args (codes "serve") m _ _ (serve_case args m) (
      on_case args (codes "plan") m _ _
        (λ is. inl (still_rest _ (rest_of args) m (λ rest. plan_command-IsUnmoved p rest m)))
        (on_case args (codes "apply") m _ _ (apply_case args m) (
          on_case args (codes "rollback") m _ _ (rollback_case args m) (
            on_case args (codes "jobs") m _ _
              (λ is.
                inl (still_rest _ (rest_of args) m (λ rest. list_jobs_command-IsUnmoved p rest m)))
              (inl (help_still (command_of args) m))))))
