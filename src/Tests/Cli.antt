-- ===== src/Tests/Cli.antt =====
-- Runs of the command line at concrete arguments.
use dokploymigrator.Base.{
  ℕ, Text, codes, List, [], ◌∷◌, Option, none, some, true, leb, ◌==◌, ◌||◌, text_eq, if◌then◌else◌,
  length, atoi, ok, err, ◌≡◌, ◌≢◌, ◌⊎◌, ◌↔◌, ◌≤◌, refl, map, nat_eq, trim_space, option_eq, decimal,
}
use dokploymigrator.Jobs.Manager.{◌>>=◌, World}
use dokploymigrator.Config.{load}
use dokploymigrator.State.Jobs.{get_job, update_job}
use dokploymigrator.State.Tables.{find_job, has_job, Failure, failure}
use dokploymigrator.State.Audit.{list_events, append_event, save_report}
use dokploymigrator.Jobs.Subset.{validate_plan_subset}
use dokploymigrator.Jobs.Workflow.{apply, rollback}
use dokploymigrator.Dokploydb.Guard.{validate_retarget_plan_for_write, validate_write_schema}
use dokploymigrator.Dokploydb.Adapter.{schema_fingerprint, open_postgres}
use dokploymigrator.Dokploydb.Retarget.{apply_row, retarget_sql, apply_retarget_plan}
use dokploymigrator.Dokploydb.Columns.{is_retarget_table, validated_id_column}
use dokploymigrator.Dokploydb.Postgres.{exec_update, has_column, matches, Database}
use dokploymigrator.Dokploydb.Retarget.Effect.{moved}
use dokploymigrator.State.Opening.{blank, open_state, store_of, disk_of, migrate_failed}
use dokploymigrator.State.Opening.Lossless.{open_state-idempotent}
use dokploymigrator.Jobs.Postgres.{postgres, rollback-moves}
use dokploymigrator.Server.Listen.{closed}
use dokploymigrator.Cmd.Flags.{text_value, parse}
use dokploymigrator.Cmd.Runtime.{Process, Machine, apply_confirmation_required, read_plan}
use dokploymigrator.Cmd.Start.{panicked, returned}
use dokploymigrator.Cmd.Writes.{apply_flags}
use dokploymigrator.Cmd.Run.{run}
use dokploymigrator.Cmd.Databases.{read_plan-ok}
use dokploymigrator.Cmd.Moves.{IsUnmoved}
use dokploymigrator.Cmd.Effects.{IsAsked, run-IsAsked}
use dokploymigrator.Cmd.Panics.{is_panic, run-is_panic}
use dokploymigrator.Tests.{
  connection, setup, env, plan, store, row, database, approval, delete_request,
}

-- The environment: every variable that is asked for has a value.
abbrev variables : Text → Text
variables name =
    if name == codes "MIGRATOR_SCHEMA_ALLOWLIST" || name == codes "MIGRATOR_DEAD_AFTER"
    then []
    else codes "x"

abbrev process : Process
process = record {
  environment = variables;
  parse_duration = λ s. none;
  parse_int = atoi;
  connection = connection;
  setup = setup;
  env = env;
  sql_open = λ dsn. none;
  opening = λ path. none;
  migrating = λ n. none;
  decode_direct = λ body. if body == codes "plan" then ok plan else err (codes "no plan");
  decode_wrapped = λ body. if body == codes "wrapped" then ok plan else err (codes "no plan");
  encode = λ planned. ok (codes "encoded");
  encode_jobs = λ jobs. ok (codes "jobs");
  writing = λ path. none;
  requests = (env, delete_request) ∷ [];
  ending = closed;
}

abbrev machine : Machine
machine = record {
  disks = λ path. disk_of store;
  databases = λ dsn. database (codes "a");
  files = λ path. ok (if path == codes "plan.json" then codes "wrapped" else codes "other");
  printed = [];
}

abbrev apply_args : List Text
apply_args =
    codes "-job"
    ∷ codes "j"
    ∷ codes "--plan=plan.json"
    ∷ codes "-schema-hash-approval"
    ∷ approval
    ∷ codes "-confirm"
    ∷ codes "APPLY"
    ∷ []

abbrev called : List Text → List Text
called args = codes "dokploy-migrator" ∷ args

flags_parsed :
    parse atoi apply_flags apply_args
    ≡ ok (
        (codes "confirm", text_value (codes "APPLY"))
        ∷ (codes "schema-hash-approval", text_value approval)
        ∷ (codes "plan", text_value (codes "plan.json"))
        ∷ (codes "job", text_value (codes "j"))
        ∷ [])
unfolding parse nat_eq text_eq
flags_parsed = refl

flag_unknown : parse atoi apply_flags (codes "-force" ∷ []) ≡ err 2
unfolding parse nat_eq text_eq
flag_unknown = refl

flag_without_value : parse atoi apply_flags (codes "-job" ∷ []) ≡ err 2
unfolding parse nat_eq text_eq
flag_without_value = refl

flag_help : parse atoi apply_flags (codes "--help" ∷ codes "-job" ∷ []) ≡ err 0
unfolding parse nat_eq text_eq
flag_help = refl

opened_blank :
    open_state none (λ n. none) blank
    ≡ (ok tt, record { jobs = some []; events = some ([], 1); reports = some [] })
unfolding open_state
opened_blank = refl

opened_half :
    open_state none (λ n. if leb n 3 then none else some (failure 1)) blank
    ≡ (err (migrate_failed (failure 1)), record blank { jobs = some []; events = some ([], 1) })
unfolding open_state
opened_half = refl

no_confirmation :
    (run process
      (called (codes "apply" ∷ codes "-job" ∷ codes "j" ∷ codes "-plan" ∷ codes "plan.json" ∷ []))
      machine).0
    ≡ returned (err apply_confirmation_required)
unfolding run text_eq nat_eq
no_confirmation = refl

read_wrapped : read_plan process (codes "plan.json") machine ≡ ok plan
unfolding read_plan text_eq
read_wrapped = refl

applied : (run process (called (codes "apply" ∷ apply_args)) machine).0 ≡ returned (ok tt)
unfolding run read_plan load open_state apply apply_retarget_plan ◌>>=◌ text_eq trim_space get_job
    find_job has_job list_events validate_plan_subset update_job append_event save_report
    validate_retarget_plan_for_write schema_fingerprint validate_write_schema apply_row
    is_retarget_table validated_id_column exec_update has_column retarget_sql nat_eq matches
    option_eq decimal open_postgres
applied = refl

without_command : (run process (called []) machine).0 ≡ panicked
unfolding run text_eq
without_command = refl

opened_ok : (open_state none (λ n. none) blank).0 ≡ ok tt
unfolding open_state
opened_ok = refl

open_state-idempotent_example :
    ((open_state none (λ n. none) blank).1 ≡ disk_of (store_of blank))
    × ((opening' : Option Failure) (faults' : ℕ → Option Failure)
        → (open_state opening' faults' (open_state none (λ n. none) blank).1).1
          ≡ (open_state none (λ n. none) blank).1)
open_state-idempotent_example = open_state-idempotent none (λ n. none) blank opened_ok

read_plan-ok_example :
    (body : Text) × (machine.files (codes "plan.json") ≡ ok body)
    × (plan.id ≢ [])
    × ((process.decode_direct body ≡ ok plan) ⊎ (process.decode_wrapped body ≡ ok plan))
read_plan-ok_example = read_plan-ok process (codes "plan.json") machine plan read_wrapped

abbrev run_apply : List Text
run_apply = called (codes "apply" ∷ apply_args)

run-IsAsked_example :
    IsUnmoved machine (run process run_apply machine).1
    ⊎ IsAsked process run_apply machine (run process run_apply machine).1
run-IsAsked_example = run-IsAsked process run_apply machine

run-is_panic_example : (is_panic (run process run_apply machine).0 ≡ true) ↔ (length run_apply ≤ 1)
run-is_panic_example = run-is_panic process run_apply machine

abbrev moved_world : World (postgres connection)
moved_world = record { store = some store; db = some (database (codes "b")) }

rollback-moves_example :
    let w = (rollback (postgres connection) setup env (codes "j") plan approval moved_world).1 in
    (w.db ≡ moved_world.db)
    ⊎ ((db db' : Database) × (moved_world.db ≡ some db)
        × (w.db ≡ some db')
        × ((t : Text) → db'.rows t ≡ map (moved (codes "b") (codes "a") (row ∷ []) t) (db.rows t)))
rollback-moves_example = rollback-moves connection setup env (codes "j") plan approval moved_world
