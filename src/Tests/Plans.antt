-- ===== src/Tests/Plans.antt =====
-- Tests of `BuildRetargetPlan` of internal/dokploydb/postgres.go.
use dokploymigrator.Base.{
  Text, subst, codes, [], ◌∷◌, ok, ◌≡◌, ◌≢◌, refl, text_eq, nat_eq, option_eq, less, trim_space,
  arith, sort_by, decimal, some, none, false,
}
use dokploymigrator.Model.{MigrationPlan, mode_dead_recovery, normalize_migration_mode}
use dokploymigrator.Dokploydb.Postgres.{no_faults, count_rows, has_column}
use dokploymigrator.Dokploydb.Retarget.Undo.{KeyedIn}
use dokploymigrator.Dokploydb.Plan.{build_retarget_plan}
use dokploymigrator.State.Tables.{job_succeeded, job_paused, has_job, Store}
use dokploymigrator.Jobs.Manager.{World, ◌>>=◌}
use dokploymigrator.Jobs.Postgres.{postgres}
use dokploymigrator.Jobs.Workflow.{apply}
use dokploymigrator.Jobs.Workflow.Steps.{Ended}
use dokploymigrator.Dokploydb.Adapter.{validate_schema}
use dokploymigrator.Dokploydb.Resources.{list_server_resources}
use dokploymigrator.Dokploydb.Columns.{resource_id_column}
use dokploymigrator.State.Jobs.{create_job, update_job, Job}
use dokploymigrator.State.Audit.{append_event}
use dokploymigrator.Jobs.Planning
use dokploymigrator.Jobs.Subset.{is_incomplete, identity_of}
use dokploymigrator.Jobs.Planning.Accepted.{Stored, fresh_job, plan-Stored}
use dokploymigrator.Jobs.Planned.{plan-applied}
use mathlib.Core.Option.{some-injective}
use dokploymigrator.State.Invariant.{IsWellFormed}
use dokploymigrator.Tests.{
  store, store-IsWellFormed, world, database, sha256, adapter, row, plan, connection, setup, env,
  options,
}

abbrev planned : MigrationPlan
planned = record plan {
  id = codes "plan-100";
  created_at = 100;
  rows = record row { name = [] } ∷ [];
}

built :
    build_retarget_plan sha256 less no_faults adapter
      (100, 100)
      (codes " a")
      (codes "b ")
      (database (codes "a"))
    ≡ ok planned
unfolding build_retarget_plan text_eq trim_space validate_schema list_server_resources sort_by
    resource_id_column has_column option_eq decimal
built = refl

written : trim_space (codes "2a") ≢ []
unfolding trim_space
written e = ground arith

named : trim_space (codes "r1") ≢ []
unfolding trim_space
named e = ground arith

keyed : KeyedIn (database (codes "a")) (record row { name = [] })
unfolding count_rows text_eq option_eq
keyed = omega arith

abbrev planned_job : Job
planned_job = record {
  id = codes "job-5000000000";
  source_server_id = codes "a";
  target_server_id = codes "b";
  mode = mode_dead_recovery;
  status = some job_paused;
  checkpoint = codes "dry-run-ready";
  created_at = none;
  updated_at = none;
}

returned :
    (Planning.plan
      (postgres connection)
      setup
      env
      (codes " a")
      (codes "b ")
      mode_dead_recovery
      world).0
    ≡ ok (planned_job, planned)
unfolding Planning.plan build_retarget_plan text_eq trim_space validate_schema list_server_resources
    sort_by resource_id_column has_column option_eq decimal ◌>>=◌ normalize_migration_mode
    create_job has_job append_event update_job
returned = refl

sound : (s : Store) → some store ≡ some s → IsWellFormed s
sound s e = subst IsWellFormed (some-injective store s e) store-IsWellFormed

plan-Stored_example :
    (m : Text) × (normalize_migration_mode mode_dead_recovery ≡ some m)
    × Stored
        (postgres connection)
        setup
        env
        (fresh_job (postgres connection) setup env (codes " a") (codes "b ") mode_dead_recovery m)
        planned_job
        planned
        world
        (Planning.plan
          (postgres connection)
          setup
          env
          (codes " a")
          (codes "b ")
          mode_dead_recovery
          world).1
plan-Stored_example =
    plan-Stored (postgres connection) setup env (codes " a") (codes "b ") mode_dead_recovery world
      planned_job planned sound returned

abbrev planned_world : World (postgres connection)
planned_world =
    (Planning.plan (postgres connection) setup env (codes " a") (codes "b ") mode_dead_recovery
      world).1

complete : is_incomplete (identity_of (record row { name = [] })) ≡ false
unfolding is_incomplete text_eq identity_of trim_space
complete = refl

plan-applied_example :
    ((apply
        (postgres connection)
        setup
        env
        (codes "job-5000000000")
        planned
        options
        planned_world).0
      ≡ ok tt)
    × Ended
        (postgres connection)
        setup
        env
        (codes "job-5000000000")
        job_succeeded
        (codes "metadata-retarget-complete")
        (apply
          (postgres connection)
          setup
          env
          (codes "job-5000000000")
          planned
          options
          planned_world).1
plan-applied_example =
    plan-applied connection setup env env (codes " a") (codes "b ") mode_dead_recovery planned_job
      planned options world (database (codes "a")) store-IsWellFormed refl returned
      (record {
        some_row = λ e. ground arith;
        hash = written;
        ids = (named, tt);
        keys = (keyed, tt);
      })
      (complete, tt) (tt, tt) (λ n. refl) refl refl refl
