-- ===== src/Tests/Workflow.antt =====
-- Tests of the workflows of internal/jobs/jobs.go on the small database and its store.
use dokploymigrator.Base.{
  Text, codes, [], ◌∷◌, map, some, ok, err, ◌≡◌, ◌≢◌, refl, ◌⊎◌, ◌↔◌, All, text_eq, trim_space,
  nat_eq, option_eq, decimal,
}
use dokploymigrator.State.Tables.{Store, job_succeeded, job_rolled_back, has_job, find_job}
use dokploymigrator.Dokploydb.Postgres.{Database, exec_update, has_column, matches}
use dokploymigrator.Dokploydb.Retarget.Effect.{moved}
use dokploymigrator.Jobs.Subset.{validate_plan_subset, is_incomplete, identity_of}
use dokploymigrator.Jobs.Subset.Sound.{IsPart, IsComplete}
use dokploymigrator.Jobs.Subset.Complete.{validate_plan_subset_iff}
use dokploymigrator.Jobs.Manager.{World, adapter_error, ◌>>=◌}
use dokploymigrator.Jobs.Postgres.{postgres, postgres-IsAtomic, apply-moves}
use dokploymigrator.Jobs.Workflow.{apply, rollback, apply_confirmation_text, ApplyOptions}
use dokploymigrator.Jobs.Workflow.Review.{IsReviewed, apply-IsReviewed, rollback-IsReviewed}
use dokploymigrator.Jobs.Workflow.Write.{Written}
use dokploymigrator.Jobs.Workflow.Steps.{Ended}
use dokploymigrator.Jobs.Workflow.Outcome.{
  apply-succeeded, rollback-succeeded, apply-all_or_nothing,
}
use dokploymigrator.Jobs.Workflow.Failed.{Failed, apply-Failed, rollback-Failed}
use dokploymigrator.Jobs.Validation.{validate_job_plan}
use dokploymigrator.Dokploydb.Adapter.{AdapterError, guard, schema_fingerprint}
use dokploymigrator.Dokploydb.Guard.{
  approval_mismatch, validate_retarget_plan_for_write, validate_write_schema,
}
use dokploymigrator.State.Jobs.{get_job, update_job}
use dokploymigrator.State.Audit.{list_events, append_event, save_report}
use dokploymigrator.Dokploydb.Retarget.{
  apply_row, retarget_sql, apply_retarget_plan, rollback_retarget_plan, reverse_rows,
}
use dokploymigrator.Dokploydb.Columns.{is_retarget_table, validated_id_column}
use dokploymigrator.Tests.{
  connection, setup, env, plan, options, world, store, row, database, approval,
}

abbrev after : World (postgres connection)
after = (apply (postgres connection) setup env (codes "j") plan options world).1

apply-moves_example :
    (after.db ≡ world.db)
    ⊎ ((db db' : Database) × (world.db ≡ some db)
        × (after.db ≡ some db')
        × ((t : Text) → db'.rows t ≡ map (moved (codes "a") (codes "b") (row ∷ []) t) (db.rows t)))
apply-moves_example = apply-moves connection setup env (codes "j") plan options world

apply-IsReviewed_example :
    ((apply (postgres connection) setup env (codes "j") plan options world).0 ≢ ok tt)
      × (after ≡ world)
    ⊎ (apply_confirmation_text ≡ apply_confirmation_text)
      × (s : Store) × (some store ≡ some s)
      × IsReviewed (codes "j") plan s
apply-IsReviewed_example =
    apply-IsReviewed (postgres connection) setup env (codes "j") plan options world

abbrev moved_world : World (postgres connection)
moved_world = record { store = some store; db = some (database (codes "b")) }

abbrev rolled_back : World (postgres connection)
rolled_back = (rollback (postgres connection) setup env (codes "j") plan approval moved_world).1

rollback-IsReviewed_example :
    ((rollback (postgres connection) setup env (codes "j") plan approval moved_world).0 ≢ ok tt)
      × (rolled_back ≡ moved_world)
    ⊎ (s : Store) × (some store ≡ some s) × IsReviewed (codes "j") plan s
rollback-IsReviewed_example =
    rollback-IsReviewed (postgres connection) setup env (codes "j") plan approval moved_world

apply_is_ok : (apply (postgres connection) setup env (codes "j") plan options world).0 ≡ ok tt
unfolding apply apply_retarget_plan ◌>>=◌ text_eq trim_space get_job find_job has_job list_events
    validate_plan_subset update_job append_event save_report validate_retarget_plan_for_write
    schema_fingerprint validate_write_schema apply_row is_retarget_table validated_id_column
    exec_update has_column retarget_sql nat_eq matches option_eq decimal
apply_is_ok = refl

apply-succeeded_example :
    Written
      (postgres connection)
      ((postgres connection).apply_retarget_plan plan approval)
      world
      after
    × Ended
        (postgres connection)
        setup
        env
        (codes "j")
        job_succeeded
        (codes "metadata-retarget-complete")
        after
apply-succeeded_example =
    apply-succeeded (postgres connection) setup env (codes "j") plan options world apply_is_ok

rollback_is_ok :
    (rollback (postgres connection) setup env (codes "j") plan approval moved_world).0 ≡ ok tt
unfolding rollback rollback_retarget_plan reverse_rows ◌>>=◌ text_eq trim_space get_job find_job
    has_job list_events validate_plan_subset update_job append_event save_report
    validate_retarget_plan_for_write schema_fingerprint validate_write_schema apply_row
    is_retarget_table validated_id_column exec_update has_column retarget_sql nat_eq matches
    option_eq decimal
rollback_is_ok = refl

rollback-succeeded_example :
    Written
      (postgres connection)
      ((postgres connection).rollback_retarget_plan plan approval)
      moved_world
      rolled_back
    × Ended
        (postgres connection)
        setup
        env
        (codes "j")
        job_rolled_back
        (codes "metadata-rollback-complete")
        rolled_back
rollback-succeeded_example =
    rollback-succeeded (postgres connection) setup env (codes "j") plan approval moved_world
      rollback_is_ok

apply-all_or_nothing_example :
    (after.db ≡ world.db)
    ⊎ Written
        (postgres connection)
        ((postgres connection).apply_retarget_plan plan approval)
        world
        after
apply-all_or_nothing_example =
    apply-all_or_nothing (postgres connection) setup env (codes "j") plan
      (postgres-IsAtomic connection) options world

abbrev refusal : AdapterError
refusal = guard (approval_mismatch (codes "2b") (codes "2a"))

-- An approval that does not repeat the hash of the schema, which the adapter refuses.
abbrev unapproved : ApplyOptions
unapproved = record options { schema_hash_approval = codes "2b" }

valid : validate_job_plan {E = AdapterError} setup.calendar env (codes "j") plan world.store ≡ ok tt
unfolding validate_job_plan text_eq trim_space get_job find_job list_events validate_plan_subset
valid = refl

moved_valid :
    validate_job_plan {E = AdapterError} setup.calendar env (codes "j") plan moved_world.store
    ≡ ok tt
moved_valid = valid

refused :
    ((postgres connection).apply_retarget_plan plan (codes "2b") (database (codes "a"))).0
    ≡ err refusal
unfolding apply_retarget_plan validate_retarget_plan_for_write validate_write_schema
    schema_fingerprint trim_space text_eq
refused = refl

apply-Failed_example :
    ((apply (postgres connection) setup env (codes "j") plan unapproved world).0
      ≡ err (adapter_error refusal))
    × Failed
        (postgres connection)
        setup
        env
        (codes "j")
        plan
        (λ n. refl)
        (codes "apply-retarget")
        refusal
        ((postgres connection).apply_retarget_plan plan (codes "2b") (database (codes "a"))).1
        (apply (postgres connection) setup env (codes "j") plan unapproved world).1
apply-Failed_example =
    apply-Failed (postgres connection) setup env (codes "j") plan (λ n. refl) unapproved
      (database (codes "a")) refusal world refl refl valid refused

moved_refused :
    ((postgres connection).rollback_retarget_plan plan (codes "2b") (database (codes "b"))).0
    ≡ err refusal
unfolding rollback_retarget_plan apply_retarget_plan reverse_rows validate_retarget_plan_for_write
    validate_write_schema schema_fingerprint trim_space text_eq
moved_refused = refl

rollback-Failed_example :
    ((rollback (postgres connection) setup env (codes "j") plan (codes "2b") moved_world).0
      ≡ err (adapter_error refusal))
    × Failed
        (postgres connection)
        setup
        env
        (codes "j")
        plan
        (λ n. refl)
        (codes "rollback-retarget")
        refusal
        ((postgres connection).rollback_retarget_plan plan (codes "2b") (database (codes "b"))).1
        (rollback (postgres connection) setup env (codes "j") plan (codes "2b") moved_world).1
rollback-Failed_example =
    rollback-Failed (postgres connection) setup env (codes "j") plan (λ n. refl) (codes "2b")
      (database (codes "b")) refusal moved_world refl moved_valid moved_refused

is_part : validate_plan_subset plan plan ≡ ok tt
unfolding validate_plan_subset text_eq trim_space
is_part = refl

complete : All IsComplete (row ∷ [])
unfolding text_eq trim_space is_incomplete identity_of
complete = (refl, tt)

validate_plan_subset_iff_example : (validate_plan_subset plan plan ≡ ok tt) ↔ IsPart plan plan
validate_plan_subset_iff_example = validate_plan_subset_iff plan plan complete (tt, tt)
