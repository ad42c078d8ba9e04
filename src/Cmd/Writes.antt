-- ===== src/Cmd/Writes.antt =====
-- The commands `apply` and `rollback` of cmd/dokploy-migrator/main.go.
use dokploymigrator.Base.{
  Text, codes, List, [], ◌∷◌, true, ◌||◌, ◌==◌, ◌!=◌, text_eq, if◌then◌else◌, Result, ok, err, wrap,
}
use dokploymigrator.Model.{MigrationPlan}
use dokploymigrator.Config.{Config}
use dokploymigrator.Jobs.Manager.{JobsError}
use dokploymigrator.Dokploydb.Adapter.{AdapterError}
use dokploymigrator.Jobs.Workflow.{ApplyOptions, apply_confirmation_text, apply, rollback}
use dokploymigrator.Jobs.Planning.{plan}
use dokploymigrator.Cmd.Flags.{Formal, text_flag, text_of}
use dokploymigrator.Cmd.Runtime.{
  Process, Machine, CliError, apply_needs_job_and_plan, rollback_needs_job_and_plan,
  apply_confirmation_required, manager_error, adapter_of, setup_of, with_runtime, read_plan,
}
use dokploymigrator.Cmd.Start.{Exit, with_flags, with_config}

abbrev pub apply_flags : Formal
apply_flags =
    (codes "job", text_flag)
    ∷ (codes "plan", text_flag)
    ∷ (codes "schema-hash-approval", text_flag)
    ∷ (codes "confirm", text_flag)
    ∷ []

abbrev pub rollback_flags : Formal
rollback_flags =
    (codes "job", text_flag)
    ∷ (codes "plan", text_flag)
    ∷ (codes "schema-hash-approval", text_flag)
    ∷ []

-- A write of a plan that a file holds.
abbrev pub write_file_plan :
    {W : Type 0}
    → Result CliError MigrationPlan
    → (MigrationPlan → W → Result (JobsError AdapterError) (Unit {0}) × W)
    → W
    → Result CliError (Unit {0}) × W
write_file_plan (err e) write w = (err e, w)
write_file_plan (ok plan) write w = let (r, w') = write plan w in (wrap manager_error r, w')

module _ (p : Process) where
  unfoldable pub apply_with :
      Text → Text → ApplyOptions → Machine → Config → Result CliError (Unit {0}) × Machine
  unfolding with_runtime apply read_plan
  apply_with job_id path opts m cfg =
      with_runtime p cfg true
        (write_file_plan (read_plan p path m)
          (λ plan. apply (adapter_of p cfg) (setup_of p cfg) p.env job_id plan opts))
        m

  -- `apply` behind its flags.
  unfoldable pub apply_checked :
      Text → Text → ApplyOptions → Machine → Result CliError (Unit {0}) × Machine
  unfolding with_config apply_with
  apply_checked job_id path opts m =
      if job_id == [] || path == []
      then (err apply_needs_job_and_plan, m)
      else if opts.confirmation_text != apply_confirmation_text
      then (err apply_confirmation_required, m)
      else with_config p (apply_with job_id path opts m) m

  unfoldable pub apply_command : List Text → Machine → Exit × Machine
  unfolding with_flags apply_checked text_of
  apply_command args m =
      with_flags p apply_flags args
        (λ values.
          apply_checked (text_of values (codes "job") []) (text_of values (codes "plan") [])
            (record {
              schema_hash_approval = text_of values (codes "schema-hash-approval") [];
              confirmation_text = text_of values (codes "confirm") [];
            })
            m)
        m

  unfoldable pub rollback_with :
      Text → Text → Text → Machine → Config → Result CliError (Unit {0}) × Machine
  unfolding with_runtime rollback read_plan
  rollback_with job_id path approval m cfg =
      with_runtime p cfg true
        (write_file_plan (read_plan p path m)
          (λ plan. rollback (adapter_of p cfg) (setup_of p cfg) p.env job_id plan approval))
        m

  -- `rollback` behind its flags.
  unfoldable pub rollback_checked :
      Text → Text → Text → Machine → Result CliError (Unit {0}) × Machine
  unfolding with_config rollback_with
  rollback_checked job_id path approval m =
      if job_id == [] || path == []
      then (err rollback_needs_job_and_plan, m)
      else with_config p (rollback_with job_id path approval m) m

  unfoldable pub rollback_command : List Text → Machine → Exit × Machine
  unfolding with_flags rollback_checked text_of
  rollback_command args m =
      with_flags p rollback_flags args
        (λ values.
          rollback_checked (text_of values (codes "job") []) (text_of values (codes "plan") [])
            (text_of values (codes "schema-hash-approval") []) m)
        m
