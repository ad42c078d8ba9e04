-- ===== src/Cmd/Moves.antt =====
-- From the command line of cmd/dokploy-migrator/main.go to the rows of the Dokploy databases.
use dokploymigrator.Base.{
  Text, List, map, some, true, text_eq, Result, ok, err, ◌≡◌, ◌≢◌, refl, ap, ◌∙◌, arith, ◌⊎◌, inl,
  inr,
}
use dokploymigrator.Model.{PlanRow, MigrationPlan}
use dokploymigrator.Config.{Config}
use dokploymigrator.Dokploydb.Postgres.{Database}
use dokploymigrator.Dokploydb.Adapter.{AdapterError}
use dokploymigrator.Dokploydb.Retarget.Effect.{moved}
use dokploymigrator.Jobs.Manager.{JobsError}
use dokploymigrator.Jobs.Workflow.{ApplyOptions, apply, rollback}
use dokploymigrator.Jobs.Postgres.{apply-moves, rollback-moves}
use dokploymigrator.Cmd.Runtime.{
  Process, Machine, CliError, put, adapter_of, setup_of, Runtime, put_database, with_runtime,
  read_plan,
}
use dokploymigrator.Cmd.Writes.{apply_with, rollback_with, write_file_plan}
use dokploymigrator.Cmd.Databases.{IsConnected, put-same, with_runtime-databases}

-- No database has changed.
abbrev pub IsUnmoved : Machine → Machine → Type 0
IsUnmoved m m' = (dsn : Text) → m'.databases dsn ≡ m.databases dsn

-- In the database that the settings name exactly the resources that the plan names and that were on
-- the one server have moved to the other, and no other database has changed.
pub record IsMove (cfg : Config) (source target : Text) (rows : List PlanRow) (m m' : Machine)
    : Type 0 where
  pub there :
      (t : Text)
      → (m'.databases cfg.dokploy_postgres_dsn).rows t
        ≡ map (moved source target rows t) ((m.databases cfg.dokploy_postgres_dsn).rows t)
  pub elsewhere : (dsn : Text) → cfg.dokploy_postgres_dsn ≢ dsn → m'.databases dsn ≡ m.databases dsn

put-here : {A : Type 0} (key : Text) (a : A) (at : Text → A) → put key a at key ≡ a
put-here key a at = ground arith

module _ (p : Process) (cfg : Config) where
  pub kept_database :
      (m m' : Machine) (w : Runtime p cfg)
      → IsConnected p cfg m w
      → m'.databases ≡ put_database p cfg w.db m.databases
      → IsUnmoved m m'
  kept_database m m' w (inl no_db) e dsn = rw (e, no_db) refl
  kept_database m m' w (inr (here, _)) e dsn =
      rw (e, here) (put-same cfg.dokploy_postgres_dsn m.databases dsn)

  moved_database :
      (source target : Text) (rows : List PlanRow) (m m' : Machine) (w w' : Runtime p cfg)
      → IsConnected p cfg m w
      → m'.databases ≡ put_database p cfg w'.db m.databases
      → (w'.db ≡ w.db)
        ⊎ ((db db' : Database) × (w.db ≡ some db)
            × (w'.db ≡ some db')
            × ((t : Text) → db'.rows t ≡ map (moved source target rows t) (db.rows t)))
      → IsUnmoved m m' ⊎ IsMove cfg source target rows m m'
  moved_database source target rows m m' w w' connected e (inl same) =
      inl (kept_database m m' w connected (rw same at e))
  moved_database source target rows m m' w w' (inl no_db) e (inr (db, db', was, is, all)) =
      absurd (cc)
  moved_database source target rows m m' w w' (inr (here, _)) e (inr (db, db', was, is, all)) =
      let same : db ≡ m.databases cfg.dokploy_postgres_dsn = cc in
      inr (record {
        there = λ t.
            rw (e, is)
              (ap (λ (x : Database). x.rows t) (put-here cfg.dokploy_postgres_dsn db' m.databases)
                ∙ rw same at (all t));
        elsewhere = λ dsn other. rw (e, is) (ground arith);
      })

  -- What a command that writes the plan of a file may do.
  abbrev pub IsFileMove :
      Text → (MigrationPlan → Text) → (MigrationPlan → Text) → Machine → Machine → Type 0
  IsFileMove path source target m m' =
      (plan : MigrationPlan) × (read_plan p path m ≡ ok plan)
      × IsMove cfg (source plan) (target plan) plan.rows m m'

  -- What the manager does to the database of a world.
  abbrev Outcome : Text → Text → List PlanRow → Runtime p cfg → Runtime p cfg → Type 0
  Outcome source target rows w w' =
      (w'.db ≡ w.db)
      ⊎ ((db db' : Database) × (w.db ≡ some db)
          × (w'.db ≡ some db')
          × ((t : Text) → db'.rows t ≡ map (moved source target rows t) (db.rows t)))

  file_move :
      (path : Text) (source target : MigrationPlan → Text)
      (write : MigrationPlan
        → Runtime p cfg
        → Result (JobsError AdapterError) (Unit {0}) × Runtime p cfg)
      (outcome : (plan : MigrationPlan) (w : Runtime p cfg)
        → Outcome (source plan) (target plan) plan.rows w (write plan w).1)
      (m m' : Machine) (w : Runtime p cfg) (read : Result CliError MigrationPlan)
      → read_plan p path m ≡ read
      → IsConnected p cfg m w
      → m'.databases ≡ put_database p cfg (write_file_plan read write w).1.db m.databases
      → IsUnmoved m m' ⊎ IsFileMove path source target m m'
  file_move path source target write outcome m m' w (err e) r connected left =
      inl (kept_database m m' w connected left)
  file_move path source target write outcome m m' w (ok plan) r connected left =
      elim (moved_database (source plan) (target plan) plan.rows m m' w (write plan w).1 connected
        left (outcome plan w)) [ inl same ↦ inl same | inr move ↦ inr (plan, r, move) ]

  IsFileMove-with :
      (path : Text) (source target : MigrationPlan → Text)
      (write : MigrationPlan
        → Runtime p cfg
        → Result (JobsError AdapterError) (Unit {0}) × Runtime p cfg)
      (outcome : (plan : MigrationPlan) (w : Runtime p cfg)
        → Outcome (source plan) (target plan) plan.rows w (write plan w).1)
      (m : Machine)
      → let m' = (with_runtime p cfg true (write_file_plan (read_plan p path m) write) m).1 in
        IsUnmoved m m' ⊎ IsFileMove path source target m m'
  IsFileMove-with path source target write outcome m =
      elim (with_runtime-databases p cfg true (write_file_plan (read_plan p path m) write) m) [
        | inl same ↦ inl (λ dsn. ap (λ (f : Text → Database). f dsn) same)
        | inr (w, connected, left) ↦
            file_move path source target write outcome m _ w _ refl connected left
      ]

  pub apply_with-moves :
      (job_id path : Text) (opts : ApplyOptions) (m : Machine)
      → let m' = (apply_with p job_id path opts m cfg).1 in
        IsUnmoved m m'
        ⊎ IsFileMove path (λ plan. plan.source_server_id) (λ plan. plan.target_server_id) m m'
  unfolding apply_with
  apply_with-moves job_id path opts m =
      IsFileMove-with path (λ plan. plan.source_server_id) (λ plan. plan.target_server_id)
        (λ plan. apply (adapter_of p cfg) (setup_of p cfg) p.env job_id plan opts)
        (λ plan w. apply-moves _ (setup_of p cfg) p.env job_id plan opts w) m

  pub rollback_with-moves :
      (job_id path approval : Text) (m : Machine)
      → let m' = (rollback_with p job_id path approval m cfg).1 in
        IsUnmoved m m'
        ⊎ IsFileMove path (λ plan. plan.target_server_id) (λ plan. plan.source_server_id) m m'
  unfolding rollback_with
  rollback_with-moves job_id path approval m =
      IsFileMove-with path (λ plan. plan.target_server_id) (λ plan. plan.source_server_id)
        (λ plan. rollback (adapter_of p cfg) (setup_of p cfg) p.env job_id plan approval)
        (λ plan w. rollback-moves _ (setup_of p cfg) p.env job_id plan approval w) m
