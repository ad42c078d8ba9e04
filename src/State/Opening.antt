-- ===== src/State/Opening.antt =====
-- `Open` and `migrate` of internal/state/store.go, on the file of the state database.
pub mod Lossless
use dokploymigrator.Base.{
  ℕ, ◌+◌, List, [], ◌∷◌, Option, none, some, Result, ok, err, ◌≡◌, refl, ap, ◌∙◌, arith,
}
use dokploymigrator.State.Tables.{JobRow, Event, Report, Store, Failure}

-- The tables that the file holds; `none` is a table that is not there. The counter of AUTOINCREMENT
-- comes with the events.
pub record Disk : Type 0 where
  pub jobs : Option (List JobRow)
  pub events : Option (List Event × ℕ)
  pub reports : Option (List Report)

-- A new file.
abbrev pub blank : Disk
blank = record { jobs = none; events = none; reports = none }

pub data OpenError : Type 0 where
  open_failed migrate_failed : Failure → OpenError

-- The statements of `migrate`.
pub data Statement : Type 0 where
  foreign_keys_on journal_wal create_jobs create_events create_reports : Statement

abbrev pub statements : List Statement
statements = foreign_keys_on ∷ journal_wal ∷ create_jobs ∷ create_events ∷ create_reports ∷ []

-- `CREATE TABLE IF NOT EXISTS` with a new table.
abbrev pub or_new : {A : Type 0} → A → Option A → Option A
or_new table none = some table
or_new table (some old) = some old

unfoldable pub execute : Statement → Disk → Disk
execute foreign_keys_on disk = disk
execute journal_wal disk = disk
execute create_jobs disk = record disk { jobs = or_new [] disk.jobs }
execute create_events disk = record disk { events = or_new ([], 1) disk.events }
execute create_reports disk = record disk { reports = or_new [] disk.reports }

-- A statement that fails ends `migrate`.
abbrev pub stop_or :
    Option Failure → Disk → Result OpenError (Unit {0}) × Disk → Result OpenError (Unit {0}) × Disk
stop_or none disk next = next
stop_or (some f) disk next = (err (migrate_failed f), disk)

-- `faults` are those of the statements, by their position.
unfoldable pub run_statements :
    (ℕ → Option Failure) → ℕ → List Statement → Disk → Result OpenError (Unit {0}) × Disk
unfolding execute
run_statements faults n [] disk = (ok tt, disk)
run_statements faults n (stmt ∷ stmts) disk =
    stop_or (faults n) disk (run_statements faults (n + 1) stmts (execute stmt disk))

unfoldable pub migrate : (ℕ → Option Failure) → Disk → Result OpenError (Unit {0}) × Disk
unfolding run_statements
migrate faults disk = run_statements faults 0 statements disk

-- `opening` is the error of `sql.Open`, where there is one.
unfoldable pub open_state :
    Option Failure → (ℕ → Option Failure) → Disk → Result OpenError (Unit {0}) × Disk
unfolding migrate
open_state opening faults disk = elim opening [
  | some f ↦ (err (open_failed f), disk)
  | none ↦ migrate faults disk
]

abbrev pub or_rows : {A : Type 0} → Option (List A) → List A
or_rows none = []
or_rows (some rows) = rows

abbrev pub or_events : Option (List Event × ℕ) → List Event × ℕ
or_events none = ([], 1)
or_events (some events) = events

-- The store that the tables of a file are, and the file of a store.
unfoldable pub store_of : Disk → Store
store_of disk = record {
  jobs = or_rows disk.jobs;
  events = (or_events disk.events).0;
  reports = or_rows disk.reports;
  next_event_id = (or_events disk.events).1;
}

unfoldable pub disk_of : Store → Disk
disk_of s = record {
  jobs = some s.jobs;
  events = some (s.events, s.next_event_id);
  reports = some s.reports;
}
