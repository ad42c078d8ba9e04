-- ===== src/State/Opening/Lossless.antt =====
-- Opening the state database of internal/state/store.go loses nothing.
use dokploymigrator.Base.{
  ℕ, ◌+◌, List, [], ◌∷◌, Option, none, some, Result, ok, err, ◌≡◌, refl, ap, ◌∙◌, arith,
}
use dokploymigrator.State.Tables.{Event, Store, Failure}
use dokploymigrator.State.Opening.{
  Disk, OpenError, Statement, foreign_keys_on, journal_wal, create_jobs, create_events,
  create_reports, statements, or_new, execute, stop_or, run_statements, migrate, open_state,
  or_rows, or_events, store_of, disk_of,
}

or_rows_new : {A : Type 0} (table : Option (List A)) → or_new [] table ≡ some (or_rows table)
or_rows_new none = refl
or_rows_new (some rows) = refl

or_events_new : (table : Option (List Event × ℕ)) → or_new ([], 1) table ≡ some (or_events table)
or_events_new none = refl
or_events_new (some events) = refl

store_of-execute : (stmt : Statement) (disk : Disk) → store_of (execute stmt disk) ≡ store_of disk
unfolding store_of execute
store_of-execute foreign_keys_on disk = refl
store_of-execute journal_wal disk = refl
store_of-execute create_jobs disk = rw (or_rows_new disk.jobs) refl
store_of-execute create_events disk = rw (or_events_new disk.events) refl
store_of-execute create_reports disk = rw (or_rows_new disk.reports) refl

not_ok : {E : Type 0} (e : E) → ¬ (◌≡◌ {A = Result E (Unit {0})} (err e) (ok tt))
not_ok e h = ground arith

store_of-stop_or :
    (fault : Option Failure) (disk : Disk) (next : Result OpenError (Unit {0}) × Disk)
    → store_of next.1 ≡ store_of disk
    → store_of (stop_or fault disk next).1 ≡ store_of disk
store_of-stop_or none disk next h = h
store_of-stop_or (some f) disk next h = refl

stop_or-ok :
    (fault : Option Failure) (disk : Disk) (next : Result OpenError (Unit {0}) × Disk)
    → (stop_or fault disk next).0 ≡ ok tt
    → (next.0 ≡ ok tt) × ((stop_or fault disk next).1 ≡ next.1)
stop_or-ok none disk next h = (h, refl)
stop_or-ok (some f) disk next h = absurd (not_ok _ h)

stop_or-same :
    (fault : Option Failure) (disk : Disk) (next : Result OpenError (Unit {0}) × Disk)
    → next.1 ≡ disk
    → (stop_or fault disk next).1 ≡ disk
stop_or-same none disk next h = h
stop_or-same (some f) disk next h = refl

store_of-run_statements :
    (faults : ℕ → Option Failure) (n : ℕ) (stmts : List Statement) (disk : Disk)
    → store_of (run_statements faults n stmts disk).1 ≡ store_of disk
unfolding run_statements
store_of-run_statements faults n [] disk = refl
store_of-run_statements faults n (stmt ∷ stmts) disk =
    store_of-stop_or (faults n) _ _ (
      store_of-run_statements faults (n + 1) stmts (execute stmt disk) ∙ store_of-execute stmt disk)

-- Opening the state database loses no row, whether it succeeds or stops at any statement: the tables
-- hold what they held before, where a table that was missing counts as empty.
pub open_state-store_of :
    (opening : Option Failure) (faults : ℕ → Option Failure) (disk : Disk)
    → store_of (open_state opening faults disk).1 ≡ store_of disk
unfolding open_state migrate
open_state-store_of none faults disk = store_of-run_statements faults 0 statements disk
open_state-store_of (some f) faults disk = refl

abbrev run_all : List Statement → Disk → Disk
run_all [] disk = disk
run_all (stmt ∷ stmts) disk = run_all stmts (execute stmt disk)

run_statements-run_all :
    (faults : ℕ → Option Failure) (n : ℕ) (stmts : List Statement) (disk : Disk)
    → (run_statements faults n stmts disk).0 ≡ ok tt
    → (run_statements faults n stmts disk).1 ≡ run_all stmts disk
unfolding run_statements
run_statements-run_all faults n [] disk h = refl
run_statements-run_all faults n (stmt ∷ stmts) disk h =
    let next = run_statements faults (n + 1) stmts (execute stmt disk) in
    let (fine, same) = stop_or-ok (faults n) disk next h in
    same ∙ run_statements-run_all faults (n + 1) stmts (execute stmt disk) fine

run_all-disk_of : (disk : Disk) → run_all statements disk ≡ disk_of (store_of disk)
unfolding execute disk_of store_of
run_all-disk_of disk =
    rw (or_rows_new disk.jobs, or_events_new disk.events, or_rows_new disk.reports) refl

execute_again : (stmt : Statement) (s : Store) → execute stmt (disk_of s) ≡ disk_of s
unfolding execute disk_of
execute_again foreign_keys_on s = refl
execute_again journal_wal s = refl
execute_again create_jobs s = refl
execute_again create_events s = refl
execute_again create_reports s = refl

run_again :
    (faults : ℕ → Option Failure) (n : ℕ) (stmts : List Statement) (s : Store)
    → (run_statements faults n stmts (disk_of s)).1 ≡ disk_of s
unfolding run_statements
run_again faults n [] s = refl
run_again faults n (stmt ∷ stmts) s = stop_or-same (faults n) (disk_of s) _ (
    ap (λ disk. (run_statements faults (n + 1) stmts disk).1) (execute_again stmt s)
    ∙ run_again faults (n + 1) stmts s)

-- Opening a file whose tables are all there changes nothing, with whatever faults.
pub open_again :
    (opening : Option Failure) (faults : ℕ → Option Failure) (s : Store)
    → (open_state opening faults (disk_of s)).1 ≡ disk_of s
unfolding open_state migrate
open_again none faults s = run_again faults 0 statements s
open_again (some f) faults s = refl

open_state-disk_of :
    (opening : Option Failure) (faults : ℕ → Option Failure) (disk : Disk)
    → (open_state opening faults disk).0 ≡ ok tt
    → (open_state opening faults disk).1 ≡ disk_of (store_of disk)
unfolding open_state migrate
open_state-disk_of none faults disk h =
    run_statements-run_all faults 0 statements disk h ∙ run_all-disk_of disk
open_state-disk_of (some f) faults disk h = absurd (not_ok _ h)

-- When opening the state database succeeds, all its tables are there, with the rows that the file
-- held and no others, and opening the file again, with whatever faults, changes nothing.
pub open_state-idempotent :
    (opening : Option Failure) (faults : ℕ → Option Failure) (disk : Disk)
    → (open_state opening faults disk).0 ≡ ok tt
    → ((open_state opening faults disk).1 ≡ disk_of (store_of disk))
      × ((opening' : Option Failure) (faults' : ℕ → Option Failure)
          → (open_state opening' faults' (open_state opening faults disk).1).1
            ≡ (open_state opening faults disk).1)
open_state-idempotent opening faults disk h =
    let full = open_state-disk_of opening faults disk h in
    (full, λ opening' faults'. rw full (open_again opening' faults' (store_of disk)))
