-- ===== src/State/Tables.antt =====
-- The three tables, and what the queries of internal/state/store.go see of them.
use dokploymigrator.Base.{
  ℕ, Text, List, [], ◌∷◌, Option, none, some, Bool, ◌==◌, text_eq, any, if◌then◌else◌,
}
use dokploymigrator.Model.{MigrationPlan}

pub data JobStatus : Type 0 where
  job_pending job_running job_paused job_succeeded job_failed job_rolled_back : JobStatus

-- A row of `jobs`. Its times are texts, as they are stored.
pub record JobRow : Type 0 where
  pub id : Text
  pub source_server_id : Text
  pub target_server_id : Text
  pub mode : Text
  pub status : JobStatus
  pub checkpoint : Text
  pub created_at : Text
  pub updated_at : Text

-- What the program appends to an event: `map[string]string` with one key or none,
-- `map[string]int`, or a plan.
pub data Payload : Type 0 where
  mode_payload : Text → Payload
  error_payload : Text → Payload
  rows_payload : ℕ → Payload
  plan_payload : MigrationPlan → Payload
  empty_payload : Payload

pub record Event : Type 0 where
  pub id : ℕ
  pub job_id : Text
  pub level : Text
  pub message : Text
  pub payload : Payload
  pub created_at : Text

pub record Report : Type 0 where
  pub job_id : Text
  pub json_report : Text
  pub markdown_report : Text
  pub created_at : Text

-- `next_event_id` is the counter of AUTOINCREMENT. Rows stand in the order of their insertion.
pub record Store : Type 0 where
  pub jobs : List JobRow
  pub events : List Event
  pub reports : List Report
  pub next_event_id : ℕ

abbrev pub migrated : Store
migrated = record { jobs = []; events = []; reports = []; next_event_id = 1 }

unfoldable pub has_job : Text → List JobRow → Bool
has_job id jobs = any (λ j. j.id == id) jobs

unfoldable pub find_job : Text → List JobRow → Option JobRow
find_job id [] = none
find_job id (j ∷ jobs) = if j.id == id then some j else find_job id jobs

-- Why SQLite, or the disk below it, refused a statement.
pub data Failure : Type 0 where
  failure : ℕ → Failure

pub data StoreError : Type 0 where
  sql_failed : Failure → StoreError
  unique_violation : Text → StoreError
  foreign_key_violation : Text → StoreError
  job_not_found : Text → StoreError
