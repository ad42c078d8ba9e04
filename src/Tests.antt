-- ===== src/Tests.antt =====
-- The data of the tests: a small Dokploy database, a plan for it, and a state store with its job.
pub mod Retarget
pub mod Workflow
pub mod History
pub mod Api
pub mod Commands
pub mod Listing
pub mod Backups
pub mod Cli
pub mod Plans
pub mod Uploads
use dokploymigrator.Base.{
  ℕ, Text, codes, List, [], ◌∷◌, Option, none, some, Bool, true, false, less, ◌==◌, text_eq,
  if◌then◌else◌, ℤ, pos, ◌≡◌, refl, arith,
}
use dokploymigrator.Model.{PlanRow, MigrationPlan, mode_dead_recovery}
use dokploymigrator.Dokploydb.Postgres.{Database, Row, Column, no_faults}
use dokploymigrator.Dokploydb.Adapter.{Adapter, AdapterError}
use dokploymigrator.State.Time.{Time, Calendar}
use dokploymigrator.State.Invariant.{IsWellFormed}
use dokploymigrator.State.Tables.{has_job, Store, JobRow, Event, plan_payload, job_paused}
use dokploymigrator.Jobs.Postgres.{Connection, postgres}
use dokploymigrator.Jobs.Manager.{Env, World}
use dokploymigrator.Jobs.ApiClient.{status}
use dokploymigrator.Jobs.Workflow.{Setup, ApplyOptions, apply_confirmation_text}
use dokploymigrator.Jobs.Validation.{plan_ready_message}
use dokploymigrator.Server.Request.{Config, Request}

abbrev pub schema : List Column
schema =
    record { table_name = codes "redis"; column_name = codes "redisId"; data_type = codes "text" }
    ∷ record {
      table_name = codes "redis";
      column_name = codes "serverId";
      data_type = codes "text";
    }
    ∷ []

abbrev pub stored_row : Text → Row
stored_row server = record {
  server_id = some server;
  cell = λ column. if column == codes "redisId" then some (codes "r1") else none;
  time_cell = λ column. none;
}

abbrev pub database : Text → Database
database server = record {
  schema = schema;
  rows = λ table. if table == codes "redis" then stored_row server ∷ [] else [];
}

-- A hash of one byte: the fingerprint of every schema is `2a`.
abbrev pub sha256 : Text → List ℕ
sha256 t = 42 ∷ []

abbrev pub adapter : Adapter
adapter = record { allowed_hashes = [] }

abbrev pub row : PlanRow
row = record {
  table = codes "redis";
  id_column = codes "redisId";
  id = codes "r1";
  name = codes "cache";
  old_server_id = codes "a";
  new_server_id = codes "b";
}

abbrev pub plan : MigrationPlan
plan = record {
  id = codes "p";
  source_server_id = codes "a";
  target_server_id = codes "b";
  created_at = 7;
  schema_hash = codes "2a";
  rows = row ∷ [];
}

abbrev pub approval : Text
approval = codes "2a"

abbrev pub connection : Connection
connection = record {
  sha256 = sha256;
  collate = less;
  lower_rune = λ c. c;
  faults = no_faults;
  adapter = adapter;
  now = 100;
  plan_now = (100, 100);
}

-- Every second has one date.
abbrev pub calendar : Calendar
calendar = record { date = λ second. codes "2026-01-02T03:04:05"; read = λ t. none }

abbrev pub setup : Setup AdapterError
setup = record {
  calendar = calendar;
  json = λ body. codes "{}";
  print_error = λ e. codes "error";
  print_api_error = λ e. codes "error";
  network = λ request. status 200;
  api = none;
}

abbrev pub env : Env
env = record {
  started = record { second = 5; nano = 0 };
  now = λ n. record { second = 5; nano = 0 };
  fault = λ n. none;
}

abbrev pub job : JobRow
job = record {
  id = codes "j";
  source_server_id = codes "a";
  target_server_id = codes "b";
  mode = mode_dead_recovery;
  status = job_paused;
  checkpoint = codes "dry-run-ready";
  created_at = codes "x";
  updated_at = codes "x";
}

abbrev pub ready : Event
ready = record {
  id = 1;
  job_id = codes "j";
  level = codes "info";
  message = plan_ready_message;
  payload = plan_payload plan;
  created_at = codes "x";
}

abbrev pub store : Store
store = record { jobs = job ∷ []; events = ready ∷ []; reports = []; next_event_id = 2 }

abbrev pub world : World (postgres connection)
world = record { store = some store; db = some (database (codes "a")) }

abbrev pub options : ApplyOptions
options = record { schema_hash_approval = approval; confirmation_text = apply_confirmation_text }

abbrev pub config : Config
config = record {
  basic_user = codes "u";
  basic_password = codes "p";
  admin_token = codes "t";
  dead_after = pos 600000000000;
}

-- A request to delete the job `j`, with all that it needs.
abbrev pub delete_request : Request
delete_request = record {
  method = codes "DELETE";
  path = codes "api" ∷ codes "jobs" ∷ codes "j" ∷ [];
  basic = some (codes "u", codes "p");
  admin_token = codes "t";
  query = λ name. [];
  plan_body = none;
  action_body = none;
  file_status = 404;
}

pub store-IsWellFormed : IsWellFormed store
unfolding has_job text_eq
store-IsWellFormed = record {
  unique = (refl, tt);
  events_owned = (refl, tt);
  reports_owned = tt;
  one_report = tt;
  numbered = (omega arith, tt, tt);
}
