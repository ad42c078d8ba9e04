-- ===== src/Lib.antt =====
-- A model of Dokploy Migrator, the program that moves the metadata of resources in the PostgreSQL
-- database of Dokploy from one server to another, and the theorems about it.
--
-- The program makes a dry-run plan of the resources on a source server, stores it with a job in a
-- SQLite database of its own, and applies or rolls back the plan, or a part of it, when an operator
-- asks for it over an HTTP API. Its parts and the modules that model them:
--
--   Model       internal/model/model.go: the types that all parts share.
--   Dokploydb   internal/dokploydb/postgres.go: the adapter. Postgres holds the database and what its
--               statements do, Columns the nine tables and their ID columns, Guard the checks of a plan
--               before a write, Adapter the allowlist and the schema fingerprint, Resources
--               (supportedTables, ListServerResources), Counts (resourceCountsByServer), Plan
--               (BuildRetargetPlan), Status and Servers (ListServers), and Retarget
--               (ApplyRetargetPlan, RollbackRetargetPlan).
--   State       internal/state/store.go: Tables (the three tables and their keys), Opening (Open and
--               migrate), Time (the texts of times), Jobs (the operations on jobs) and Audit (events
--               and reports). Order and Ranks describe the place of a job in the history.
--   Jobs        internal/jobs/jobs.go: Adapter (the interface DBAdapter), ApiClient, Subset
--               (validatePlanSubset), Report (buildReport), Manager (the state of the manager and its
--               actions), Validation (validateJobPlan), Workflow (Apply, Rollback) and Planning
--               (Plan, ListServers). Postgres fills the interface with the adapter.
--   Server      internal/server/server.go: Request (authentication and query parameters), Handlers
--               (every handler and the routes) and Listen (how ListenAndServe ends).
--   S3backup    internal/s3backup/s3backup.go: Bucket (Config, Client, New and what the SDK gives),
--               Matching (which objects belong to a resource), Candidates (their order and the removal
--               of duplicates) and Scan (ListCandidates).
--   Cmd         cmd/dokploy-migrator/main.go: Flags (the package flag), Runtime (buildRuntime,
--               readPlan), Start, Serve, Reports (plan, jobs), Writes (apply, rollback) and Run. A
--               command is a function from its arguments and a Machine, which holds the state files,
--               the Dokploy databases and the other files, to an Exit and the machine that it leaves.
--   Sshrestore  internal/sshrestore/sshrestore.go: Executor (Config, Dial, Close), Sessions (Upload,
--               Run), Commands (the restore commands and shellQuote), Paths and Wire (the package path
--               and UTF-8); as descriptions of the other side, Shell (a POSIX shell) and Scp (`scp -t`).
--   Config      internal/config/config.go: the settings that are read from the environment.
--   Base        what the program uses of Go: `if`, `==`, strings, slices, sorting, strconv.Atoi.
--   Tests       runs at concrete inputs.
--
-- How it is modelled:
--
--   A Go string is the list of its runes; texts that are not valid UTF-8 are outside the model. An
--   error is a value of a data type with one constructor for each error of the source; what the
--   messages say is left out. The nil map, slice or pointer is the empty list or `none`.
--
--   A SQL statement is a function on tables of rows, with NULL as `none`. The server and SQLite may
--   refuse any statement, a begin or a commit: each operation takes these refusals as arguments
--   (Faults, Failure), and the theorems hold for all of them. A commit that is reported as failed is
--   taken not to have happened, and a statement that failed to have changed nothing. Foreign keys of
--   SQLite are on, as the first statement of migrate asks. One call works on the database alone:
--   transactions of other clients that run at the same time are not modelled.
--
--   The manager works on a World, the state store and the Dokploy database, through the monad M, in
--   which what was written before an error stays written. Its calls of the store are numbered, and
--   Env gives the time and the fault of each. A handler of the HTTP API is one step on the World.
--
--   Every loop of the source runs over a list and is structural recursion; the only fuel is that of
--   `decimal`, whose rounds are one more than the number that is printed, which is at least the
--   number of its digits.
--
--   Parameters are sha256, the collation of PostgreSQL, Go's tables of lower case and case folding
--   beyond ASCII, the calendar of RFC 3339 and its parser, time.ParseDuration, strconv.ParseInt, the
--   printing of JSON and of errors, the decoding of request bodies, plan files and manifests, the
--   network, sql.Open, the SSH library (how each call ends, how many bytes a write that fails has
--   sent, and from which channel a select receives), the status with which the file server of
--   net/http answers, and the AWS SDK: the pages of its paginator and
--   the bodies of objects. The commands of one process run one after the other: the requests that
--   serve answers are a list, each with what happens around it.
--
-- Not modelled: the log and the text of the usage, the goroutine and the signals around
-- ListenAndServe, of which only the end is a value, and the web page under internal/server/static.
pub mod Base
pub mod Model
pub mod Dokploydb
pub mod State
pub mod Jobs
pub mod Server
pub mod S3backup
pub mod Cmd
pub mod Sshrestore
pub mod Config
pub mod Tests
