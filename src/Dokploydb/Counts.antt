-- ===== src/Dokploydb/Counts.antt =====
-- `resourceCountsByServer` and `scanResourceCounts`. A Go map of numbers is a function, since a
-- missing key reads as 0.
pub mod Sums
use dokploymigrator.Base.{
  ℕ, suc, ◌+◌, Text, Option, none, some, List, [], ◌∷◌, ◌==◌, text_eq, option_eq, trim_space,
  if◌then◌else◌, Result, ok, ◌>>=◌, ◌>>◌, wrap,
}
use dokploymigrator.Model.{local_server_id}
use dokploymigrator.Dokploydb.Postgres.{Row, Database, Faults, unless}
use dokploymigrator.Dokploydb.Adapter.{AdapterError, sql}
use dokploymigrator.Dokploydb.Resources.{SupportedTable, supported_tables}

abbrev pub Counts : Type 0
Counts = Text → ℕ

-- `counts[k] += n`
unfoldable pub add_count : Text → ℕ → Counts → Counts
add_count k n counts j = if j == k then counts j + n else counts j

-- `SELECT "serverId"::text, count(*) … GROUP BY "serverId"`
unfoldable pub bump_group : Option Text → List (Option Text × ℕ) → List (Option Text × ℕ)
bump_group s [] = (s, 1) ∷ []
bump_group s ((t, n) ∷ groups) =
    if s == t then (t, suc n) ∷ groups else (t, n) ∷ bump_group s groups

unfoldable pub group_by_server : List Row → List (Option Text × ℕ)
unfolding bump_group
group_by_server [] = []
group_by_server (row ∷ rows) = bump_group row.server_id (group_by_server rows)

-- One row of the answer; `none` is a `NullString` that is not valid.
unfoldable pub scan_count : Option Text → ℕ → Counts → Counts
unfolding add_count
scan_count none count counts = add_count local_server_id count counts
scan_count (some server_id) count counts =
    let trimmed = trim_space server_id in
    if trimmed == [] then counts else add_count trimmed count counts

unfoldable pub scan_resource_counts : List (Option Text × ℕ) → Counts → Counts
unfolding scan_count
scan_resource_counts [] counts = counts
scan_resource_counts ((server_id, count) ∷ rows) counts =
    scan_resource_counts rows (scan_count server_id count counts)

unfoldable pub count_tables :
    Faults → Database → List SupportedTable → Counts → Result AdapterError Counts
unfolding scan_resource_counts group_by_server
count_tables faults db [] counts = ok counts
count_tables faults db (table ∷ tables) counts = do
  wrap sql (unless (faults.query table.name))
  count_tables faults db tables (scan_resource_counts (group_by_server (db.rows table.name)) counts)

unfoldable pub resource_counts_by_server : Faults → Database → Result AdapterError Counts
unfolding count_tables
resource_counts_by_server faults db = do
  tables ← supported_tables faults db
  count_tables faults db tables (λ k. 0)
