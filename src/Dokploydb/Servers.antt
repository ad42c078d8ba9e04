-- ===== src/Dokploydb/Servers.antt =====
-- `ListServers`: the servers with a status, a last activity and the number of their resources.
pub mod Local
use dokploymigrator.Base.{
  ℕ, Text, codes, Option, none, some, List, [], ◌∷◌, Bool, true, false, ◌&&◌, ◌||◌, not, ℤ, ltb,
  less, to_lower, ◌==◌, ◌!=◌, nat_eq, text_eq, option_eq, sort_by, if◌then◌else◌, Result, ok, err,
  ◌>>=◌, ◌>>◌, wrap, fail_if, Eq,
}
use dokploymigrator.Model.{
  Server, ServerStatus, server_online, server_offline, server_unknown, ServerStatus-discrete,
  local_server_id, local_server_name,
}
use dokploymigrator.Dokploydb.Postgres.{Column, Row, Database, Faults, server_id_column, unless}
use dokploymigrator.Dokploydb.Adapter.{AdapterError, sql, scan_null, server_id_column_missing}
use dokploymigrator.Dokploydb.Resources.{before, or_empty}
use dokploymigrator.Dokploydb.Counts.{Counts, resource_counts_by_server}
use dokploymigrator.Dokploydb.Status.{
  server_table, column_type, table_columns, first_existing_column, first_temporal_column,
  classify_server_status,
}

instance unfoldable pub status_eq : Eq ServerStatus
unfolding ServerStatus-discrete
status_eq = record { dec = ServerStatus-discrete }

unfoldable pub server_status_rank : ServerStatus → ℕ
server_status_rank server_offline = 0
server_status_rank server_unknown = 1
server_status_rank server_online = 2

abbrev pub local_server : ℕ → Server
local_server resource_count = record {
  id = local_server_id;
  name = local_server_name;
  status = server_unknown;
  last_seen_at = none;
  resource_count = resource_count;
}

unfoldable pub ensure_local_server : List Server → ℕ → List Server
ensure_local_server [] resource_count = local_server resource_count ∷ []
ensure_local_server (s ∷ servers) resource_count =
    if s.id != local_server_id
    then s ∷ ensure_local_server servers resource_count
    else local_server resource_count ∷ servers

abbrev text_cell : Option Text → Row → Option Text
text_cell none row = none
text_cell (some column) row = row.cell column

abbrev time_of : Option Text → Row → Option ℕ
time_of none row = none
time_of (some column) row = row.time_cell column

last_seen_columns : List Text
last_seen_columns =
    codes "lastSeenAt"
    ∷ codes "lastSeen"
    ∷ codes "lastOnlineAt"
    ∷ codes "lastPingAt"
    ∷ codes "lastHeartbeatAt"
    ∷ codes "lastHealthCheckAt"
    ∷ codes "lastHealthAt"
    ∷ []

-- Which columns the query reads.
pub record Selection : Type 0 where
  pub name : Bool
  pub status : Option Text
  pub last_seen : Option Text

abbrev is_some : {A : Type 0} → Option A → Bool
is_some none = false
is_some (some a) = true

abbrev select_name : Selection → Row → Text
select_name sel row = if sel.name then or_empty (row.cell (codes "name")) else []

module _ (lower_rune : ℕ → ℕ) (collate : Text → Text → Bool) where
  unfoldable pub selection : List Column → Selection
  unfolding first_existing_column first_temporal_column last_seen_columns
  selection columns = record {
    name = is_some (column_type columns (codes "name"));
    status = first_existing_column columns (codes "status" ∷ codes "state" ∷ []);
    last_seen = first_temporal_column lower_rune columns last_seen_columns;
  }

  unfoldable pub server_of : Selection → ℤ → ℕ → Counts → Row → Text → Server
  unfolding classify_server_status
  server_of sel dead_after now counts row id =
      let name = select_name sel row in
      let seen = time_of sel.last_seen row in
      record {
        id = id;
        name = if name == [] then id else name;
        status =
            classify_server_status lower_rune (or_empty (text_cell sel.status row)) seen dead_after
              now;
        last_seen_at = seen;
        resource_count = counts id;
      }

  -- The loop over the rows of the query. A `serverId` that is NULL does not scan into a string.
  unfoldable pub scan_servers :
      Selection → ℤ → ℕ → Counts → List Row → Result AdapterError (List Server)
  unfolding server_of
  scan_servers sel dead_after now counts [] = ok []
  scan_servers sel dead_after now counts (row ∷ rows) = elim row.server_id [
    | none ↦ err (scan_null server_table)
    | some id ↦ do
      servers ← scan_servers sel dead_after now counts rows
      ok (server_of sel dead_after now counts row id ∷ servers)
  ]

  -- `ORDER BY 2, 1`
  by_name_and_id : Selection → Row → Row → Bool
  by_name_and_id sel r s =
      let a = select_name sel r in
      let b = select_name sel s in
      collate a b || not (collate b a) && before collate r.server_id s.server_id

  unfoldable pub server_before : Server → Server → Bool
  unfolding server_status_rank
  server_before a b =
      if a.status != b.status
      then ltb (server_status_rank a.status) (server_status_rank b.status)
      else if a.resource_count != b.resource_count
      then ltb b.resource_count a.resource_count
      else less (to_lower lower_rune a.name) (to_lower lower_rune b.name)

  unfoldable pub arrange_servers : Counts → List Server → List Server
  unfolding server_before ensure_local_server
  arrange_servers counts servers =
      sort_by server_before (ensure_local_server servers (counts local_server_id))

  unfoldable pub list_servers : Faults → ℤ → ℕ → Database → Result AdapterError (List Server)
  unfolding table_columns selection resource_counts_by_server scan_servers by_name_and_id
      arrange_servers
  list_servers faults dead_after now db = do
    columns ← table_columns faults server_table db
    fail_if (not (is_some (column_type columns server_id_column))) server_id_column_missing
    counts ← resource_counts_by_server faults db
    wrap sql (unless (faults.query server_table))
    let sel = selection columns
    servers ←
        scan_servers sel dead_after now counts (sort_by (by_name_and_id sel) (db.rows server_table))
    ok (arrange_servers counts servers)
