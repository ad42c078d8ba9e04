-- ===== src/Dokploydb/Resources.antt =====
-- The supported tables, and the resources of one server.
use dokploymigrator.Base.{
  Text, codes, Option, none, some, List, [], ◌∷◌, ◌++◌, Bool, true, false, less, ◌==◌, text_eq,
  option_eq, filter_by, sort_by, if◌then◌else◌, Result, ok, err, ◌>>=◌, ◌>>◌, wrap,
}
use dokploymigrator.Model.{Resource, local_server_id}
use dokploymigrator.Dokploydb.Postgres.{
  Column, Row, Database, Faults, server_id_column, has_column, unless,
}
use dokploymigrator.Dokploydb.Columns.{retarget_tables, resource_id_column}
use dokploymigrator.Dokploydb.Adapter.{AdapterError, sql, scan_null}

pub record SupportedTable : Type 0 where
  pub name : Text
  pub id_column : Text
  pub has_name : Bool

-- One round of the loop over `requiredTables`. A table that is not there has no column.
unfoldable pub supported_table : List Column → Text → Option SupportedTable
supported_table schema table = elim (resource_id_column table (has_column schema table)) [
  | none ↦ none
  | some id_column ↦
      if has_column schema table server_id_column
      then some (record {
        name = table;
        id_column = id_column;
        has_name = has_column schema table (codes "name");
      })
      else none
]

abbrev pub cons_some : {A : Type 0} → Option A → List A → List A
cons_some none xs = xs
cons_some (some x) xs = x ∷ xs

unfoldable pub collect_tables : List Column → List Text → List SupportedTable
unfolding supported_table
collect_tables schema [] = []
collect_tables schema (table ∷ tables) =
    cons_some (supported_table schema table) (collect_tables schema tables)

unfoldable pub tables_of : List Column → List SupportedTable
unfolding collect_tables
tables_of schema = sort_by (λ a b. less a.name b.name) (collect_tables schema retarget_tables)

unfoldable pub supported_tables : Faults → Database → Result AdapterError (List SupportedTable)
unfolding tables_of
supported_tables faults db = do
  wrap sql (unless (faults.query (codes "information_schema.columns")))
  ok (tables_of db.schema)

-- `WHERE "serverId" = $1`, or `IS NULL` for the local server.
unfoldable pub on_server : Text → Row → Bool
on_server server_id row =
    if server_id == local_server_id then row.server_id == none else row.server_id == some server_id

abbrev pub or_empty : Option Text → Text
or_empty none = []
or_empty (some t) = t

unfoldable pub resource_of : SupportedTable → Text → Text → Row → Resource
resource_of table server_id id row = record {
  id = id;
  id_column = table.id_column;
  name = if table.has_name then or_empty (row.cell (codes "name")) else [];
  resource_type = table.name;
  server_id = server_id;
}

unfoldable pub scan_row : SupportedTable → Text → Row → Option Text → Result AdapterError Resource
scan_row table server_id row none = err (scan_null table.name)
scan_row table server_id row (some id) = ok (resource_of table server_id id row)

unfoldable pub scan_resources :
    SupportedTable → Text → List Row → Result AdapterError (List Resource)
unfolding scan_row resource_of
scan_resources table server_id [] = ok []
scan_resources table server_id (row ∷ rows) = do
  resource ← scan_row table server_id row (row.cell table.id_column)
  resources ← scan_resources table server_id rows
  ok (resource ∷ resources)

-- `collate a b` is `a < b` in the collation of the database.
module _ (collate : Text → Text → Bool) where
  -- NULL is last in `ORDER BY`.
  abbrev pub before : Option Text → Option Text → Bool
  before none b = false
  before (some a) none = true
  before (some a) (some b) = collate a b

  unfoldable pub select_rows : SupportedTable → Text → Database → List Row
  unfolding on_server
  select_rows table server_id db =
      sort_by (λ r s. before (r.cell table.id_column) (s.cell table.id_column))
        (filter_by (on_server server_id) (db.rows table.name))

  unfoldable pub query_tables :
      Faults → Text → Database → List SupportedTable → Result AdapterError (List Resource)
  unfolding scan_resources select_rows
  query_tables faults server_id db [] = ok []
  query_tables faults server_id db (table ∷ tables) = do
    wrap sql (unless (faults.query table.name))
    resources ← scan_resources table server_id (select_rows table server_id db)
    rest ← query_tables faults server_id db tables
    ok (resources ++ rest)

  unfoldable pub list_server_resources :
      Faults → Text → Database → Result AdapterError (List Resource)
  unfolding supported_tables query_tables
  list_server_resources faults server_id db = do
    tables ← supported_tables faults db
    query_tables faults server_id db tables
