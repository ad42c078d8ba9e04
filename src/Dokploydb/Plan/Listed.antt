-- ===== src/Dokploydb/Plan/Listed.antt =====
-- The resources that are listed for a server: each is a row of its table, and none is listed more often
-- than there are rows for it.
use mathlib.Core.Option.{some-injective}
use dokploymigrator.Base.{
  ℕ, ◌+◌, ◌≤◌, Text, List, [], ◌∷◌, ◌++◌, some, true, Bool, ◌==◌, text_eq, option_eq, nat_eq,
  if◌then◌else◌, count_by, count_by-append, count_by-sort_by, ◌≡◌, refl, sym, arith, ◌∙◌, ap, All,
  All-append, ok, >>=-eq-ok, All-map, wrap,
}
use dokploymigrator.Model.{Resource}
use dokploymigrator.Dokploydb.Postgres.{Database, Faults, has_column, server_id_column, unless}
use dokploymigrator.Dokploydb.Columns.{is_retarget_table, resource_id_column}
use dokploymigrator.Dokploydb.Resources.{
  SupportedTable, tables_of, supported_tables, scan_resources, select_rows, query_tables,
  list_server_resources,
}
use dokploymigrator.Dokploydb.Plan.Tables.{
  IsSupported, tables_of-IsSupported, named, count_by-tables_of,
}
use dokploymigrator.Dokploydb.Plan.Counted.{
  hit, listed_as, count_by-selected, of_cell, count_by-scan_resources, IsScanned, All-IsScanned,
}

-- `n` for each table with the name.
abbrev copies : Text → ℕ → List SupportedTable → ℕ
copies t n [] = 0
copies t n (table ∷ tables) = (if table.name == t then n else 0) + copies t n tables

copies-none :
    (t : Text) (n : ℕ) (tables : List SupportedTable)
    → count_by (named t) tables ≤ 0
    → copies t n tables ≡ 0
copies-none t n [] h = refl
copies-none t n (table ∷ tables) h = ground (arith, copies-none t n tables)

copies-once :
    (t : Text) (n : ℕ) (tables : List SupportedTable)
    → count_by (named t) tables ≤ 1
    → copies t n tables ≤ n
copies-once t n [] h = omega arith
copies-once t n (table ∷ tables) h = ground (arith, copies-once t n tables, copies-none t n tables)

-- A resource of a server: what its table has, and a row that it is.
pub record IsResource (db : Database) (server : Text) (r : Resource) : Type 0 where
  pub allowed : is_retarget_table r.resource_type ≡ true
  pub chosen :
      resource_id_column r.resource_type (has_column db.schema r.resource_type) ≡ some r.id_column
  pub server_column : has_column db.schema r.resource_type server_id_column ≡ true
  pub present : 1 ≤ count_by (hit r.id_column r.id server) (db.rows r.resource_type)

-- The column that is chosen for a table is one.
pub same_column :
    (db : Database) (name t d c : Text)
    → name ≡ t
    → resource_id_column name (has_column db.schema name) ≡ some d
    → resource_id_column t (has_column db.schema t) ≡ some c
    → d ≡ c
same_column db name t d c e h k = some-injective d c (sym (rw e at h) ∙ k)

module _ (collate : Text → Text → Bool) (faults : Faults) (server : Text) (db : Database) where
  count_by-select_rows :
      (table : SupportedTable) (i : Text)
      → count_by (of_cell table server i) (select_rows collate table server db)
        ≡ count_by (hit table.id_column i server) (db.rows table.name)
  unfolding select_rows
  count_by-select_rows table i =
      count_by-sort_by _ (of_cell table server i) _
      ∙ count_by-selected table.id_column i server (db.rows table.name)

  query_step :
      (table : SupportedTable) (tables : List SupportedTable) (rs : List Resource)
      → query_tables collate faults server db (table ∷ tables) ≡ ok rs
      → (first : List Resource) × (rest : List Resource) × (scan_resources table server
            (select_rows collate table server db)
          ≡ ok first)
        × (query_tables collate faults server db tables ≡ ok rest)
        × (rs ≡ first ++ rest)
  unfolding query_tables
  query_step table tables rs h =
      let (_, _, h₁) = >>=-eq-ok (wrap _ (unless (faults.query table.name))) _ h in
      let (first, one, h₂) =
        >>=-eq-ok (scan_resources table server (select_rows collate table server db)) _ h₁ in
      let (rest, others, h₃) =
        >>=-eq-ok (query_tables collate faults server db tables) (λ rest. ok (first ++ rest)) h₂ in
      (first, rest, one, others, ground arith)

  query_nothing : (rs : List Resource) → query_tables collate faults server db [] ≡ ok rs → rs ≡ []
  unfolding query_tables
  query_nothing rs h = ground arith

  scanned-IsResource :
      (table : SupportedTable) (r : Resource)
      → IsSupported db.schema table
      → IsScanned table server (select_rows collate table server db) r
      → IsResource db server r
  scanned-IsResource table r supported scanned = record {
    allowed = rw scanned.kind supported.allowed;
    chosen = rw (scanned.kind, scanned.column) supported.chosen;
    server_column = rw scanned.kind supported.server;
    present =
        rw (scanned.kind, scanned.column)
          (omega (arith, scanned.present, count_by-select_rows table r.id));
  }

  query_tables-IsResource :
      (tables : List SupportedTable) (rs : List Resource)
      → All (IsSupported db.schema) tables
      → query_tables collate faults server db tables ≡ ok rs
      → All (IsResource db server) rs
  query_tables-IsResource [] rs _ h = rw (query_nothing rs h) tt
  query_tables-IsResource (table ∷ tables) rs (supported, all) h =
      let (first, rest, one, others, same) = query_step table tables rs h in
      rw same (
        All-append (IsResource db server) first rest
          (All-map (IsScanned table server (select_rows collate table server db))
            (IsResource db server) (λ r s. scanned-IsResource table r supported s) first
            (All-IsScanned table server (select_rows collate table server db) first one))
          (query_tables-IsResource tables rest all others))

  -- All tables with a name have the ID column that is chosen for it.
  same_table :
      (t i c : Text) (table : SupportedTable)
      → resource_id_column t (has_column db.schema t) ≡ some c
      → IsSupported db.schema table
      → table.name ≡ t
      → (if table.name == t
          then count_by (of_cell table server i) (select_rows collate table server db)
          else 0)
        ≡ (if table.name == t then count_by (hit c i server) (db.rows t) else 0)
  same_table t i c table chosen supported e =
      let column : table.id_column ≡ c =
        same_column db table.name t table.id_column c e supported.chosen chosen in
      ap (λ n. if table.name == t then n else 0)
        (count_by-select_rows table i
          ∙ ap (λ d. count_by (hit d i server) (db.rows table.name)) column
          ∙ ap (λ name. count_by (hit c i server) (db.rows name)) e)

  table_count :
      (t i c : Text) (table : SupportedTable) (first : List Resource)
      → resource_id_column t (has_column db.schema t) ≡ some c
      → IsSupported db.schema table
      → scan_resources table server (select_rows collate table server db) ≡ ok first
      → count_by (listed_as t i) first
        ≡ (if table.name == t then count_by (hit c i server) (db.rows t) else 0)
  table_count t i c table first chosen supported h =
      let counted = count_by-scan_resources table server t i _ first h in
      elim (text_eq.dec table.name t) [
        | yes e ↦ counted ∙ same_table t i c table chosen supported e
        | no n ↦ counted ∙ ground arith
      ]

  count_by-query_tables :
      (t i c : Text) (tables : List SupportedTable) (rs : List Resource)
      → resource_id_column t (has_column db.schema t) ≡ some c
      → All (IsSupported db.schema) tables
      → query_tables collate faults server db tables ≡ ok rs
      → count_by (listed_as t i) rs ≡ copies t (count_by (hit c i server) (db.rows t)) tables
  count_by-query_tables t i c [] rs chosen _ h = rw (query_nothing rs h) refl
  count_by-query_tables t i c (table ∷ tables) rs chosen (supported, all) h =
      let (first, rest, one, others, same) = query_step table tables rs h in
      ap (count_by (listed_as t i)) same
      ∙ count_by-append (listed_as t i) first rest
      ∙ omega (
        arith,
        table_count t i c table first chosen supported one,
        count_by-query_tables t i c tables rest chosen all others,
      )

  supported_tables-ok :
      (tables : List SupportedTable)
      → supported_tables faults db ≡ ok tables
      → tables ≡ tables_of db.schema
  unfolding supported_tables
  supported_tables-ok tables h = ground arith

  listed_parts :
      (rs : List Resource)
      → list_server_resources collate faults server db ≡ ok rs
      → query_tables collate faults server db (tables_of db.schema) ≡ ok rs
  unfolding list_server_resources
  listed_parts rs h =
      let (tables, found, h₁) = >>=-eq-ok (supported_tables faults db) _ h in
      rw (supported_tables-ok tables found) at h₁

  -- Each listed resource is a row of its table.
  pub list_server_resources-IsResource :
      (rs : List Resource)
      → list_server_resources collate faults server db ≡ ok rs
      → All (IsResource db server) rs
  list_server_resources-IsResource rs h =
      query_tables-IsResource (tables_of db.schema) rs (tables_of-IsSupported db.schema)
        (listed_parts rs h)

  -- No resource is listed more often than there are rows for it.
  pub count_by-list_server_resources :
      (t i c : Text) (rs : List Resource)
      → resource_id_column t (has_column db.schema t) ≡ some c
      → list_server_resources collate faults server db ≡ ok rs
      → count_by (listed_as t i) rs ≤ count_by (hit c i server) (db.rows t)
  count_by-list_server_resources t i c rs chosen h = omega (
    arith,
    count_by-query_tables t i c (tables_of db.schema) rs chosen (tables_of-IsSupported db.schema)
        (listed_parts rs h),
    copies-once t (count_by (hit c i server) (db.rows t)) (tables_of db.schema)
        (count_by-tables_of db.schema t),
  )
