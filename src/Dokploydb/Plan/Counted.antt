-- ===== src/Dokploydb/Plan/Counted.antt =====
-- The resources that are listed for a server against the rows of its tables: each resource is a row,
-- and a row is listed once.
use dokploymigrator.Base.{
  ◌≤◌, Text, List, [], ◌∷◌, Option, none, some, Bool, ◌&&◌, ◌==◌, text_eq, option_eq, nat_eq,
  if◌then◌else◌, filter_by, count_by, ◌≡◌, refl, arith, ◌∙◌, ap, All, ok, >>=-eq-ok, All-map,
}
use dokploymigrator.Model.{Resource}
use dokploymigrator.Dokploydb.Postgres.{Row, Update, matches, count_rows}
use dokploymigrator.Dokploydb.Resources.{
  SupportedTable, on_server, resource_of, scan_row, scan_resources,
}
use dokploymigrator.Dokploydb.Retarget.Effect.{stored_server}

-- The rows of a server with an ID.
abbrev pub hit : Text → Text → Text → Row → Bool
hit c i server r = r.cell c == some i && r.server_id == stored_server server

-- The resources of a table with an ID.
abbrev pub listed_as : Text → Text → Resource → Bool
listed_as t i r = r.resource_type == t && r.id == i

on_server-stored :
    (server : Text) (r : Row) → on_server server r ≡ (r.server_id == stored_server server)
unfolding on_server stored_server
on_server-stored server r = ground arith

pub count_rows-hit :
    (u : Update) (server : Text) (rs : List Row)
    → u.where_server ≡ stored_server server
    → count_rows (matches u) rs ≡ count_by (hit u.id_column u.where_id server) rs
unfolding count_rows matches
count_rows-hit u server [] e = refl
count_rows-hit u server (r ∷ rs) e = ground (arith, count_rows-hit u server rs e)

pub count_by-selected :
    (c i server : Text) (rs : List Row)
    → count_by (λ r. r.cell c == some i) (filter_by (on_server server) rs)
      ≡ count_by (hit c i server) rs
count_by-selected c i server [] = refl
count_by-selected c i server (r ∷ rs) =
    ground (arith, count_by-selected c i server rs, on_server-stored server r)

module _ (table : SupportedTable) (server : Text) where
  -- What one row adds.
  scan_row-ok :
      (row : Row) (cell : Option Text) (r : Resource)
      → scan_row table server row cell ≡ ok r
      → (id : Text) × (cell ≡ some id)
        × (r.resource_type ≡ table.name)
        × (r.id_column ≡ table.id_column)
        × (r.id ≡ id)
  unfolding scan_row resource_of
  scan_row-ok row none r h = absurd (ground arith)
  scan_row-ok row (some id) r h = (id, refl, ground arith, ground arith, ground arith)

  scan_step :
      (row : Row) (rows : List Row) (rs : List Resource)
      → scan_resources table server (row ∷ rows) ≡ ok rs
      → (r : Resource) × (rest : List Resource) × (scan_row table server row
            (row.cell table.id_column)
          ≡ ok r)
        × (scan_resources table server rows ≡ ok rest)
        × (rs ≡ r ∷ rest)
  unfolding scan_resources
  scan_step row rows rs h =
      let (r, one, h') = >>=-eq-ok (scan_row table server row (row.cell table.id_column)) _ h in
      let (rest, others, h'') =
        >>=-eq-ok (scan_resources table server rows) (λ rest. ok (r ∷ rest)) h' in
      (r, rest, one, others, ground arith)

  pub scan_nothing : (rs : List Resource) → scan_resources table server [] ≡ ok rs → rs ≡ []
  unfolding scan_resources
  scan_nothing rs h = ground arith

  abbrev pub of_cell : Text → Row → Bool
  of_cell i row = row.cell table.id_column == some i

  one_more :
      (t i id : Text) (row : Row) (rows : List Row) (r : Resource) (rest : List Resource)
      → row.cell table.id_column ≡ some id
      → r.resource_type ≡ table.name
      → r.id ≡ id
      → count_by (listed_as t i) rest ≡ (if table.name == t then count_by (of_cell i) rows else 0)
      → count_by (listed_as t i) (r ∷ rest)
        ≡ (if table.name == t then count_by (of_cell i) (row ∷ rows) else 0)
  one_more t i id row rows r rest cell type same h = ground arith

  pub count_by-scan_resources :
      (t i : Text) (rows : List Row) (rs : List Resource)
      → scan_resources table server rows ≡ ok rs
      → count_by (listed_as t i) rs ≡ (if table.name == t then count_by (of_cell i) rows else 0)
  count_by-scan_resources t i [] rs h = rw (scan_nothing rs h) (ground arith)
  count_by-scan_resources t i (row ∷ rows) rs h =
      let (r, rest, one, others, same) = scan_step row rows rs h in
      let (id, cell, type, _, same_id) = scan_row-ok row (row.cell table.id_column) r one in
      ap (count_by (listed_as t i)) same
      ∙ one_more t i id row rows r rest cell type same_id
          (count_by-scan_resources t i rows rest others)

  -- A resource is one of the rows.
  pub record IsScanned (rows : List Row) (r : Resource) : Type 0 where
    pub kind : r.resource_type ≡ table.name
    pub column : r.id_column ≡ table.id_column
    pub present : 1 ≤ count_by (of_cell r.id) rows

  first-IsScanned :
      (row : Row) (rows : List Row) (r : Resource)
      → (id : Text) × (row.cell table.id_column ≡ some id)
        × (r.resource_type ≡ table.name)
        × (r.id_column ≡ table.id_column)
        × (r.id ≡ id)
      → IsScanned (row ∷ rows) r
  first-IsScanned row rows r (id, cell, type, col, same) = record {
    kind = type;
    column = col;
    present = ground arith;
  }

  later-IsScanned :
      (row : Row) (rows : List Row) (r : Resource) → IsScanned rows r → IsScanned (row ∷ rows) r
  later-IsScanned row rows r s = record {
    kind = s.kind;
    column = s.column;
    present = omega (arith, s.present);
  }

  pub All-IsScanned :
      (rows : List Row) (rs : List Resource)
      → scan_resources table server rows ≡ ok rs
      → All (IsScanned rows) rs
  All-IsScanned [] rs h = rw (scan_nothing rs h) tt
  All-IsScanned (row ∷ rows) rs h =
      let (r, rest, one, others, same) = scan_step row rows rs h in
      rw same (
        first-IsScanned row rows r (scan_row-ok row (row.cell table.id_column) r one),
        All-map (IsScanned rows) (IsScanned (row ∷ rows)) (later-IsScanned row rows) rest
            (All-IsScanned rows rest others),
      )
