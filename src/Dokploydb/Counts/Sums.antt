-- ===== src/Dokploydb/Counts/Sums.antt =====
-- The counts of `resourceCountsByServer` against the rows that they count.
use dokploymigrator.Base.{
  ℕ, suc, ◌+◌, Text, Option, none, some, List, [], ◌∷◌, ◌==◌, text_eq, option_eq, trim_space,
  if◌then◌else◌, Result, ok, err, wrap, >>=-eq-ok, ◌≡◌, refl, ap, ◌∙◌, arith,
}
use dokploymigrator.Model.{local_server_id}
use dokploymigrator.Dokploydb.Postgres.{Row, Database, Faults, unless}
use dokploymigrator.Dokploydb.Adapter.{sql}
use dokploymigrator.Dokploydb.Resources.{SupportedTable, supported_tables}
use dokploymigrator.Dokploydb.Counts.{
  Counts, bump_group, group_by_server, scan_count, scan_resource_counts, count_tables,
  resource_counts_by_server,
}

-- The server under which a resource is counted, where it is: NULL is the local server, spaces around
-- an ID do not matter, and a blank ID is no server.
counted_under : Option Text → Option Text
counted_under none = some local_server_id
counted_under (some id) = if trim_space id == [] then none else some (trim_space id)

-- How many of `n` resources with this `serverId` count for the server `k`.
share : Text → Option Text → ℕ → ℕ
unfolding counted_under
share k server_id n = if counted_under server_id == some k then n else 0

-- How many rows of a table count for the server `k`.
unfoldable pub rows_of : Text → List Row → ℕ
unfolding share
rows_of k [] = 0
rows_of k (row ∷ rows) = rows_of k rows + share k row.server_id 1

unfoldable pub rows_in : Text → Database → List SupportedTable → ℕ
unfolding rows_of
rows_in k db [] = 0
rows_in k db (table ∷ tables) = rows_of k (db.rows table.name) + rows_in k db tables

shares : Text → List (Option Text × ℕ) → ℕ
unfolding share
shares k [] = 0
shares k ((server_id, n) ∷ groups) = share k server_id n + shares k groups

scan_count-share :
    (k : Text) (server_id : Option Text) (n : ℕ) (counts : Counts)
    → scan_count server_id n counts k ≡ counts k + share k server_id n
unfolding scan_count share
scan_count-share k none n counts = ground arith
scan_count-share k (some id) n counts = ground arith

scan_resource_counts-shares :
    (k : Text) (groups : List (Option Text × ℕ)) (counts : Counts)
    → scan_resource_counts groups counts k ≡ counts k + shares k groups
unfolding scan_resource_counts shares
scan_resource_counts-shares k [] counts = omega arith
scan_resource_counts-shares k ((s, n) ∷ groups) counts = omega (
  arith,
  scan_resource_counts-shares k groups (scan_count s n counts),
  scan_count-share k s n counts,
)

share-suc : (k : Text) (s : Option Text) (n : ℕ) → share k s (suc n) ≡ share k s n + share k s 1
unfolding share
share-suc k s n = ground arith

bump_group-shares :
    (k : Text) (s : Option Text) (groups : List (Option Text × ℕ))
    → shares k (bump_group s groups) ≡ shares k groups + share k s 1
unfolding bump_group shares
bump_group-shares k s [] = omega arith
bump_group-shares k s ((t, n) ∷ groups) = elim (option_eq.dec s t) [
  | yes e ↦ ground (arith, share-suc k t n)
  | no d ↦ ground (arith, bump_group-shares k s groups)
]

group_by_server-shares :
    (k : Text) (rows : List Row) → shares k (group_by_server rows) ≡ rows_of k rows
unfolding group_by_server rows_of shares
group_by_server-shares k [] = refl
group_by_server-shares k (row ∷ rows) =
    bump_group-shares k row.server_id (group_by_server rows)
    ∙ ap (λ n. n + share k row.server_id 1) (group_by_server-shares k rows)

counted :
    (k : Text) (rows : List Row) (counts : Counts)
    → scan_resource_counts (group_by_server rows) counts k ≡ counts k + rows_of k rows
counted k rows counts =
    scan_resource_counts-shares k (group_by_server rows) counts
    ∙ ap (λ n. counts k + n) (group_by_server-shares k rows)

ok-inj : {E A : Type 0} (a b : A) → Path (Result E A) (ok a) (ok b) → a ≡ b
ok-inj {E} {A} a b h = ap value h
  where
    value : Result E A → A
    value (ok x) = x
    value (err e) = a

count_tables-rows_in :
    (faults : Faults) (k : Text) (db : Database) (tables : List SupportedTable) (counts c : Counts)
    → count_tables faults db tables counts ≡ ok c
    → c k ≡ counts k + rows_in k db tables
unfolding count_tables rows_in
count_tables-rows_in faults k db [] counts c h = omega (arith, ap (λ f. f k) (ok-inj counts c h))
count_tables-rows_in faults k db (table ∷ tables) counts c h =
    let counts' = scan_resource_counts (group_by_server (db.rows table.name)) counts in
    let (_, _, rest) =
      >>=-eq-ok (wrap sql (unless (faults.query table.name)))
        (λ _. count_tables faults db tables counts') h in
    omega (
      arith,
      count_tables-rows_in faults k db tables counts' c rest,
      counted k (db.rows table.name) counts,
    )

-- Where the counts can be read, the count of each server is the number of rows of all supported
-- tables that count for it: those with its ID, but for spaces around it, and for the local server
-- those with NULL too.
pub resource_counts_by_server-rows_in :
    (faults : Faults) (db : Database) (c : Counts)
    → resource_counts_by_server faults db ≡ ok c
    → (tables : List SupportedTable) × (supported_tables faults db ≡ ok tables)
      × ((k : Text) → c k ≡ rows_in k db tables)
unfolding resource_counts_by_server
resource_counts_by_server-rows_in faults db c h =
    let (tables, e, rest) =
      >>=-eq-ok (supported_tables faults db) (λ found. count_tables faults db found (λ k. 0)) h in
    (tables, e, λ k. omega (arith, count_tables-rows_in faults k db tables (λ j. 0) c rest))
