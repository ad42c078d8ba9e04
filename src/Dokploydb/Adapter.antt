-- ===== src/Dokploydb/Adapter.antt =====
-- The adapter, its allowlist and the schema fingerprint of internal/dokploydb/postgres.go.
use Prim.Native.Nat.{◌/◌, ◌%◌}
use dokploymigrator.Base.{
  ℕ, ◌+◌, ◌-◌, Text, codes, List, [], ◌∷◌, ◌++◌, map, ltb, ◌!=◌, nat_eq, text_eq, contains,
  filter_by, trim_space, if◌then◌else◌, Result, ok, err, ◌>>=◌, ◌>>◌, wrap,
}
use dokploymigrator.Model.{PlanRow}
use dokploymigrator.Dokploydb.Postgres.{Column, Database, Faults, SqlError, unless}
use dokploymigrator.Dokploydb.Columns.{ColumnError, retarget_tables}
use dokploymigrator.Dokploydb.Guard.{GuardError}

pub data AdapterError : Type 0 where
  sql : SqlError → AdapterError
  guard : GuardError → AdapterError
  column : ColumnError → AdapterError
  no_supported_tables : AdapterError
  fingerprint_not_allowlisted : Text → AdapterError
  source_and_target_required source_and_target_must_differ : AdapterError
  table_not_allowed : Text → AdapterError
  affected_rows : PlanRow → ℕ → AdapterError
  scan_null : Text → AdapterError
  table_not_found : Text → AdapterError
  server_id_column_missing : AdapterError

-- `allowed_hashes` holds the keys of the map.
pub record Adapter : Type 0 where
  pub allowed_hashes : List Text

insert_hash : Text → List Text → List Text
insert_hash hash allowed = if contains allowed hash then allowed else hash ∷ allowed

allow : List Text → List Text → List Text
unfolding insert_hash trim_space
allow [] allowed = allowed
allow (hash ∷ hashes) allowed = allow hashes (
    let trimmed = trim_space hash in if trimmed != [] then insert_hash trimmed allowed else allowed)

-- `sql.Open` does not connect yet, and its only error is a malformed DSN.
unfoldable pub open_postgres : List Text → Adapter
unfolding allow
open_postgres hashes = record { allowed_hashes = allow hashes [] }

hex_digit : ℕ → ℕ
hex_digit n = if ltb n 10 then b'0' + n else b'a' + n - 10

-- `hex.EncodeToString`
unfoldable pub hex : List ℕ → Text
unfolding hex_digit
hex [] = []
hex (b ∷ bytes) = hex_digit (b / 16 % 16) ∷ hex_digit (b % 16) ∷ hex bytes

unfoldable pub join_lines : List Text → Text
join_lines [] = []
join_lines (part ∷ []) = part
join_lines (part ∷ next ∷ parts) = part ++ codes "\n" ++ join_lines (next ∷ parts)

abbrev part_of : Column → Text
part_of c = c.table_name ++ codes "." ++ c.column_name ++ codes ":" ++ c.data_type

abbrev supported_columns : List Column → List Column
supported_columns = filter_by (λ c. contains retarget_tables c.table_name)

-- `sha256` is `sha256.Sum256` on the bytes of a text.
module _ (sha256 : Text → List ℕ) where
  fingerprint_of : List Text → Result AdapterError Text
  unfolding join_lines hex
  fingerprint_of [] = err no_supported_tables
  fingerprint_of (part ∷ parts) = ok (hex (sha256 (join_lines (part ∷ parts))))

  unfoldable pub schema_fingerprint : Faults → Database → Result AdapterError Text
  unfolding fingerprint_of
  schema_fingerprint faults db = do
    wrap sql (unless (faults.query (codes "information_schema.columns")))
    fingerprint_of (map part_of (supported_columns db.schema))

  unfoldable pub check_hash : List Text → Text → Result AdapterError Text
  check_hash [] hash = ok hash
  check_hash (a ∷ allowed) hash =
      if contains (a ∷ allowed) hash then ok hash else err (fingerprint_not_allowlisted hash)

  unfoldable pub validate_schema : Faults → Adapter → Database → Result AdapterError Text
  unfolding check_hash schema_fingerprint
  validate_schema faults a db = do
    hash ← schema_fingerprint faults db
    check_hash a.allowed_hashes hash
