-- ===== src/Dokploydb/Status.antt =====
-- The columns of the table `server`, and `classifyServerStatus`.
use Prim.Native.Nat.{min}
use dokploymigrator.Base.{
  ℕ, Text, codes, Option, none, some, List, [], ◌∷◌, Bool, ◌||◌, ℤ, pos, negsuc, leb_ℤ, ltb_ℤ,
  sub_ℕ, contains, contains_text, to_lower, trim_space, ◌==◌, nat_eq, text_eq, option_eq, filter_by,
  if◌then◌else◌, Result, ok, err, ◌>>◌, wrap,
}
use dokploymigrator.Model.{ServerStatus, server_online, server_offline, server_unknown}
use dokploymigrator.Dokploydb.Postgres.{Column, Database, Faults, unless}
use dokploymigrator.Dokploydb.Adapter.{AdapterError, sql, table_not_found}

abbrev pub server_table : Text
server_table = codes "server"

-- The columns of one table, by name: their data types.
unfoldable pub column_type : List Column → Text → Option Text
column_type [] name = none
column_type (c ∷ columns) name =
    if c.column_name == name then some c.data_type else column_type columns name

abbrev pub or_not_found : Text → List Column → Result AdapterError (List Column)
or_not_found table [] = err (table_not_found table)
or_not_found table (c ∷ columns) = ok (c ∷ columns)

unfoldable pub table_columns : Faults → Text → Database → Result AdapterError (List Column)
table_columns faults table db = do
  wrap sql (unless (faults.query (codes "information_schema.columns")))
  or_not_found table (filter_by (λ c. c.table_name == table) db.schema)

unfoldable pub first_existing_column : List Column → List Text → Option Text
unfolding column_type
first_existing_column columns [] = none
first_existing_column columns (candidate ∷ candidates) = elim (column_type columns candidate) [
  | none ↦ first_existing_column columns candidates
  | some _ ↦ some candidate
]

-- Go's Unicode table of lower case, for the runes beyond ASCII.
module _ (lower_rune : ℕ → ℕ) where
  abbrev pub is_temporal : Text → Bool
  is_temporal data_type =
      let lower = to_lower lower_rune data_type in
      contains_text lower (codes "timestamp") || contains_text lower (codes "date")

  unfoldable pub first_temporal_column : List Column → List Text → Option Text
  unfolding column_type
  first_temporal_column columns [] = none
  first_temporal_column columns (candidate ∷ candidates) =
      let rest = first_temporal_column columns candidates in
      elim (column_type columns candidate) [
        | none ↦ rest
        | some data_type ↦ if is_temporal data_type then some candidate else rest
      ]

  abbrev pub online_words : List Text
  online_words =
      codes "online"
      ∷ codes "healthy"
      ∷ codes "active"
      ∷ codes "connected"
      ∷ codes "running"
      ∷ codes "ready"
      ∷ []

  abbrev pub offline_words : List Text
  offline_words =
      codes "offline"
      ∷ codes "dead"
      ∷ codes "failed"
      ∷ codes "inactive"
      ∷ codes "disconnected"
      ∷ codes "error"
      ∷ codes "unreachable"
      ∷ []

  -- `now.Sub` stops at the ends of a `time.Duration`, an `int64`.
  abbrev pub saturated : ℤ → ℤ
  saturated (pos n) = pos (min n 9223372036854775807)
  saturated (negsuc n) = negsuc (min n 9223372036854775807)

  -- The end of the function, for a status that is no known word.
  abbrev pub by_last_seen : Option ℕ → ℤ → ℕ → ServerStatus
  by_last_seen none dead_after now = server_unknown
  by_last_seen (some seen) dead_after now =
      if leb_ℤ dead_after (pos 0)
      then server_unknown
      else if ltb_ℤ dead_after (saturated (sub_ℕ now seen))
      then server_offline
      else server_online

  unfoldable pub classify_server_status : Text → Option ℕ → ℤ → ℕ → ServerStatus
  classify_server_status raw_status last_seen_at dead_after now =
      let normalized = to_lower lower_rune (trim_space raw_status) in
      if contains online_words normalized
      then server_online
      else if contains offline_words normalized
      then server_offline
      else by_last_seen last_seen_at dead_after now
