-- ===== src/Dokploydb/Postgres.antt =====
-- What the SQL of internal/dokploydb/postgres.go sees of the Dokploy database, and what its
-- statements do there. The server may refuse any statement: the refusals are arguments.
use dokploymigrator.Base.{
  ℕ, ◌+◌, Text, codes, Option, none, some, List, [], ◌∷◌, map, Bool, ◌&&◌, not, ◌==◌, text_eq,
  option_eq, any, if◌then◌else◌, Result, ok, err, ◌>>◌, fail_if,
}

-- Why the server, or the connection to it, refused a statement.
pub data Failure : Type 0 where
  failure : ℕ → Failure

-- What can go wrong in a call of the adapter. `exec n` is the n-th statement of the transaction.
pub record Faults : Type 0 where
  pub query : Text → Option Failure
  pub begin_tx : Option Failure
  pub exec : ℕ → Option Failure
  pub commit : Option Failure

abbrev pub no_faults : Faults
no_faults = record { query = λ t. none; begin_tx = none; exec = λ n. none; commit = none }

pub record Column : Type 0 where
  pub table_name : Text
  pub column_name : Text
  pub data_type : Text

-- A row of a table: its `serverId`, which is `none` for NULL, its other columns cast to text, and
-- its columns that hold a time.
pub record Row : Type 0 where
  pub server_id : Option Text
  pub cell : Text → Option Text
  pub time_cell : Text → Option ℕ

-- `schema` is what `information_schema.columns` says of the schema `public`, by table name and
-- ordinal position.
pub record Database : Type 0 where
  pub schema : List Column
  pub rows : Text → List Row

abbrev pub server_id_column : Text
server_id_column = codes "serverId"

unfoldable pub has_column : List Column → Text → Text → Bool
has_column schema table column = any (λ c. c.table_name == table && c.column_name == column) schema

-- `UPDATE table SET "serverId" = … WHERE id_column = … AND "serverId" …`; `none` is NULL.
pub record Update : Type 0 where
  pub table : Text
  pub id_column : Text
  pub set_server : Option Text
  pub where_id : Text
  pub where_server : Option Text

unfoldable pub matches : Update → Row → Bool
matches u r = r.cell u.id_column == some u.where_id && r.server_id == u.where_server

abbrev pub set_server_id : Option Text → Row → Row
set_server_id s r = record r { server_id = s }

unfoldable pub update_row : Update → Row → Row
update_row u r = if matches u r then set_server_id u.set_server r else r

unfoldable pub count_rows : (Row → Bool) → List Row → ℕ
count_rows p [] = 0
count_rows p (r ∷ rs) = (if p r then 1 else 0) + count_rows p rs

unfoldable pub run_update : Update → Database → Database
run_update u db = record db {
  rows = λ t. if t == u.table then map (update_row u) (db.rows t) else db.rows t;
}

pub data SqlError : Type 0 where
  refused : Failure → SqlError
  undefined_column : Text → Text → SqlError

-- `none` lets the statement run.
abbrev pub unless : Option Failure → Result SqlError (Unit {0})
unless none = ok tt
unless (some f) = err (refused f)

-- `tx.ExecContext`: the new state and the number of affected rows.
unfoldable pub exec_update : Option Failure → Update → Database → Result SqlError (Database × ℕ)
unfolding run_update count_rows
exec_update fault u db = do
  unless fault
  fail_if (not (has_column db.schema u.table u.id_column)) (undefined_column u.table u.id_column)
  fail_if (not (has_column db.schema u.table server_id_column))
      (undefined_column u.table server_id_column)
  ok (run_update u db, count_rows (matches u) (db.rows u.table))
