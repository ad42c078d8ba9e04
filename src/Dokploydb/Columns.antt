-- ===== src/Dokploydb/Columns.antt =====
-- The table and column allowlists of internal/dokploydb/postgres.go, and its quoting.
pub mod Candidates
use dokploymigrator.Base.{
  Text, codes, List, [], ◌∷◌, ◌++◌, Bool, true, false, Option, none, some, ◌&&◌, ◌==◌, text_eq,
  contains, if◌then◌else◌, replace_all, Result, ok, err,
}
use dokploymigrator.Model.{Resource}

pub data ColumnError : Type 0 where
  id_column_not_valid : Text → Text → ColumnError

abbrev pub retarget_tables : List Text
retarget_tables =
    codes "application"
    ∷ codes "compose"
    ∷ codes "postgres"
    ∷ codes "mysql"
    ∷ codes "mariadb"
    ∷ codes "mongo"
    ∷ codes "redis"
    ∷ codes "libsql"
    ∷ codes "domain"
    ∷ []

unfoldable pub is_retarget_table : Text → Bool
is_retarget_table table = contains retarget_tables table

unfoldable pub default_id_column : Text → Text
default_id_column table = table ++ codes "Id"

-- `seen` holds what `out` holds.
unique_from : List Text → List Text → List Text
unique_from [] seen = []
unique_from (value ∷ values) seen =
    let skip = unique_from values seen in
    let keep = value ∷ unique_from values (value ∷ seen) in
    if value == [] then skip else if contains seen value then skip else keep

unfoldable pub unique_strings : List Text → List Text
unfolding unique_from
unique_strings values = unique_from values []

-- The column that the `switch` of `idColumnCandidates` puts in front.
specific_id_column : Text → List Text
specific_id_column table =
    if table == codes "application"
    then codes "applicationId" ∷ []
    else if table == codes "compose"
    then codes "composeId" ∷ []
    else if table == codes "postgres"
    then codes "postgresId" ∷ []
    else if table == codes "mysql"
    then codes "mysqlId" ∷ []
    else if table == codes "mariadb"
    then codes "mariadbId" ∷ []
    else if table == codes "mongo"
    then codes "mongoId" ∷ []
    else if table == codes "redis"
    then codes "redisId" ∷ []
    else if table == codes "libsql"
    then codes "libsqlId" ∷ []
    else if table == codes "domain"
    then codes "domainId" ∷ []
    else []

unfoldable pub id_column_candidates : Text → List Text
unfolding unique_strings specific_id_column default_id_column
id_column_candidates table =
    unique_strings (specific_id_column table ++ default_id_column table ∷ codes "id" ∷ [])

-- The loop of `resourceIDColumn` over the candidates; `columns` tells which columns there are.
unfoldable pub first_candidate : List Text → (Text → Bool) → Option Text
first_candidate [] columns = none
first_candidate (candidate ∷ candidates) columns =
    if columns candidate then some candidate else first_candidate candidates columns

unfoldable pub resource_id_column : Text → (Text → Bool) → Option Text
unfolding first_candidate id_column_candidates
resource_id_column table columns = first_candidate (id_column_candidates table) columns

allowed_column : Text → Text → List Text → Option Text
allowed_column table candidate [] = none
allowed_column table candidate (allowed ∷ rest) =
    if candidate == [] && allowed == default_id_column table
    then some allowed
    else if candidate == allowed
    then some allowed
    else allowed_column table candidate rest

or_error : {A : Type 0} → Option A → ColumnError → Result ColumnError A
or_error none e = err e
or_error (some a) e = ok a

unfoldable pub validated_id_column : Text → Text → Result ColumnError Text
unfolding allowed_column id_column_candidates or_error
validated_id_column table candidate =
    or_error (allowed_column table candidate (id_column_candidates table))
      (id_column_not_valid candidate table)

unfoldable pub quote_identifier : Text → Text
unfolding replace_all
quote_identifier identifier = codes "\"" ++ replace_all identifier b'"' (codes "\"\"") ++ codes "\""
