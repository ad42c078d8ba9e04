-- ===== src/Jobs/Subset.antt =====
-- `validatePlanSubset`: a submitted plan against the stored one.
pub mod Sound
pub mod Complete
use dokploymigrator.Base.{
  Text, codes, List, [], ◌∷◌, Option, none, some, Bool, true, false, not, ◌&&◌, ◌||◌, ◌==◌, ◌!=◌,
  text_eq, trim_space, any, if◌then◌else◌, Result, ok, err, ◌>>=◌, ◌>>◌, fail_if,
}
use dokploymigrator.Model.{PlanRow, MigrationPlan}

pub data SubsetError : Type 0 where
  plan_changed rows_required stored_row_incomplete submitted_row_incomplete : SubsetError
  stored_duplicate submitted_duplicate not_stored : PlanRow → SubsetError

pub record Identity : Type 0 where
  pub table : Text
  pub id_column : Text
  pub id : Text
  pub old_server_id : Text
  pub new_server_id : Text

unfoldable pub identity_of : PlanRow → Identity
identity_of row = record {
  table = trim_space row.table;
  id_column = trim_space row.id_column;
  id = trim_space row.id;
  old_server_id = trim_space row.old_server_id;
  new_server_id = trim_space row.new_server_id;
}

unfoldable pub is_incomplete : Identity → Bool
is_incomplete i =
    i.table == []
    || i.id_column == []
    || i.id == []
    || i.old_server_id == []
    || i.new_server_id == []

-- Go's `==` on the two structs
unfoldable pub same_identity : Identity → Identity → Bool
same_identity a b =
    a.table == b.table
    && a.id_column == b.id_column
    && a.id == b.id
    && a.old_server_id == b.old_server_id
    && a.new_server_id == b.new_server_id

unfoldable pub same_row : PlanRow → PlanRow → Bool
same_row a b =
    a.table == b.table
    && a.id_column == b.id_column
    && a.id == b.id
    && a.name == b.name
    && a.old_server_id == b.old_server_id
    && a.new_server_id == b.new_server_id

-- The map from identities to rows: its values, from which the keys are computed.
unfoldable pub find_row : Identity → List PlanRow → Option PlanRow
unfolding same_identity identity_of
find_row i [] = none
find_row i (row ∷ rows) = if same_identity i (identity_of row) then some row else find_row i rows

abbrev pub is_found : Option PlanRow → Bool
is_found none = false
is_found (some row) = true

-- The loop over the stored rows; `stored` is the map so far.
unfoldable pub collect_stored : List PlanRow → List PlanRow → Result SubsetError (List PlanRow)
unfolding is_incomplete find_row
collect_stored [] stored = ok stored
collect_stored (row ∷ rows) stored = do
  fail_if (is_incomplete (identity_of row)) stored_row_incomplete
  fail_if (is_found (find_row (identity_of row) stored)) (stored_duplicate row)
  collect_stored rows (row ∷ stored)

-- `!exists || storedRow != row`
abbrev pub differs : Option PlanRow → PlanRow → Bool
differs none row = true
differs (some stored) row = not (same_row stored row)

unfoldable pub is_submitted : Identity → List Identity → Bool
unfolding same_identity
is_submitted i seen = any (same_identity i) seen

-- The loop over the submitted rows; `seen` is the set so far.
unfoldable pub check_submitted :
    List PlanRow → List Identity → List PlanRow → Result SubsetError (Unit {0})
unfolding is_incomplete is_submitted find_row same_row
check_submitted stored seen [] = ok tt
check_submitted stored seen (row ∷ rows) = do
  fail_if (is_incomplete (identity_of row)) submitted_row_incomplete
  fail_if (is_submitted (identity_of row) seen) (submitted_duplicate row)
  fail_if (differs (find_row (identity_of row) stored) row) (not_stored row)
  check_submitted stored (identity_of row ∷ seen) rows

abbrev is_empty : List PlanRow → Bool
is_empty [] = true
is_empty (row ∷ rows) = false

unfoldable pub validate_plan_subset : MigrationPlan → MigrationPlan → Result SubsetError (Unit {0})
unfolding collect_stored check_submitted
validate_plan_subset stored submitted = do
  fail_if
      (stored.source_server_id != submitted.source_server_id
        || stored.target_server_id != submitted.target_server_id
        || stored.schema_hash != submitted.schema_hash)
      plan_changed
  fail_if (is_empty submitted.rows) rows_required
  rows ← collect_stored stored.rows []
  check_submitted rows [] submitted.rows
