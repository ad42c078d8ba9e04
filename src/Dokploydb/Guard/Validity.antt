-- ===== src/Dokploydb/Guard/Validity.antt =====
-- What the checks before a write guarantee.
use dokploymigrator.Base.{
  Text, List, [], ◌∷◌, true, text_eq, contains, trim_space, All, ok, ◌≡◌, ◌≢◌, arith, refl, ◌⊎◌,
  ◌↔◌,
}
use dokploymigrator.Model.{PlanRow, MigrationPlan}
use dokploymigrator.Dokploydb.Guard.{
  validate_rows, validate_retarget_plan_for_write, validate_write_schema,
}

-- A row that may be written.
pub record IsWritable (source target : Text) (row : PlanRow) : Type 0 where
  pub table : trim_space row.table ≢ []
  pub id : trim_space row.id ≢ []
  pub old : row.old_server_id ≡ source
  pub new : row.new_server_id ≡ target

-- A plan that may be written.
pub record IsValid (plan : MigrationPlan) : Type 0 where
  pub id : trim_space plan.id ≢ []
  pub source : trim_space plan.source_server_id ≢ []
  pub target : trim_space plan.target_server_id ≢ []
  pub differ : plan.source_server_id ≢ plan.target_server_id
  pub hash : trim_space plan.schema_hash ≢ []
  pub some_row : plan.rows ≢ []
  pub writable : All (IsWritable plan.source_server_id plan.target_server_id) plan.rows

validate_rows_sound :
    (source target : Text) (rows : List PlanRow)
    → validate_rows source target rows ≡ ok tt
    → All (IsWritable source target) rows
unfolding validate_rows
validate_rows_sound source target [] h = tt
validate_rows_sound source target (row ∷ rows) h =
    (ground arith, validate_rows_sound source target rows (ground arith))

validate_rows_complete :
    (source target : Text) (rows : List PlanRow)
    → All (IsWritable source target) rows
    → validate_rows source target rows ≡ ok tt
unfolding validate_rows
validate_rows_complete source target [] h = refl
validate_rows_complete source target (row ∷ rows) (h, hs) =
    ground (arith, validate_rows_complete source target rows hs)

pub validate_sound :
    (plan : MigrationPlan) → validate_retarget_plan_for_write plan ≡ ok tt → IsValid plan
unfolding validate_retarget_plan_for_write
validate_sound plan h =
    ground (arith, validate_rows_sound plan.source_server_id plan.target_server_id plan.rows)

pub validate_complete :
    (plan : MigrationPlan) → IsValid plan → validate_retarget_plan_for_write plan ≡ ok tt
unfolding validate_retarget_plan_for_write
validate_complete plan v =
    ground (
      arith,
      validate_rows_complete plan.source_server_id plan.target_server_id plan.rows v.writable,
    )

-- The check of a plan passes exactly for the plans that have an ID, two servers that differ, a
-- schema hash and at least one row, each of them with a table and an ID and between the two servers.
validate_retarget_plan_for_write_iff :
    (plan : MigrationPlan) → (validate_retarget_plan_for_write plan ≡ ok tt) ↔ IsValid plan
validate_retarget_plan_for_write_iff plan = (validate_sound plan, validate_complete plan)

-- Why a write may go ahead at the schema with the fingerprint `current`.
pub record IsApproved (current plan_hash approval : Text) (allowed : List Text) : Type 0 where
  pub hash : plan_hash ≢ []
  pub same : plan_hash ≡ current
  pub approved :
      ((approval ≢ []) × (approval ≡ current))
      ⊎ ((approval ≡ []) × (contains allowed current ≡ true))

approval_sound :
    (current plan_hash approval : Text) (allowed : List Text)
    → validate_write_schema current plan_hash approval allowed ≡ ok tt
    → IsApproved current plan_hash approval allowed
unfolding validate_write_schema
approval_sound current plan_hash approval [] h = ground arith
approval_sound current plan_hash approval (a ∷ allowed) h = ground arith

approval_complete :
    (current plan_hash approval : Text) (allowed : List Text)
    → IsApproved current plan_hash approval allowed
    → validate_write_schema current plan_hash approval allowed ≡ ok tt
unfolding validate_write_schema
approval_complete current plan_hash approval [] v = ground arith
approval_complete current plan_hash approval (a ∷ allowed) v = ground arith

-- A write is let through exactly if the hash of the plan is that of the current schema, and the
-- operator approved this hash or, having approved none, has it in the allowlist.
pub validate_write_schema_iff :
    (current plan_hash approval : Text) (allowed : List Text)
    → (validate_write_schema current plan_hash approval allowed ≡ ok tt)
      ↔ IsApproved current plan_hash approval allowed
validate_write_schema_iff current plan_hash approval allowed = (
  approval_sound current plan_hash approval allowed,
  approval_complete current plan_hash approval allowed,
)
