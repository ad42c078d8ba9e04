-- ===== src/Model.antt =====
-- internal/model/model.go: the domain types that the other packages share.
use dokploymigrator.Base.{
  ℕ, ℤ, Text, codes, Option, none, some, List, ◌==◌, text_eq, if◌then◌else◌, ◌||◌,
}

-- The marker for resources that Dokploy stores with `serverId = NULL`.
abbrev pub local_server_id : Text
local_server_id = codes "__dokploy_local__"

abbrev pub local_server_name : Text
local_server_name = codes "Main local Dokploy"

pub data ServerStatus : Type 0 where
  server_online server_offline server_unknown : ServerStatus

unfoldable pub ServerStatus-discrete : Discrete ServerStatus
ServerStatus-discrete = hlevel

-- A point in time is a number of nanoseconds.
pub record Server : Type 0 where
  pub id : Text
  pub name : Text
  pub status : ServerStatus
  pub last_seen_at : Option ℕ
  pub resource_count : ℕ

pub record Resource : Type 0 where
  pub id : Text
  pub id_column : Text
  pub name : Text
  pub resource_type : Text
  pub server_id : Text

-- A backup in an S3 bucket that may restore a resource.
pub record BackupCandidate : Type 0 where
  pub resource_id : Text
  pub resource_name : Text
  pub resource_type : Text
  pub key : Text
  pub etag : Text
  pub checksum : Text
  pub size : ℤ
  pub last_modified : ℕ
  pub confidence : Text

-- One change of the database that a dry-run plan proposes.
pub record PlanRow : Type 0 where
  pub table : Text
  pub id_column : Text
  pub id : Text
  pub name : Text
  pub old_server_id : Text
  pub new_server_id : Text

pub record MigrationPlan : Type 0 where
  pub id : Text
  pub source_server_id : Text
  pub target_server_id : Text
  pub created_at : ℕ
  pub schema_hash : Text
  pub rows : List PlanRow

abbrev pub mode_dead_recovery : Text
mode_dead_recovery = codes "dead_recovery"

abbrev pub mode_planned_relocation : Text
mode_planned_relocation = codes "planned_relocation"

-- `none` is the result `("", false)`.
unfoldable pub normalize_migration_mode : Text → Option Text
normalize_migration_mode mode =
    if mode == codes ""
    then some mode_dead_recovery
    else if mode == mode_dead_recovery || mode == mode_planned_relocation
    then some mode
    else none
