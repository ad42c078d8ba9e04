-- ===== src/Dokploydb/Plan/Tables.antt =====
-- The supported tables of a schema: what each of them has, and that none stands twice.
use dokploymigrator.Base.{
  ◌≤◌, Text, codes, List, [], ◌∷◌, ◌++◌, some, true, Bool, less, ◌==◌, text_eq, nat_eq, count_by,
  count_by-sort_by, All-sort_by, ◌≡◌, ◌≢◌, refl, sym, arith, ◌∙◌, All, ok, Option-cases, Bool-cases,
  inl, inr, ◌⊎◌,
}
use dokploymigrator.Dokploydb.Postgres.{Column, has_column, server_id_column}
use dokploymigrator.Dokploydb.Columns.{
  retarget_tables, is_retarget_table, resource_id_column, first_candidate, validated_id_column,
}
use dokploymigrator.Dokploydb.Columns.Candidates.{
  id_column_candidates-eq, suffixed-ne-nil, suffixed-ne-id, validated_id_column-eq,
}
use dokploymigrator.Dokploydb.Resources.{SupportedTable, supported_table, collect_tables, tables_of}

-- What a table has of which the resources are listed.
pub record IsSupported (schema : List Column) (table : SupportedTable) : Type 0 where
  pub allowed : is_retarget_table table.name ≡ true
  pub chosen : resource_id_column table.name (has_column schema table.name) ≡ some table.id_column
  pub server : has_column schema table.name server_id_column ≡ true

first_candidate-ok :
    (d i c : Text) (columns : Text → Bool)
    → first_candidate (d ∷ i ∷ []) columns ≡ some c
    → (columns c ≡ true) × ((c ≡ d) ⊎ (c ≡ i))
unfolding first_candidate
first_candidate-ok d i c columns h = elim (Bool-cases (columns d)) [
  | inl has ↦ (ground arith, inl (ground arith))
  | inr hasnot ↦ elim (Bool-cases (columns i)) [
    | inl has ↦ (ground arith, inr (ground arith))
    | inr none_there ↦ absurd (ground arith)
  ]
]

candidate_accepted :
    (table c : Text)
    → (c ≡ table ++ codes "Id") ⊎ (c ≡ codes "id")
    → (c ≢ []) × (validated_id_column table c ≡ ok c)
candidate_accepted table c (inl e) = (
  λ h. suffixed-ne-nil table (sym e ∙ h),
  validated_id_column-eq table c ∙ ground (arith, suffixed-ne-nil table),
)
candidate_accepted table c (inr e) =
    (λ h. cc, validated_id_column-eq table c ∙ ground (arith, suffixed-ne-id table))

-- The column that is chosen for a table is there, and the guard of a write accepts it.
pub resource_id_column-ok :
    (schema : List Column) (table c : Text)
    → resource_id_column table (has_column schema table) ≡ some c
    → (has_column schema table c ≡ true) × (c ≢ []) × (validated_id_column table c ≡ ok c)
unfolding resource_id_column
resource_id_column-ok schema table c h =
    let (there, which) =
      first_candidate-ok (table ++ codes "Id") (codes "id") c (has_column schema table)
        (rw (id_column_candidates-eq table) at h) in
    let (given, accepted) = candidate_accepted table c which in (there, given, accepted)

supported_table-IsSupported :
    (schema : List Column) (name : Text) (table : SupportedTable)
    → is_retarget_table name ≡ true
    → supported_table schema name ≡ some table
    → IsSupported schema table × (table.name ≡ name)
unfolding supported_table
supported_table-IsSupported schema name table allowed h =
    elim (Option-cases (resource_id_column name (has_column schema name))) [
      | inl no_column ↦ absurd (ground arith)
      | inr (c, chosen) ↦ elim (Bool-cases (has_column schema name server_id_column)) [
        | inl server ↦
            let same : table ≡ record {
              name = name;
              id_column = c;
              has_name = has_column schema name (codes "name");
            } =
              ground arith in
            rw same (record { allowed = allowed; chosen = chosen; server = server }, refl)
        | inr no_server ↦ absurd (ground arith)
      ]
    ]

retarget_tables-allowed : All (λ name. is_retarget_table name ≡ true) retarget_tables
unfolding is_retarget_table text_eq nat_eq
retarget_tables-allowed = (refl, (refl, (refl, (refl, (refl, (refl, (refl, (refl, (refl, tt)))))))))

retarget_tables-once : (t : Text) → count_by (λ name. name == t) retarget_tables ≤ 1
retarget_tables-once t = ground arith

-- The tables of which the names are among `names`.
IsSupported-among :
    (schema : List Column) (names : List Text)
    → All (λ name. is_retarget_table name ≡ true) names
    → All (IsSupported schema) (collect_tables schema names)
unfolding collect_tables
IsSupported-among schema [] _ = tt
IsSupported-among schema (name ∷ names) (a, rest) =
    elim (Option-cases (supported_table schema name)) [
      | inl out ↦ rw out (IsSupported-among schema names rest)
      | inr (table, found) ↦ rw found (
        (supported_table-IsSupported schema name table a found).0,
        IsSupported-among schema names rest,
      )
    ]

pub tables_of-IsSupported : (schema : List Column) → All (IsSupported schema) (tables_of schema)
unfolding tables_of
tables_of-IsSupported schema =
    All-sort_by (λ a b. less a.name b.name) (IsSupported schema) _
      (IsSupported-among schema retarget_tables retarget_tables-allowed)

-- How many tables have a name.
abbrev pub named : Text → SupportedTable → Bool
named t table = table.name == t

count_by-collect_tables :
    (schema : List Column) (t : Text) (names : List Text)
    → All (λ name. is_retarget_table name ≡ true) names
    → count_by (named t) (collect_tables schema names) ≤ count_by (λ name. name == t) names
unfolding collect_tables
count_by-collect_tables schema t [] _ = omega arith
count_by-collect_tables schema t (name ∷ names) (a, rest) =
    elim (Option-cases (supported_table schema name)) [
      | inl out ↦ rw out (ground (arith, count_by-collect_tables schema t names rest))
      | inr (table, found) ↦
          let (_, same) = supported_table-IsSupported schema name table a found in
          rw found (ground (arith, count_by-collect_tables schema t names rest))
    ]

pub count_by-tables_of :
    (schema : List Column) (t : Text) → count_by (named t) (tables_of schema) ≤ 1
unfolding tables_of
count_by-tables_of schema t = omega (
  arith,
  count_by-sort_by (λ a b. less a.name b.name) (named t) (collect_tables schema retarget_tables),
  count_by-collect_tables schema t retarget_tables retarget_tables-allowed,
  retarget_tables-once t,
)
