-- ===== src/Dokploydb/Columns/Candidates.antt =====
-- Which ID columns the adapter accepts.
use dokploymigrator.Base.{
  Text, codes, List, [], ◌∷◌, ◌++◌, ◌==◌, text_eq, if◌then◌else◌, ok, err, ◌≡◌, refl, arith, ◌≢◌,
  ◌⊎◌, inl, inr,
}
use dokploymigrator.Dokploydb.Columns.{
  unique_strings, specific_id_column, id_column_candidates, default_id_column, allowed_column,
  or_error, validated_id_column, ColumnError,
}

-- A table's own column, and `id`.
abbrev named : Text → List Text
named table = (table ++ codes "Id") ∷ codes "id" ∷ []

specific-cases :
    (table : Text)
    → (specific_id_column table ≡ []) ⊎ (specific_id_column table ≡ (table ++ codes "Id") ∷ [])
unfolding specific_id_column
specific-cases table = ground arith

pub suffixed-ne-nil : (table : Text) → table ++ codes "Id" ≢ []
suffixed-ne-nil [] h = cc
suffixed-ne-nil (c ∷ table) h = cc

pub suffixed-ne-id : (table : Text) → table ++ codes "Id" ≢ codes "id"
suffixed-ne-id [] h = ground arith
suffixed-ne-id (c ∷ []) h = ground arith
suffixed-ne-id (c ∷ d ∷ []) h = ground arith
suffixed-ne-id (c ∷ d ∷ e ∷ table) h = ground arith

unique-named : (table : Text) → unique_strings (named table) ≡ named table
unfolding unique_strings
unique-named table = ground (arith, suffixed-ne-nil table, suffixed-ne-id table)

unique-twice : (table : Text) → unique_strings ((table ++ codes "Id") ∷ named table) ≡ named table
unfolding unique_strings
unique-twice table = ground (arith, suffixed-ne-nil table, suffixed-ne-id table)

-- For every table the candidates are the name of the table with `Id` behind it, and `id`, in this
-- order and each once.
pub id_column_candidates-eq :
    (table : Text) → id_column_candidates table ≡ (table ++ codes "Id") ∷ codes "id" ∷ []
unfolding id_column_candidates unique_strings
id_column_candidates-eq table = elim (specific-cases table) [
  | inl e ↦ rw e (unfold unique_strings in unique-named table)
  | inr e ↦ rw e (unique-twice table)
]

-- The loop of `validatedIDColumn` over the two candidates.
accepts :
    (table candidate d i : Text)
    → default_id_column table ≡ d
    → d ≢ i
    → or_error
        (allowed_column table candidate (d ∷ i ∷ []))
        (ColumnError.id_column_not_valid candidate table)
      ≡ (if candidate == []
          then ok d
          else if candidate == d
          then ok d
          else if candidate == i
          then ok i
          else err (ColumnError.id_column_not_valid candidate table))
unfolding allowed_column or_error
accepts table candidate d i e h = rw e (ground arith)

-- For every table, an ID column is accepted exactly if it is the name of the table with `Id` behind
-- it, or `id`; an empty one stands for the first.
pub validated_id_column-eq :
    (table candidate : Text)
    → validated_id_column table candidate ≡ (
        if candidate == []
        then ok (table ++ codes "Id")
        else if candidate == table ++ codes "Id"
        then ok (table ++ codes "Id")
        else if candidate == codes "id"
        then ok (codes "id")
        else err (ColumnError.id_column_not_valid candidate table))
unfolding validated_id_column
validated_id_column-eq table candidate = rw (id_column_candidates-eq table) (
    accepts table candidate (table ++ codes "Id") (codes "id") (unfold default_id_column in refl)
      (suffixed-ne-id table))

accepted :
    (candidate d i c : Text) (e : ColumnError)
    → (if candidate == []
        then ok d
        else if candidate == d
        then ok d
        else if candidate == i
        then ok i
        else err e)
      ≡ ok c
    → c ≡ (if candidate == [] then d else candidate)
accepted candidate d i c e h = ground arith

pub validated_id_column-ok :
    (table candidate c : Text)
    → validated_id_column table candidate ≡ ok c
    → c ≡ (if candidate == [] then table ++ codes "Id" else candidate)
validated_id_column-ok table candidate c h =
    accepted candidate (table ++ codes "Id") (codes "id") c _
      (rw (validated_id_column-eq table candidate) at h)
