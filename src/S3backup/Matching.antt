-- ===== src/S3backup/Matching.antt =====
-- Which objects of a bucket belong to a resource, in internal/s3backup/s3backup.go.
use dokploymigrator.Base.{
  ℕ, Text, codes, [], map, Bool, true, false, ◌||◌, ◌&&◌, ◌==◌, ◌!=◌, nat_eq, text_eq,
  if◌then◌else◌, to_lower, equal_fold, has_suffix, contains_text,
}
use dokploymigrator.Model.{Resource}
use dokploymigrator.Sshrestore.Paths.{path_base}
use dokploymigrator.S3backup.Bucket.{Manifest}

-- `strings.NewReplacer(" ", "-", "_", "-", "/", "-", ".", "-")` on one rune
abbrev pub dash : ℕ → ℕ
dash c = if c == b' ' || c == b'_' || c == b'/' || c == b'.' then b'-' else c

unfoldable pub normalize : (ℕ → ℕ) → Text → Text
unfolding to_lower
normalize lower_rune value = map dash (to_lower lower_rune value)

unfoldable pub is_manifest_key : (ℕ → ℕ) → Text → Bool
unfolding to_lower path_base has_suffix
is_manifest_key lower_rune key =
    let base = to_lower lower_rune (path_base key) in
    base == codes "manifest.json" || has_suffix base (codes ".manifest.json")

unfoldable pub looks_like_backup : (ℕ → ℕ) → Text → Bool
unfolding to_lower has_suffix
looks_like_backup lower_rune key =
    let lower = to_lower lower_rune key in
    has_suffix lower (codes ".tar.gz")
    || has_suffix lower (codes ".tgz")
    || has_suffix lower (codes ".sql.gz")
    || has_suffix lower (codes ".dump")
    || has_suffix lower (codes ".archive")

unfoldable pub name_matches : (ℕ → ℕ) → Text → Resource → Bool
unfolding normalize contains_text
name_matches lower_rune key resource =
    let normalized_key = normalize lower_rune key in
    (resource.id != [] && contains_text normalized_key (normalize lower_rune resource.id))
    || resource.name != [] && contains_text normalized_key (normalize lower_rune resource.name)

-- `fold_rune` stands for the Unicode tables of `strings.EqualFold`.
unfoldable pub manifest_matches : (ℕ → ℕ) → (ℕ → ℕ) → Manifest → Resource → Bool
unfolding normalize equal_fold
manifest_matches lower_rune fold_rune manifest resource =
    if manifest.resource_id != [] && manifest.resource_id == resource.id
    then true
    else if manifest.resource_type != [] && manifest.resource_type != resource.resource_type
    then false
    else equal_fold fold_rune (normalize lower_rune manifest.resource_name)
        (normalize lower_rune resource.name)
