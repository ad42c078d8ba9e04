-- ===== src/Sshrestore/Commands.antt =====
-- `shellQuote`, `BuildVolumeRestoreCommand` and `BuildDBRestoreCommand` of
-- internal/sshrestore/sshrestore.go.
use dokploymigrator.Base.{
  Text, codes, [], ◌∷◌, ◌++◌, ◌||◌, ◌==◌, text_eq, if◌then◌else◌, replace_all, concat, Result, ok,
  ◌>>◌, fail_if,
}
use dokploymigrator.Sshrestore.Paths.{path_base, path_dir}

pub data CommandError : Type 0 where
  archive_and_volume_required archive_container_and_command_required : CommandError

abbrev pub default_restore_image : Text
default_restore_image = codes "alpine:3.23.5"

unfoldable pub shell_quote : Text → Text
unfolding replace_all
shell_quote value =
    if value == []
    then codes "''"
    else codes "'" ++ replace_all value b'\'' (codes "'\"'\"'") ++ codes "'"

abbrev pub or_default : Text → Text
or_default image = if image == [] then default_restore_image else image

abbrev pub inner_archive_path : Text → Text
inner_archive_path archive = shell_quote (codes "/backup/" ++ path_base archive)

abbrev pub volume_script : Text → Text
volume_script archive =
    concat (codes "tar -xzf " ∷ inner_archive_path archive ∷ codes " -C /restore" ∷ [])

abbrev pub db_script : Text → Text → Text
db_script archive restore =
    concat (codes "gzip -dc " ∷ inner_archive_path archive ∷ codes " | " ∷ restore ∷ [])

unfoldable pub build_volume_restore_command : Text → Text → Text → Result CommandError Text
unfolding shell_quote path_base path_dir
build_volume_restore_command archive volume image = do
  fail_if (archive == [] || volume == []) archive_and_volume_required
  ok (
      concat (
        codes "docker run --rm -v "
        ∷ shell_quote (path_dir archive)
        ∷ codes ":/backup:ro -v "
        ∷ shell_quote volume
        ∷ codes ":/restore "
        ∷ shell_quote (or_default image)
        ∷ codes " sh -c "
        ∷ shell_quote (volume_script archive)
        ∷ []))

unfoldable pub build_db_restore_command : Text → Text → Text → Result CommandError Text
unfolding shell_quote path_base path_dir
build_db_restore_command archive container restore = do
  fail_if (archive == [] || container == [] || restore == []) archive_container_and_command_required
  ok (
      concat (
        codes "docker run --rm --volumes-from "
        ∷ shell_quote container
        ∷ codes " -v "
        ∷ shell_quote (path_dir archive)
        ∷ codes ":/backup:ro "
        ∷ shell_quote default_restore_image
        ∷ codes " sh -c "
        ∷ shell_quote (db_script archive restore)
        ∷ []))
