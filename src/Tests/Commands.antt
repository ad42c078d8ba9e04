-- ===== src/Tests/Commands.antt =====
-- Tests of the restore commands of internal/sshrestore/sshrestore.go and of the settings.
use dokploymigrator.Base.{
  Text, codes, [], ◌∷◌, ◌++◌, none, some, ok, ◌≡◌, refl, if◌then◌else◌, ◌==◌, text_eq, nat_eq,
}
use dokploymigrator.Sshrestore.Paths.{path_base, path_dir}
use dokploymigrator.Sshrestore.Commands.{
  shell_quote, or_default, default_restore_image, volume_script, db_script,
  build_volume_restore_command, build_db_restore_command,
}
use dokploymigrator.Sshrestore.Shell.{shell_words}
use dokploymigrator.Sshrestore.Restore.{
  build_volume_restore_command-words, build_db_restore_command-words,
}
use dokploymigrator.Config.{Environment, config_of, load}
use dokploymigrator.Config.Loaded.{IsUsable, load-IsUsable}

base : path_base (codes "/tmp/backups/app.tar.gz") ≡ codes "app.tar.gz"
unfolding path_base text_eq nat_eq
base = refl

dir : path_dir (codes "/tmp//x/../backups/./app.tar.gz") ≡ codes "/tmp/backups"
unfolding path_dir text_eq nat_eq
dir = refl

dir_of_nothing : path_dir (codes "../a") ≡ codes ".."
unfolding path_dir text_eq nat_eq
dir_of_nothing = refl

quoted : shell_quote (codes "a'b") ≡ codes "'a'\"'\"'b'"
unfolding shell_quote text_eq nat_eq
quoted = refl

abbrev archive : Text
archive = codes "/b/d b'$(x).gz"

abbrev volume_command : Text
volume_command =
    codes
      "docker run --rm -v '/b':/backup:ro -v 'v':/restore 'alpine:3.23.5' sh -c 'tar -xzf '\"'\"'/backup/d b'\"'\"'\"'\"'\"'\"'\"'\"'$(x).gz'\"'\"' -C /restore'"

volume_built : build_volume_restore_command archive (codes "v") [] ≡ ok volume_command
unfolding build_volume_restore_command text_eq nat_eq
volume_built = refl

build_volume_restore_command-words_example :
    (shell_words volume_command
      ≡ some (
          codes "docker"
          ∷ codes "run"
          ∷ codes "--rm"
          ∷ codes "-v"
          ∷ (path_dir archive ++ codes ":/backup:ro")
          ∷ codes "-v"
          ∷ (codes "v" ++ codes ":/restore")
          ∷ or_default []
          ∷ codes "sh"
          ∷ codes "-c"
          ∷ volume_script archive
          ∷ []))
    × (shell_words (volume_script archive)
        ≡ some (
            codes "tar"
            ∷ codes "-xzf"
            ∷ (codes "/backup/" ++ path_base archive)
            ∷ codes "-C"
            ∷ codes "/restore"
            ∷ []))
build_volume_restore_command-words_example =
    build_volume_restore_command-words archive (codes "v") [] volume_command volume_built

abbrev db_command : Text
db_command =
    codes
      "docker run --rm --volumes-from 'c' -v '/b':/backup:ro 'alpine:3.23.5' sh -c 'gzip -dc '\"'\"'/backup/d'\"'\"' | psql'"

db_built : build_db_restore_command (codes "/b/d") (codes "c") (codes "psql") ≡ ok db_command
unfolding build_db_restore_command text_eq nat_eq
db_built = refl

build_db_restore_command-words_example :
    shell_words db_command
    ≡ some (
        codes "docker"
        ∷ codes "run"
        ∷ codes "--rm"
        ∷ codes "--volumes-from"
        ∷ codes "c"
        ∷ codes "-v"
        ∷ (path_dir (codes "/b/d") ++ codes ":/backup:ro")
        ∷ default_restore_image
        ∷ codes "sh"
        ∷ codes "-c"
        ∷ db_script (codes "/b/d") (codes "psql")
        ∷ [])
build_db_restore_command-words_example =
    build_db_restore_command-words (codes "/b/d") (codes "c") (codes "psql") db_command db_built

abbrev environment : Environment
environment key =
    if key == codes "MIGRATOR_BASIC_USER"
    then codes "u"
    else if key == codes "MIGRATOR_BASIC_PASSWORD"
    then codes "p"
    else if key == codes "MIGRATOR_ADMIN_TOKEN"
    then codes "t"
    else if key == codes "MIGRATOR_SCHEMA_ALLOWLIST"
    then codes "2a, ,3b"
    else []

loaded : load (λ t. none) environment ≡ ok (config_of (λ t. none) environment)
unfolding load text_eq
loaded = refl

load-IsUsable_example : IsUsable (config_of (λ t. none) environment)
load-IsUsable_example =
    load-IsUsable (λ t. none) environment (config_of (λ t. none) environment) loaded
