-- ===== src/Sshrestore/Restore.antt =====
-- A shell reads the restore commands of internal/sshrestore/sshrestore.go as they are meant.
use dokploymigrator.Base.{
  Text, codes, [], ◌∷◌, ◌++◌, some, Bool, true, false, nat_eq, text_eq, concat, ok, ◌>>◌, fail_if,
  ◌≡◌, refl, ap, ◌∙◌, arith,
}
use dokploymigrator.Sshrestore.Paths.{path_base, path_dir}
use dokploymigrator.Sshrestore.Commands.{
  default_restore_image, shell_quote, or_default, volume_script, db_script,
  build_volume_restore_command, build_db_restore_command,
}
use dokploymigrator.Sshrestore.Shell.{gap, word, read_rune, is_plain, words_from, shell_words}
use dokploymigrator.Sshrestore.Quoting.{feed, mode_behind, append_nil, piece-gap}

volume_words :
    (dir volume image script : Text)
    → shell_words (
        concat (
          codes "docker run --rm -v "
          ∷ shell_quote dir
          ∷ codes ":/backup:ro -v "
          ∷ shell_quote volume
          ∷ codes ":/restore "
          ∷ shell_quote image
          ∷ codes " sh -c "
          ∷ shell_quote script
          ∷ []))
      ≡ some (
          codes "docker"
          ∷ codes "run"
          ∷ codes "--rm"
          ∷ codes "-v"
          ∷ (dir ++ codes ":/backup:ro")
          ∷ codes "-v"
          ∷ (volume ++ codes ":/restore")
          ∷ image
          ∷ codes "sh"
          ∷ codes "-c"
          ∷ script
          ∷ [])
unfolding feed mode_behind read_rune is_plain nat_eq words_from
volume_words dir volume image script =
    piece-gap gap (codes "docker run --rm -v ") dir _ (codes ":/backup:ro") _ _ refl
      (piece-gap word (codes ":/backup:ro -v ") volume _ (codes ":/restore") _ _ refl
        (piece-gap word (codes ":/restore ") image _ [] image _ refl
          (piece-gap word (codes " sh -c ") script [] [] script [] refl refl (append_nil script))
          (append_nil image))
        refl)
      refl

script_words :
    (path : Text)
    → shell_words (concat (codes "tar -xzf " ∷ shell_quote path ∷ codes " -C /restore" ∷ []))
      ≡ some (codes "tar" ∷ codes "-xzf" ∷ path ∷ codes "-C" ∷ codes "/restore" ∷ [])
unfolding feed mode_behind read_rune is_plain nat_eq words_from
script_words path =
    piece-gap gap (codes "tar -xzf ") path (codes " -C /restore" ++ []) [] path _ refl refl
      (append_nil path)

db_words :
    (container dir image script : Text)
    → shell_words (
        concat (
          codes "docker run --rm --volumes-from "
          ∷ shell_quote container
          ∷ codes " -v "
          ∷ shell_quote dir
          ∷ codes ":/backup:ro "
          ∷ shell_quote image
          ∷ codes " sh -c "
          ∷ shell_quote script
          ∷ []))
      ≡ some (
          codes "docker"
          ∷ codes "run"
          ∷ codes "--rm"
          ∷ codes "--volumes-from"
          ∷ container
          ∷ codes "-v"
          ∷ (dir ++ codes ":/backup:ro")
          ∷ image
          ∷ codes "sh"
          ∷ codes "-c"
          ∷ script
          ∷ [])
unfolding feed mode_behind read_rune is_plain nat_eq words_from
db_words container dir image script =
    piece-gap gap (codes "docker run --rm --volumes-from ") container _ [] container _ refl
      (piece-gap word (codes " -v ") dir _ (codes ":/backup:ro") _ _ refl
        (piece-gap word (codes ":/backup:ro ") image _ [] image _ refl
          (piece-gap word (codes " sh -c ") script [] [] script [] refl refl (append_nil script))
          (append_nil image))
        refl)
      (append_nil container)

built :
    {E A : Type 0} (refused : Bool) (e : E) (x command : A)
    → (fail_if refused e >> ok x) ≡ ok command
    → command ≡ x
built true e x command h = cc
built false e x command h = ground arith

volume_command :
    (archive volume image command : Text)
    → build_volume_restore_command archive volume image ≡ ok command
    → command
      ≡ concat (
          codes "docker run --rm -v "
          ∷ shell_quote (path_dir archive)
          ∷ codes ":/backup:ro -v "
          ∷ shell_quote volume
          ∷ codes ":/restore "
          ∷ shell_quote (or_default image)
          ∷ codes " sh -c "
          ∷ shell_quote (volume_script archive)
          ∷ [])
unfolding build_volume_restore_command
volume_command archive volume image command h = built _ _ _ _ h

-- The command that restores a volume is read, whatever the archive, the volume and the image are
-- called, as the eleven words of one `docker run`, in which each name, with its mount point, is one
-- argument; and the script in its last word is read as `tar` with the archive as one argument.
pub build_volume_restore_command-words :
    (archive volume image command : Text)
    → build_volume_restore_command archive volume image ≡ ok command
    → (shell_words command
        ≡ some (
            codes "docker"
            ∷ codes "run"
            ∷ codes "--rm"
            ∷ codes "-v"
            ∷ (path_dir archive ++ codes ":/backup:ro")
            ∷ codes "-v"
            ∷ (volume ++ codes ":/restore")
            ∷ or_default image
            ∷ codes "sh"
            ∷ codes "-c"
            ∷ volume_script archive
            ∷ []))
      × (shell_words (volume_script archive)
          ≡ some (
              codes "tar"
              ∷ codes "-xzf"
              ∷ (codes "/backup/" ++ path_base archive)
              ∷ codes "-C"
              ∷ codes "/restore"
              ∷ []))
build_volume_restore_command-words archive volume image command h = (
  ap shell_words (volume_command archive volume image command h)
      ∙ volume_words (path_dir archive) volume (or_default image) (volume_script archive),
  script_words (codes "/backup/" ++ path_base archive),
)

db_command :
    (archive container restore command : Text)
    → build_db_restore_command archive container restore ≡ ok command
    → command
      ≡ concat (
          codes "docker run --rm --volumes-from "
          ∷ shell_quote container
          ∷ codes " -v "
          ∷ shell_quote (path_dir archive)
          ∷ codes ":/backup:ro "
          ∷ shell_quote default_restore_image
          ∷ codes " sh -c "
          ∷ shell_quote (db_script archive restore)
          ∷ [])
unfolding build_db_restore_command
db_command archive container restore command h = built _ _ _ _ h

-- The command that restores a dump is read, whatever the archive, the container and the script are
-- called, as the eleven words of one `docker run`, in which the container, the directory of the
-- archive with its mount point, and the script are one argument each.
pub build_db_restore_command-words :
    (archive container restore command : Text)
    → build_db_restore_command archive container restore ≡ ok command
    → shell_words command
      ≡ some (
          codes "docker"
          ∷ codes "run"
          ∷ codes "--rm"
          ∷ codes "--volumes-from"
          ∷ container
          ∷ codes "-v"
          ∷ (path_dir archive ++ codes ":/backup:ro")
          ∷ default_restore_image
          ∷ codes "sh"
          ∷ codes "-c"
          ∷ db_script archive restore
          ∷ [])
build_db_restore_command-words archive container restore command h =
    ap shell_words (db_command archive container restore command h)
    ∙ db_words container (path_dir archive) default_restore_image (db_script archive restore)
