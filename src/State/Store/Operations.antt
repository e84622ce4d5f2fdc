-- ===== src/State/Store/Operations.antt =====
-- archive/rust/src/state/original_power.rs, `save`, `retire` and `prepare_root`.
use nordfir.Base.{Bool, true, false, not, Text, str, ◌++◌, ok, err, map_ok}
use nordfir.Base.Io.{Io, pure, lift, context as context_io, unless, ◌>>=◌, ◌>>◌}
use nordfir.Format.{FilePath, join}
use nordfir.Float.{F32}
use nordfir.Core.{NodeId}
use nordfir.Files.{FileSystem, validate_secure_directory, sync_directory}
use nordfir.State.OriginalPower.{OriginalPowerState, encode}
use nordfir.State.Store.{path_for, archive_path, archived_name, load_for_write}

module _ {S : Type 0} (fs : FileSystem S) where
  -- `if !existed { fs::set_permissions(path, 0o700) }`
  unfoldable pub close_new : Text → FilePath → Bool → Io S (Unit {0})
  close_new what path true = pure tt
  close_new what path false =
      context_io (str "set permissions on " ++ what ++ path ++ str ": ")
        (fs.set_permissions path 448)

  unfoldable pub make_directory : Text → FilePath → Io S (Unit {0})
  make_directory what path =
      context_io (str "create " ++ what ++ path ++ str ": ") (fs.create_dir_all path)

  unfoldable pub check_directory : FilePath → Io S (Unit {0})
  check_directory path s =
      unless (not (fs.is_dir path s)) (str "state path is not a directory: " ++ path) (pure tt) s

  unfoldable pub prepare_root : FilePath → Io S (Unit {0})
  prepare_root root s =
      (do
        make_directory (str "state directory ") root
        check_directory root
        close_new (str "state directory ") root (fs.exists root s))
        s

  -- The file is removed again when it could not be written.
  unfoldable pub write_new : FilePath → Text → Io S FilePath
  write_new path encoded s =
      let (written, s') = fs.write_and_sync path encoded s in
      elim written [
        | ok _ ↦ (ok path, s')
        | err e ↦ (err (str "write " ++ path ++ str ": " ++ e), (fs.remove_file path s').1)
      ]

  unfoldable pub save_at : FilePath → Text → Io S FilePath
  save_at path encoded = do
    context_io (str "create " ++ path ++ str " without overwrite: ") (fs.create_new path 384)
    write_new path encoded

  unfoldable pub save : {F : Type 0} ⦃f : F32 F⦄ → FilePath → OriginalPowerState F → Io S FilePath
  save root state = do
    encoded ← lift (encode state)
    prepare_root root
    path ← lift (path_for root state.node)
    save_at path encoded

  -- The active file goes once the archive holds it.
  unfoldable pub unlink_active : FilePath → Io S (Unit {0})
  unlink_active source =
      context_io
        (str "snapshot was archived but active state could not be removed at "
          ++ source
          ++ str ": ")
        (fs.remove_file source)

  unfoldable pub archive_file : FilePath → FilePath → FilePath → Io S FilePath
  archive_file root source destination = do
    context_io (str "archive " ++ source ++ str " as " ++ destination ++ str " without overwrite: ")
        (fs.hard_link source destination)
    sync_directory fs (archive_path root)
    unlink_active source
    sync_directory fs root
    pure destination

  unfoldable pub validate_archive : FilePath → Io S (Unit {0})
  validate_archive root s =
      (map_ok (λ _. tt) (validate_secure_directory fs (archive_path root) s), s)

  unfoldable pub prepare_archive : FilePath → Io S (Unit {0})
  prepare_archive root s =
      (do
        make_directory (str "archive directory ") (archive_path root)
        close_new (str "archive directory ") (archive_path root) (fs.exists (archive_path root) s)
        validate_archive root)
        s

  unfoldable pub retire : (F : Type 0) ⦃f : F32 F⦄ → FilePath → NodeId → Io S FilePath
  retire F root node s =
      (do
        state ← lift (load_for_write {F = F} fs root node s)
        source ← lift (path_for root node)
        prepare_archive root
        archive_file root source
            (join (archive_path root) (archived_name node state.captured_at_unix_seconds)))
        s
