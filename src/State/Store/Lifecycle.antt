-- ===== src/State/Store/Lifecycle.antt =====
-- archive/rust/src/state/original_power.rs: `inspect_lifecycle` and `inspect_archive`, which only read.
pub mod Reports
use nordfir.Base.{
  ℕ, suc, Bool, true, false, not, ◌||◌, ◌&&◌, Option, none, some, List, [], ◌∷◌, ◌++◌, reverse,
  Text, str, text_eq, Result, ok, err, ◌>>=◌, ◌>>◌, refuse, context, map_ok, ◌==◌, if◌then◌else◌,
}
use nordfir.Format.{FilePath, join, strip_prefix}
use nordfir.Float.{F32}
use nordfir.Core.{NodeId}
use nordfir.Files.{
  FileSystem, Metadata, Lookup, metadata_of, grants_others, validate_secure_directory,
}
use nordfir.State.OriginalPower.{OriginalPowerState, validate_token, decode}
use nordfir.State.Store.{state_suffix, archive_path, archived_name, path_for, load_for_write}

pub record RecoveryLifecycleStatus (F : Type 0) : Type 0 where
  pub state_directory_initialized : Bool
  pub active_snapshot : Option (OriginalPowerState F)
  pub archived_snapshots : ℕ

abbrev found : Option Text → Bool
found none = false
found (some rest) = true

unfoldable pub starts_with : Text → Text → Bool
starts_with name prefix = found (strip_prefix prefix name)

unfoldable pub ends_with : Text → Text → Bool
ends_with name suffix = found (strip_prefix (reverse suffix) (reverse name))

-- The names that the archive's loop does not skip.
unfoldable pub is_snapshot_of : NodeId → Text → Bool
is_snapshot_of node name = starts_with name (node ++ str ".") && ends_with name state_suffix

unfoldable pub validate_secure_file : Metadata → Metadata → Result (Unit {0})
validate_secure_file file directory = do
  refuse (not file.is_file || file.is_symlink) (str "recovery state must be a regular file")
  refuse (grants_others file.mode) (str "recovery state permissions must be 0600 or stricter")
  refuse (not (file.uid == directory.uid))
      (str "recovery state and directory must have the same owner")

module _ {S : Type 0} (F : Type 0) ⦃f : F32 F⦄ (fs : FileSystem S) (root : FilePath)
    (node : NodeId) where
  -- What the loop checks of an entry that it counts.
  unfoldable pub check_archived : Metadata → Text → S → Result (Unit {0})
  check_archived archive name s = do
    metadata ←
        context (str "inspect archived state " ++ join (archive_path root) name ++ str ": ")
          (metadata_of (fs.symlink_metadata (join (archive_path root) name) s))
    validate_secure_file metadata archive
    content ←
        context (str "read archived state " ++ join (archive_path root) name ++ str ": ")
          (fs.read_to_string (join (archive_path root) name) s)
    state ← decode {F = F} content
    refuse (not (text_eq state.node node)) (
        str "archived state belongs to node '"
        ++ state.node
        ++ str "' instead of '"
        ++ node
        ++ str "'")
    refuse (not (text_eq name (archived_name node state.captured_at_unix_seconds)))
        (str "archived state has inconsistent filename: " ++ name)

  -- One round of the loop: the number of snapshots so far.
  unfoldable pub count_entry : Metadata → Result Text → ℕ → S → Result ℕ
  count_entry archive entry count s = do
    name ← context (str "read archive entry in " ++ archive_path root ++ str ": ") entry
    if is_snapshot_of node name
        then map_ok (λ _. suc count) (check_archived archive name s)
        else ok count

  unfoldable pub count_entries : Metadata → List (Result Text) → ℕ → S → Result ℕ
  count_entries archive [] count s = ok count
  count_entries archive (entry ∷ entries) count s =
      count_entry archive entry count s >>= λ next. count_entries archive entries next s

  unfoldable pub count_archive : S → Result ℕ
  count_archive s = do
    archive ← validate_secure_directory fs (archive_path root) s
    entries ←
        context (str "read archive directory " ++ archive_path root ++ str ": ")
          (fs.read_dir (archive_path root) s)
    count_entries archive entries 0 s

  unfoldable pub inspect_found : Lookup → S → Result ℕ
  inspect_found (Lookup.found _) s = count_archive s
  inspect_found (Lookup.missing _) s = ok 0
  inspect_found (Lookup.failed e) s =
      err (str "inspect archive directory " ++ archive_path root ++ str ": " ++ e)

  unfoldable pub inspect_archive : S → Result ℕ
  inspect_archive s = inspect_found (fs.symlink_metadata (archive_path root) s) s

  unfoldable pub inspect_active : FilePath → Lookup → S → Result (Option (OriginalPowerState F))
  inspect_active path (Lookup.found _) s =
      map_ok (λ state. some state) (load_for_write fs root node s)
  inspect_active path (Lookup.missing _) s = ok none
  inspect_active path (Lookup.failed e) s = err (str "inspect state file " ++ path ++ str ": " ++ e)

  -- The part of `inspect_lifecycle` behind the check of the root.
  unfoldable pub inspect_snapshots : S → Result (RecoveryLifecycleStatus F)
  inspect_snapshots s = do
    path ← path_for root node
    active ← inspect_active path (fs.symlink_metadata path s) s
    archived ← inspect_archive s
    ok (record {
      state_directory_initialized = true;
      active_snapshot = active;
      archived_snapshots = archived;
    })

  unfoldable pub inspect_root : Lookup → S → Result (RecoveryLifecycleStatus F)
  inspect_root (Lookup.missing _) s = ok (record {
    state_directory_initialized = false;
    active_snapshot = none;
    archived_snapshots = 0;
  })
  inspect_root (Lookup.failed e) s = err (str "inspect state directory " ++ root ++ str ": " ++ e)
  inspect_root (Lookup.found _) s = do validate_secure_directory fs root s; inspect_snapshots s

  unfoldable pub inspect_lifecycle : S → Result (RecoveryLifecycleStatus F)
  inspect_lifecycle s = do
    validate_token (str "node") node
    inspect_root (fs.symlink_metadata root s) s
