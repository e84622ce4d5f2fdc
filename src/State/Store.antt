-- ===== src/State/Store.antt =====
-- archive/rust/src/state/original_power.rs, lines 123 to 163, 210 to 314 and 345 to 367:
-- `OriginalPowerStateStore`.
pub mod Operations
pub mod Fresh
pub mod Saved
pub mod Archived
pub mod Retired
pub mod Lifecycle
use nordfir.Base.{
  ℕ, ◌-◌, Bool, true, false, not, ◌||◌, Option, none, some, List, [], ◌∷◌, ◌++◌, Text, str, text_eq,
  Result, ok, err, ◌>>=◌, ◌>>◌, refuse, ok_or, context, ltb, ◌==◌,
}
use nordfir.Base.Time.{SystemTime, Duration, unix_epoch, duration_since, as_secs}
use nordfir.Format.{FilePath, join, decimal}
use nordfir.Float.{F32}
use nordfir.Core.{NodeId}
use nordfir.Files.{FileSystem, Metadata, metadata_of, grants_others, validate_secure_directory}
use nordfir.State.OriginalPower.{OriginalPowerState, validate_token, decode}

-- `.original-power-state`
unfoldable pub state_suffix : Text
state_suffix = str ".original-power-state"

unfoldable pub state_path : FilePath → NodeId → FilePath
state_path root node = join root (node ++ state_suffix)

unfoldable pub archive_path : FilePath → FilePath
archive_path root = join root (str "archive")

unfoldable pub archived_name : NodeId → ℕ → Text
archived_name node seconds = node ++ str "." ++ decimal seconds ++ state_suffix

unfoldable pub path_for : FilePath → NodeId → Result FilePath
path_for root node = do validate_token (str "node") node; ok (state_path root node)

module _ {S : Type 0} (fs : FileSystem S) (root : FilePath) where
  unfoldable pub validate_secure_metadata : FilePath → S → Result (Unit {0})
  validate_secure_metadata path s = do
    directory ← validate_secure_directory fs root s
    file ←
        context (str "inspect state file " ++ path ++ str ": ")
          (metadata_of (fs.symlink_metadata path s))
    refuse (not file.is_file || file.is_symlink) (str "original-power-state must be a regular file")
    refuse (grants_others file.mode)
        (str "original-power-state permissions must be 0600 or stricter")
    refuse (not (file.uid == directory.uid))
        (str "state file and directory must have the same owner")

module _ {S F : Type 0} ⦃f : F32 F⦄ (fs : FileSystem S) (root : FilePath) where
  unfoldable pub load_from : FilePath → NodeId → S → Result (OriginalPowerState F)
  load_from path node s = do
    content ← context (str "read " ++ path ++ str ": ") (fs.read_to_string path s)
    state ← decode content
    refuse (not (text_eq state.node node))
        (str "state belongs to node '" ++ state.node ++ str "' instead of '" ++ node ++ str "'")
    ok state

  unfoldable pub load : NodeId → S → Result (OriginalPowerState F)
  load node s = do path ← path_for root node; load_from path node s

  unfoldable pub load_for_write : NodeId → S → Result (OriginalPowerState F)
  load_for_write node s = do
    path ← path_for root node
    validate_secure_metadata fs root path s
    load node s

  -- The age check of `load_fresh_for_write`.
  unfoldable pub check_age : OriginalPowerState F → SystemTime → Duration → Result (Unit {0})
  check_age state now maximum_age = do
    since ← ok_or (duration_since now unix_epoch) (str "current time predates the Unix epoch")
    refuse (ltb (as_secs since) state.captured_at_unix_seconds)
        (str "original-power-state timestamp is in the future")
    refuse (ltb (as_secs maximum_age) (as_secs since - state.captured_at_unix_seconds)) (
        str "original-power-state is too old for apply: "
        ++ decimal (as_secs since - state.captured_at_unix_seconds)
        ++ str " seconds")

  unfoldable pub load_fresh_for_write :
      NodeId → SystemTime → Duration → S → Result (OriginalPowerState F)
  load_fresh_for_write node now maximum_age s = do
    state ← load_for_write node s
    check_age state now maximum_age
    ok state
