-- ===== src/Audit/LogChecks.antt =====
-- archive/rust/src/audit/mod.rs: what the sinks check before they write, and the line that they write.
use nordfir.Base.{
  ℕ, ◌/◌, ◌%◌, Bool, not, ◌||◌, ◌++◌, Text, str, Result, ok, err, ◌>>=◌, ◌>>◌, refuse, ok_or,
  context, ◌==◌,
}
use nordfir.Format.{FilePath, decimal, parent, is_absolute}
use nordfir.Files.{FileSystem, Metadata, Lookup, metadata_of, grants_others, effective_uid}
use nordfir.Audit.{AuditEvent, encode_event, parse_receipt, byte_length}

pub data AuditLogStatus : Type 0 where
  ready_to_create ready : AuditLogStatus

-- `mode & 0o200 == 0`
unfoldable pub owner_cannot_write : ℕ → Bool
owner_cannot_write mode = mode / 128 % 2 == 0

-- `FileAuditSink::validate_file`
unfoldable pub validate_file : Metadata → Metadata → Result (Unit {0})
validate_file file parent_metadata = do
  refuse (not file.is_file || file.is_symlink) (str "audit path must be a regular file")
  refuse (grants_others file.mode) (str "audit log permissions must be 0600 or stricter")
  refuse (owner_cannot_write file.mode) (str "audit log must be owner-writable")
  refuse (not (file.uid == parent_metadata.uid))
      (str "audit log and directory must have the same owner")

module _ {S : Type 0} (fs : FileSystem S) (path : FilePath) where
  -- `FileAuditSink::validate_parent`
  unfoldable pub validate_parent : S → Result Metadata
  validate_parent s = do
    directory ← ok_or (parent path) (str "audit path has no parent directory")
    metadata ←
        context (str "inspect audit directory " ++ directory ++ str ": ")
          (metadata_of (fs.symlink_metadata directory s))
    refuse (not metadata.is_dir || metadata.is_symlink)
        (str "audit directory must be a real directory")
    refuse (grants_others metadata.mode) (str "audit directory must not grant group/other access")
    uid ← effective_uid fs s
    refuse (not (metadata.uid == uid)) (str "audit directory must be owned by the effective user")
    ok metadata

  unfoldable pub inspect_failed : Text → Text
  inspect_failed e = str "inspect audit path " ++ path ++ str ": " ++ e

  unfoldable pub status_of_log : Metadata → Lookup → Result AuditLogStatus
  status_of_log directory (Lookup.found file) = do
    validate_file file directory
    ok AuditLogStatus.ready
  status_of_log directory (Lookup.missing _) = do
    refuse (owner_cannot_write directory.mode) (str "audit directory must be owner-writable")
    ok AuditLogStatus.ready_to_create
  status_of_log directory (Lookup.failed e) = err (inspect_failed e)

  -- `FileAuditSink::inspect`
  unfoldable pub inspect_log : S → Result AuditLogStatus
  inspect_log s = do
    directory ← validate_parent s
    status_of_log directory (fs.symlink_metadata path s)

  unfoldable pub check_log : Metadata → Lookup → Result (Unit {0})
  check_log directory (Lookup.found file) = validate_file file directory
  check_log directory (Lookup.missing _) = ok tt
  check_log directory (Lookup.failed e) = err (inspect_failed e)

  -- What `record` does before it opens the log: the checks, and the line.
  unfoldable pub prepare_line : AuditEvent → S → Result Text
  prepare_line event s = do
    directory ← validate_parent s
    check_log directory (fs.symlink_metadata path s)
    encode_event event

  -- `inspect_unix_socket`
  unfoldable pub inspect_unix_socket : Text → S → Result (Unit {0})
  inspect_unix_socket purpose s = do
    refuse (not (is_absolute path)) (purpose ++ str " socket path must be absolute")
    metadata ←
        context (str "inspect " ++ purpose ++ str " socket " ++ path ++ str ": ")
          (metadata_of (fs.symlink_metadata path s))
    refuse (not metadata.is_socket || metadata.is_symlink)
        (purpose ++ str " destination must be a Unix socket")

  -- The line to send to the socket, once that is checked.
  unfoldable pub prepare_message : Text → AuditEvent → S → Result Text
  prepare_message purpose event s = do inspect_unix_socket purpose s; encode_event event

unfoldable pub all_sent : FilePath → Text → ℕ → Result (Unit {0})
all_sent path line sent = refuse (not (sent == byte_length line)) (
    str "forwarded "
    ++ decimal sent
    ++ str " of "
    ++ decimal (byte_length line)
    ++ str " audit bytes to "
    ++ path)

unfoldable pub accept : Text → Result (Unit {0})
accept response = do parse_receipt response; ok tt
