-- ===== src/Cli.antt =====
-- archive/rust/src/main.rs: the helpers of the commands. Each command is a module below.
pub mod Printing
pub mod Writing
pub mod Audited
pub mod Paths
pub mod Intent
pub mod Outcome
pub mod Permission
pub mod Settings
pub mod Restored
pub mod RestoreLocal
pub mod Applied
pub mod ApplyLocal
pub mod Reading
pub mod Status
pub mod Dispatch
use nordfir.Base.{
  ◌≡◌, ◌&&◌, Bool, true, false, not, Option, none, some, List, [], ◌∷◌, ◌++◌, Text, str, text_eq,
  is_empty, Result, ok, err, ◌>>=◌, ◌>>◌, refuse, ok_or, context, map_ok, if◌then◌else◌,
}
use nordfir.Base.Io.{Io}
use nordfir.Format.{FilePath, join, trim}
use nordfir.Core.{NodeId}
use nordfir.Files.{FileSystem}
use nordfir.Audit.{AuditEvent, AuditEventKind, AuditSink, new_fanout, record_fanout}
use nordfir.Audit.Sinks.{record_file, record_datagram, record_receipt}
use nordfir.Drivers.LinuxRest.{Sysfs}
use nordfir.Host.{Host, argument}

abbrev pub local_node : NodeId
local_node = str "local"

abbrev pub sysfs_root : FilePath
sysfs_root = str "/sys"

unfoldable pub audit_log : FilePath → FilePath
audit_log state_directory = join state_directory (str "audit.log")

-- The driver reads and writes the kernel's files by the same calls as any other file.
abbrev pub kernel : {S : Type 0} → FileSystem S → Sysfs S
kernel fs = record { read = fs.read_to_string; write = fs.write }

unfoldable pub configured_path : Text → Option Text → Result (Option FilePath)
configured_path variable none = ok none
configured_path variable (some path) =
    if is_empty path then err (variable ++ str " must not be empty") else ok (some path)

-- `if let Some(path) = ... { sinks.push(sink) }`
unfoldable pub optional_sink :
    {S : Type 0} → (FilePath → AuditSink S) → Option FilePath → List (AuditSink S)
optional_sink sink none = []
optional_sink sink (some path) = sink path ∷ []

unfoldable pub one_or_all : {S : Type 0} → List (AuditSink S) → Result (AuditSink S)
one_or_all [] = map_ok record_fanout (new_fanout [])
one_or_all (sink ∷ []) = ok sink
one_or_all (first ∷ second ∷ more) = map_ok record_fanout (new_fanout (first ∷ second ∷ more))

-- The match on the third and fourth arguments.
unfoldable pub expected_host : Text → Option Text → Option Text → Result Text
expected_host usage (some flag) (some host) =
    if text_eq flag (str "--expect-host") && not (is_empty (trim host)) then ok host else err usage
expected_host usage _ _ = err usage

unfoldable pub non_empty_hostname : Text → Result Text
non_empty_hostname hostname =
    if is_empty hostname then err (str "local hostname is empty") else ok hostname

unfoldable pub is_confirmation : Option Text → Bool
is_confirmation none = false
is_confirmation (some flag) = text_eq flag (str "--confirm-system-power-write")

unfoldable pub event_at : {S : Type 0} → Host S → AuditEventKind → Text → S → AuditEvent
event_at host kind message s = record {
  at = (host.now s).0;
  actor = str "local-user";
  kind = kind;
  message = message;
}

unfoldable pub with_audit_error : Text → Result (Unit {0}) → Text
with_audit_error error (ok _) = error
with_audit_error error (err audit_error) =
    error ++ str "; additionally failed to record audit event: " ++ audit_error

module _ {S : Type 0} (host : Host S) where
  unfoldable pub configured_forward : Result (Option FilePath)
  configured_forward =
      configured_path (str "NORDFIR_AUDIT_FORWARD_SOCKET")
        (host.var_os (str "NORDFIR_AUDIT_FORWARD_SOCKET"))

  unfoldable pub configured_receipt : Result (Option FilePath)
  configured_receipt =
      configured_path (str "NORDFIR_AUDIT_RECEIPT_SOCKET")
        (host.var_os (str "NORDFIR_AUDIT_RECEIPT_SOCKET"))

  unfoldable pub audit_sink : FilePath → Result (AuditSink S)
  audit_sink state_directory = do
    forward ← configured_forward
    receipt ← configured_receipt
    one_or_all (
        record_file host.files (audit_log state_directory)
        ∷ (optional_sink (record_datagram host.files host.sockets) forward
            ++ optional_sink (record_receipt host.files host.sockets) receipt))

  unfoldable pub record_audit : AuditSink S → AuditEventKind → Text → Io S (Unit {0})
  record_audit audit kind message s = audit (event_at host kind message s) (host.now s).1

  unfoldable pub finish_audited : AuditSink S → Text → Result (Unit {0}) → Io S (Unit {0})
  finish_audited audit operation (ok _) s =
      record_audit audit AuditEventKind.action_executed (operation ++ str " completed") s
  finish_audited audit operation (err error) s =
      let (r, s') =
        record_audit audit AuditEventKind.action_failed (operation ++ str " failed: " ++ error) s in
      (err (with_audit_error error r), s')

  unfoldable pub require_write_confirmation : Text → Result (Unit {0})
  require_write_confirmation command = refuse (not (is_confirmation (argument host 3))) (
      command
      ++ str " writes Linux power settings; rerun with <state-directory> "
      ++ str "--confirm-system-power-write")

  unfoldable pub required_state_directory : Text → Result FilePath
  required_state_directory command =
      ok_or (argument host 2) (command ++ str " requires a <state-directory> argument")

  unfoldable pub required_expected_host : Text → Result Text
  required_expected_host command =
      expected_host (command ++ str " requires <state-directory> --expect-host <hostname>")
        (argument host 3) (argument host 4)

  unfoldable pub read_local_hostname : S → Result Text
  read_local_hostname s = do
    hostname ←
        context (str "read local hostname: ")
          (host.files.read_to_string (str "/proc/sys/kernel/hostname") s)
    non_empty_hostname (trim hostname)
