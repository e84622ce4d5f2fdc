-- ===== src/Cli/Status.antt =====
-- main.rs: lifecycle-status-local, which prints as it goes on.
use nordfir.Base.{true, false, Option, none, some, [], ◌∷◌, ◌++◌, Text, str, Result, ok, err}
use nordfir.Base.Io.{Io, lift, ◌>>=◌, ◌>>◌}
use nordfir.Float.{F32}
use nordfir.Format.{FilePath, decimal}
use nordfir.State.Store.Lifecycle.{RecoveryLifecycleStatus, inspect_lifecycle}
use nordfir.Audit.LogChecks.{inspect_log, inspect_unix_socket}
use nordfir.Host.{Host}
use nordfir.Cli.{
  local_node, audit_log, configured_forward, configured_receipt, required_state_directory,
}
use nordfir.Cli.Writing.{say, query}
use nordfir.Cli.Reading.{log_status_line, active_lines}

module _ {S : Type 0} (host : Host S) where
  -- The line for one of the two sockets.
  unfoldable pub print_socket : Text → Text → Result (Option FilePath) → Io S (Unit {0})
  print_socket title purpose (err e) s = (err e, s)
  print_socket title purpose (ok none) s = say host ((title ++ str ": Disabled") ∷ []) s
  print_socket title purpose (ok (some path)) s =
      (do
        query (inspect_unix_socket host.files path purpose)
        say host ((title ++ str ": Ready (" ++ path ++ str ")") ∷ []))
        s

module _ {S : Type 0} (F : Type 0) ⦃f : F32 F⦄ (host : Host S) where
  unfoldable pub print_ready : FilePath → RecoveryLifecycleStatus F → Io S (Unit {0})
  print_ready directory status = do
    say host (str "State directory: Ready" ∷ active_lines status.active_snapshot)
    say host ((str "Archived recovery snapshots: " ++ decimal status.archived_snapshots) ∷ [])
    log ← query (inspect_log host.files (audit_log directory))
    say host (log_status_line log ∷ [])

  unfoldable pub print_status : FilePath → RecoveryLifecycleStatus F → Io S (Unit {0})
  print_status directory status s = elim status.state_directory_initialized [
    | false ↦
        say host
          (str "State directory: Not initialized"
            ∷ str "Recovery phase: Idle"
            ∷ str "Active recovery snapshot: Absent"
            ∷ str "Archived recovery snapshots: 0"
            ∷ str "Audit log: Not initialized"
            ∷ [])
          s
    | true ↦ print_ready directory status s
  ]

  unfoldable pub print_lifecycle : FilePath → RecoveryLifecycleStatus F → Io S (Unit {0})
  print_lifecycle directory status = do
    say host ((str "Node: " ++ local_node) ∷ [])
    print_status directory status
    print_socket host (str "Audit forwarding") (str "audit forwarding") (configured_forward host)
    print_socket host (str "Audit receipts") (str "audit receipt") (configured_receipt host)
    say host (str "No system settings were changed." ∷ [])

  unfoldable pub lifecycle_status_local : Io S (Unit {0})
  lifecycle_status_local = do
    directory ← lift (required_state_directory host (str "lifecycle-status-local"))
    status ← query (inspect_lifecycle F host.files directory local_node)
    print_lifecycle directory status
