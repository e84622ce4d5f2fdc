-- ===== src/Cli/Restored.antt =====
-- main.rs, restore-active-local: what it leaves when it succeeds.
use mathlib.Core.Path.{subst}
use nordfir.Base.{
  ◌≡◌, sym, ap, ◌∙◌, ◌≢◌, inl, [], ◌∷◌, All, All-map, Text, str, ◌++◌, ok, ok-injective,
}
use nordfir.Base.Io.{◌>>◌, Io, >>=-eq-ok as after-success}
use nordfir.Float.{F32}
use nordfir.Format.{FilePath, join}
use nordfir.Files.Laws.{IsFileSystem}
use nordfir.State.OriginalPower.{OriginalPowerState, decode}
use nordfir.State.Store.{state_path, archive_path, archived_name}
use nordfir.State.Store.Saved.{Holds}
use nordfir.State.Store.Retired.{retire-IsKept, retire_keeps}
use nordfir.State.Store.Operations.{retire}
use nordfir.State.PowerProbe.{probe}
use nordfir.Drivers.LinuxRest.{cpufreq_path}
use nordfir.Drivers.LinuxRest.Kept.{restore_active-Keeps}
use nordfir.Drivers.LinuxRest.Restore.{restore_order, restore_active}
use nordfir.Drivers.LinuxRest.Restore.Settings.{IsOriginal}
use nordfir.Drivers.LinuxRest.Restore.Outcomes.{restore_success}
use nordfir.Audit.{AuditEventKind, AuditSink}
use nordfir.Host.{Host, IsHost, print_lines, print_lines-leaves}
use nordfir.Cli.{audit_log, kernel, local_node, sysfs_root, record_audit}
use nordfir.Cli.Printing.{original_state_lines, restored_lines}
use nordfir.Cli.Audited.{IsLineOf, IsLogging, record_audit-Keeps, record_audit_appends}
use nordfir.Cli.Paths.{IsSettingFile, audit_log-ne-state_path, audit_log-ne-archived}
use nordfir.Cli.Writing.{say, restore_settings, archive_snapshot}
use nordfir.Cli.Settings.{kernel-HasSeparateFiles, IsForeign-of, IsOriginal-kept}

-- Where the snapshot goes, and what is logged of that.
abbrev pub archived_path : {F : Type 0} → FilePath → OriginalPowerState F → FilePath
archived_path directory o =
    join (archive_path directory) (archived_name local_node o.captured_at_unix_seconds)

abbrev pub retired_message : {F : Type 0} → FilePath → OriginalPowerState F → Text
retired_message directory o = str "recovery snapshot archived at " ++ archived_path directory o

module _ {S F : Type 0} ⦃f : F32 F⦄ (host : Host S) (laws : IsFileSystem host.files)
    (quiet : IsHost host) where
  -- The settings read as saved, and all other files are as they were.
  abbrev pub IsRestoredBy : OriginalPowerState F → S → S → Type 0
  IsRestoredBy o s s' =
      All (λ r. IsOriginal (kernel host.files) sysfs_root o r s') restore_order
      × ((p : FilePath) (t : Text)
          → ((name : Text) → IsSettingFile name → p ≢ cpufreq_path sysfs_root name)
          → Holds host.files laws p t s
          → Holds host.files laws p t s')

  pub restore_settings-ok :
      (directory : FilePath) (o : OriginalPowerState F) (s : S)
      → (restore_settings F host directory o s).0 ≡ ok tt
      → IsRestoredBy o s (restore_settings F host directory o s).1
  unfolding restore_settings
  restore_settings-ok directory o s h =
      let fs = host.files in
      let separate = kernel-HasSeparateFiles fs laws in
      let printed = print_lines host (original_state_lines o) s in
      let capabilities = probe {F = F} fs sysfs_root s in
      let run = restore_active (kernel fs) sysfs_root o capabilities in
      let (report, good, step) =
        after-success run (λ report. say host (restored_lines report)) printed h in
      let (_, restored) =
        restore_success (kernel fs) sysfs_root o capabilities separate printed good in
      let after = (run printed).1 in
      let end = print_lines host (restored_lines report) after in
      let leaves =
        λ (p : FilePath). print_lines-leaves host quiet (restored_lines report) p after in
      subst (λ x. IsRestoredBy o s x.1) (sym step)
        (
          All-map restore_order
              (IsOriginal-kept fs laws o after end (λ name t _ held. leaves _ ∙ held)) restored,
          λ p t foreign held.
              leaves p
              ∙ restore_active-Keeps (kernel fs) sysfs_root separate p (ok t)
                  (IsForeign-of fs laws p foreign) o capabilities printed
                  (print_lines-leaves host quiet (original_state_lines o) p s ∙ held),
        )

module _ {S : Type 0} (host : Host S) (laws : IsFileSystem host.files) (quiet : IsHost host)
    (directory : FilePath) (audit : AuditSink S)
    (logging : IsLogging host.files laws (audit_log directory) audit) where
  abbrev note_archived : FilePath → Io S (Unit {0})
  note_archived path =
      record_audit host audit AuditEventKind.recovery_state_retired
        (str "recovery snapshot archived at " ++ path)
      >> say host ((str "Archived recovery state: " ++ path) ∷ [])

  -- The log got the note, and all other files are as they were.
  abbrev IsNoted : FilePath → Text → S → S → Type 0
  IsNoted path v s s' =
      ((line : Text) × IsLineOf AuditEventKind.recovery_state_retired
          (str "recovery snapshot archived at " ++ path) line
        × Holds host.files laws (audit_log directory) (v ++ line) s')
      × ((p : FilePath) (t : Text)
          → p ≢ audit_log directory
          → Holds host.files laws p t s
          → Holds host.files laws p t s')

  note_archived-ok :
      (path v : Text) (s : S)
      → Holds host.files laws (audit_log directory) v s
      → (note_archived path s).0 ≡ ok tt
      → IsNoted path v s (note_archived path s).1
  note_archived-ok path v s log h =
      let kind = AuditEventKind.recovery_state_retired in
      let message = str "recovery snapshot archived at " ++ path in
      let lines = (str "Archived recovery state: " ++ path) ∷ [] in
      let note = record_audit host audit kind message in
      let (_, recorded, step) = after-success note (λ _. say host lines) s h in
      let leaves = λ (p : FilePath). print_lines-leaves host quiet lines p (note s).1 in
      let (line, logged, ended) =
        record_audit_appends host laws quiet (audit_log directory) audit logging kind message v s
          (inl log) recorded in
      subst (λ x. IsNoted path v s x.1) (sym step)
        (
          (line, logged, leaves (audit_log directory) ∙ ended),
          λ p t d x.
              leaves p
              ∙ record_audit-Keeps host laws quiet (audit_log directory) audit logging kind message
                  p t d s x,
        )

module _ {S F : Type 0} ⦃f : F32 F⦄ (host : Host S) (laws : IsFileSystem host.files)
    (quiet : IsHost host) (directory : FilePath) (audit : AuditSink S)
    (logging : IsLogging host.files laws (audit_log directory) audit) where
  -- The snapshot is in the archive, the log got one line more, and all other files are as they were.
  abbrev pub IsArchivedBy : OriginalPowerState F → Text → Text → S → S → Type 0
  IsArchivedBy o c v s s' =
      Holds host.files laws (archived_path directory o) c s'
      × ((line : Text) × IsLineOf AuditEventKind.recovery_state_retired
            (retired_message directory o) line
          × Holds host.files laws (audit_log directory) (v ++ line) s')
      × ((p : FilePath) (t : Text)
          → p ≢ audit_log directory
          → p ≢ state_path directory local_node
          → Holds host.files laws p t s
          → Holds host.files laws p t s')

  pub archive_snapshot-ok :
      (o : OriginalPowerState F) (c v : Text) (s : S)
      → decode c ≡ ok o
      → Holds host.files laws (state_path directory local_node) c s
      → Holds host.files laws (audit_log directory) v s
      → (archive_snapshot F host directory audit s).0 ≡ ok tt
      → IsArchivedBy o c v s (archive_snapshot F host directory audit s).1
  unfolding archive_snapshot
  archive_snapshot-ok o c v s saved held log h =
      let fs = host.files in
      let move = retire fs F directory local_node in
      let (path, good, step) =
        after-success move (note_archived host laws quiet directory audit logging) s h in
      let (state, decoded, at, kept) =
        (retire-IsKept fs laws F directory local_node c s held).1 path good in
      let here = at ∙ ap (archived_path directory) (ok-injective (sym decoded ∙ saved)) in
      let retired = (move s).1 in
      let ((line, logged, ended), others) =
        note_archived-ok host laws quiet directory audit logging path v retired
          (retire_keeps fs laws F directory local_node (audit_log directory) v s
            (audit_log-ne-state_path directory local_node) log)
          (sym (ap (λ x. x.0) step) ∙ h) in
      subst (λ x. IsArchivedBy o c v s x.1) (sym step)
        (
          others (archived_path directory o) c
              (λ e. audit_log-ne-archived directory local_node o.captured_at_unix_seconds (sym e))
              (subst (λ q. Holds fs laws q c retired) here kept),
          (
            line,
            subst
                (λ q.
                  IsLineOf AuditEventKind.recovery_state_retired
                    (str "recovery snapshot archived at " ++ q) line)
                here logged,
            ended,
          ),
          λ p t d d' x. others p t d (retire_keeps fs laws F directory local_node p t s d' x),
        )
