-- ===== src/Cli/RestoreLocal.antt =====
-- main.rs, restore-active-local from the command line to its end.
use mathlib.Core.Option.{some-injective}
use mathlib.Core.Path.{subst}
use nordfir.Base.{
  ◌≡◌, sym, ap, ◌∙◌, inl, inr, Option, some, All, All-map, Text, str, ◌++◌, Result, ok,
  ok-injective,
}
use nordfir.Base.Io.{◌>>◌, >>=-eq-ok as after-success}
use nordfir.Float.{F32}
use nordfir.Format.{FilePath}
use nordfir.Files.Laws.{IsFileSystem}
use nordfir.State.OriginalPower.{OriginalPowerState, decode}
use nordfir.State.Store.{state_path, load_for_write}
use nordfir.State.Store.Fresh.{load_for_write-IsLoaded}
use nordfir.State.Store.Saved.{Holds}
use nordfir.Drivers.LinuxRest.Restore.{restore_order}
use nordfir.Drivers.LinuxRest.Restore.Settings.{IsOriginal}
use nordfir.Audit.{AuditEventKind, AuditSink}
use nordfir.Audit.Sinks.Appended.{LogHolds}
use nordfir.Audit.Sinks.Sent.{HasOwnSockets}
use nordfir.Host.{Host, IsHost, argument}
use nordfir.Cli.{audit_log, kernel, local_node, sysfs_root}
use nordfir.Cli.Audited.{IsLineOf, IsLogging, audit_sink-IsLogging}
use nordfir.Cli.Paths.{
  audit_log-ne-setting, state_path-ne-setting, audit_log-ne-state_path, audit_log-ne-archived,
}
use nordfir.Cli.Settings.{IsOriginal-kept}
use nordfir.Cli.Intent.{audited_success}
use nordfir.Cli.Permission.{when_permitted-cases}
use nordfir.Cli.Restored.{restore_settings-ok, archived_path, retired_message, archive_snapshot-ok}
use nordfir.Cli.Writing.{
  query, returns, audited, restore_settings, archive_snapshot, restore_operation,
  restore_active_local,
}

module _ {S : Type 0} (F : Type 0) ⦃f : F32 F⦄ (host : Host S) (laws : IsFileSystem host.files)
    (quiet : IsHost host) (directory : FilePath) where
  -- The snapshot of the start is restored and archived, and the log says so.
  abbrev IsRestored : Text → S → S → Type 0
  IsRestored v s s' =
      (o : OriginalPowerState F) × (c : Text) × (line : Text) × Holds host.files laws
        (state_path directory local_node) c s
      × (decode c ≡ ok o)
      × All (λ r. IsOriginal (kernel host.files) sysfs_root o r s') restore_order
      × Holds host.files laws (archived_path directory o) c s'
      × IsLineOf AuditEventKind.recovery_state_retired (retired_message directory o) line
      × Holds host.files laws (audit_log directory) (v ++ line) s'

  module _ (audit : AuditSink S)
      (logging : IsLogging host.files laws (audit_log directory) audit) where
    restore_operation-ok :
        (v : Text) (s : S)
        → Holds host.files laws (audit_log directory) v s
        → (restore_operation F host directory audit s).0 ≡ ok tt
        → IsRestored v s (restore_operation F host directory audit s).1
    unfolding restore_operation
    restore_operation-ok v s log h =
        let fs = host.files in
        let load = query (load_for_write {F = F} fs directory local_node) in
        let (o, loaded, step) =
          after-success load
            (λ original.
              restore_settings F host directory original >> archive_snapshot F host directory audit)
            s h in
        let ((_, (c, held, decoded), _, _), _) =
          load_for_write-IsLoaded fs directory local_node s loaded in
        let (_, restored, step') =
          after-success (restore_settings F host directory o)
            (λ _. archive_snapshot F host directory audit) s (sym (ap (λ x. x.0) step) ∙ h) in
        let (settings, others) = restore_settings-ok host laws quiet directory o s restored in
        let middle = (restore_settings F host directory o s).1 in
        let (archived, (line, logged, ended), kept) =
          archive_snapshot-ok host laws quiet directory audit logging o c v middle decoded
            (others (state_path directory local_node) c
              (state_path-ne-setting directory sysfs_root local_node) held)
            (others (audit_log directory) v (audit_log-ne-setting directory sysfs_root) log)
            (sym (ap (λ x. x.0) (step ∙ step')) ∙ h) in
        subst (λ x. IsRestored v s x.1) (sym (step ∙ step'))
          (
            o,
            c,
            line,
            held,
            decoded,
            All-map restore_order
                (IsOriginal-kept fs laws o middle (archive_snapshot F host directory audit middle).1
                  (λ name t setting x.
                    kept _ t (λ e. audit_log-ne-setting directory sysfs_root name setting (sym e))
                      (λ e.
                        state_path-ne-setting directory sysfs_root local_node name setting (sym e))
                      x))
                settings,
            archived,
            logged,
            ended,
          )

module _ {S : Type 0} (F : Type 0) ⦃f : F32 F⦄ (host : Host S) (laws : IsFileSystem host.files)
    (own : HasOwnSockets host.files host.sockets) (quiet : IsHost host) where
  -- Between the lines of its intent and its outcome, the settings read as the snapshot says and its
  -- text is in the archive.
  abbrev pub IsRecovered : FilePath → Text → Text → S → Type 0
  IsRecovered directory u c s' =
      (o : OriginalPowerState F) × (first : Text) × (second : Text) × (third : Text) × (decode c
        ≡ ok o)
      × All (λ r. IsOriginal (kernel host.files) sysfs_root o r s') restore_order
      × Holds host.files laws (archived_path directory o) c s'
      × IsLineOf AuditEventKind.intent_received (str "ACTIVE restore requested") first
      × IsLineOf AuditEventKind.recovery_state_retired (retired_message directory o) second
      × IsLineOf AuditEventKind.action_executed (str "ACTIVE restore" ++ str " completed") third
      × Holds host.files laws (audit_log directory) (u ++ first ++ second ++ third) s'

  module _ (directory : FilePath) (audit : AuditSink S)
      (logging : IsLogging host.files laws (audit_log directory) audit) (u c : Text) (s : S) where
    abbrev run : S → Option (Result (Unit {0})) × S
    run =
        audited host (str "ACTIVE restore requested") (str "ACTIVE restore") audit
          (returns (restore_operation F host directory audit))

    audited-IsRecovered :
        LogHolds host.files laws (audit_log directory) u s
        → Holds host.files laws (state_path directory local_node) c s
        → (run s).0 ≡ some (ok tt)
        → IsRecovered directory u c (run s).1
    audited-IsRecovered log held h =
        let (first, start, logged, begun, kept, good, others, close) =
          audited_success host laws quiet (audit_log directory) audit logging
            (str "ACTIVE restore requested") (str "ACTIVE restore")
            (returns (restore_operation F host directory audit)) u s log h in
        let (o, c', second, read, decoded, settings, archived, retired, added) =
          restore_operation-ok F host laws quiet directory audit logging (u ++ first) start begun
            (some-injective _ _ good) in
        let (third, completed, ended) = close (u ++ first ++ second) added in
        let same = ok-injective (
          sym read
          ∙ kept (state_path directory local_node) c
              (λ e. audit_log-ne-state_path directory local_node (sym e)) held) in
        let end = (restore_operation F host directory audit start).1 in
        (
          o,
          first,
          second,
          third,
          subst (λ x. decode x ≡ ok o) same decoded,
          All-map restore_order
              (IsOriginal-kept host.files laws o end (run s).1 (λ name t setting x.
                others _ t (λ e. audit_log-ne-setting directory sysfs_root name setting (sym e)) x))
              settings,
          others (archived_path directory o) c
              (λ e. audit_log-ne-archived directory local_node o.captured_at_unix_seconds (sym e))
              (subst (λ x. Holds host.files laws (archived_path directory o) x end) same archived),
          logged,
          retired,
          completed,
          ended,
        )

  abbrev command : FilePath → AuditSink S → S → Option (Result (Unit {0})) × S
  command directory audit =
      audited host (str "ACTIVE restore requested") (str "ACTIVE restore") audit
        (returns (restore_operation F host directory audit))

  -- When `restore-active-local` succeeds, the three settings read in the state that is left as the
  -- snapshot of the state directory says, its text is in the archive under its node and time of
  -- capture, and the audit log is what it was and three lines more, in this order: the request, where
  -- the snapshot was archived, and the completion. The files, the sockets, the clock and the console
  -- must behave as documented.
  pub restore_local_success :
      (directory : FilePath) (u c : Text) (s : S)
      → argument host 2 ≡ some directory
      → LogHolds host.files laws (audit_log directory) u s
      → Holds host.files laws (state_path directory local_node) c s
      → (restore_active_local F host s).0 ≡ some (ok tt)
      → IsRecovered directory u c (restore_active_local F host s).1
  unfolding restore_active_local
  restore_local_success directory u c s given log held h =
      elim (when_permitted-cases host (str "restore-active-local") command s) [
        | inl (e, refused) ↦ let apart = sym (ap (λ x. x.0) refused) ∙ h in cc
        | inr (directory', audit, (given', _, made), step) ↦
            let same = some-injective _ _ (sym given ∙ given') in
            subst (λ x. IsRecovered directory u c x.1) (sym step)
              (subst (λ d. IsRecovered d u c (command directory' audit s).1) (sym same)
                (audited-IsRecovered directory' audit
                  (audit_sink-IsLogging host laws own directory' made) u c s
                  (subst (λ d. LogHolds host.files laws (audit_log d) u s) same log)
                  (subst (λ d. Holds host.files laws (state_path d local_node) c s) same held)
                  (sym (ap (λ x. x.0) step) ∙ h)))
      ]
