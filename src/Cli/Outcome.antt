-- ===== src/Cli/Outcome.antt =====
-- main.rs, `finish_audited`: what the log and the result say of an operation that has ended.
use nordfir.Base.{◌≡◌, ap, ◌⊎◌, inl, inr, Text, str, ◌++◌, Result, ok, err, Result-cases}
use nordfir.Format.{FilePath}
use nordfir.Files.Laws.{IsFileSystem}
use nordfir.State.Store.Saved.{Holds}
use nordfir.Audit.{AuditEventKind, AuditSink}
use nordfir.Audit.Sinks.Appended.{LogHolds}
use nordfir.Audit.Sinks.Sent.{HasOwnSockets}
use nordfir.Host.{Host, IsHost}
use nordfir.Cli.{audit_log, audit_sink, record_audit, finish_audited, with_audit_error}
use nordfir.Cli.Audited.{
  IsLineOf, IsLogging, audit_sink-IsLogging, record_audit-Keeps, record_audit_appends,
}
use nordfir.Cli.Intent.{OthersKept}

module _ {S : Type 0} (host : Host S) (laws : IsFileSystem host.files) (log : FilePath) where
  -- The log got a line for the event.
  abbrev pub IsRecorded : AuditEventKind → Text → Text → S → Type 0
  IsRecorded kind message v s' =
      (line : Text) × IsLineOf kind message line × Holds host.files laws log (v ++ line) s'

  -- The result is that of the operation and the log says so, or it tells that the event was refused.
  abbrev pub IsFinished : Text → Result (Unit {0}) → Text → Result (Unit {0}) × S → Type 0
  IsFinished operation (ok _) v (out, s') =
      ((out ≡ ok tt)
        × IsRecorded AuditEventKind.action_executed (operation ++ str " completed") v s')
      ⊎ ((e : Text) × (out ≡ err e))
  IsFinished operation (err error) v (out, s') =
      ((out ≡ err error)
        × IsRecorded AuditEventKind.action_failed (operation ++ str " failed: " ++ error) v s')
      ⊎ ((e : Text) × (out
            ≡ err (error ++ str "; additionally failed to record audit event: " ++ e)))

module _ {S : Type 0} (host : Host S) (laws : IsFileSystem host.files) (quiet : IsHost host)
    (log : FilePath) (audit : AuditSink S) (logging : IsLogging host.files laws log audit) where
  finish-IsFinished :
      (operation : Text) (r : Result (Unit {0})) (v : Text) (s : S)
      → LogHolds host.files laws log v s
      → IsFinished host laws log operation r v (finish_audited host audit operation r s)
  unfolding finish_audited with_audit_error
  finish-IsFinished operation (ok _) v s held =
      let kind = AuditEventKind.action_executed in
      let message = operation ++ str " completed" in
      elim (Result-cases (record_audit host audit kind message s).0) [
        | inl (_, good) ↦ inl (
          good,
          record_audit_appends host laws quiet log audit logging kind message v s held good,
        )
        | inr bad ↦ inr bad
      ]
  finish-IsFinished operation (err error) v s held =
      let kind = AuditEventKind.action_failed in
      let message = operation ++ str " failed: " ++ error in
      elim (Result-cases (record_audit host audit kind message s).0) [
        | inl (_, good) ↦ inl (
          ap (λ x. err (with_audit_error error x)) good,
          record_audit_appends host laws quiet log audit logging kind message v s held good,
        )
        | inr (e, bad) ↦ inr (e, ap (λ x. err (with_audit_error error x)) bad)
      ]

  finish-OthersKept :
      (operation : Text) (r : Result (Unit {0})) (s : S)
      → OthersKept host laws log s (finish_audited host audit operation r s).1
  unfolding finish_audited
  finish-OthersKept operation (ok _) s p t d =
      record_audit-Keeps host laws quiet log audit logging AuditEventKind.action_executed
        (operation ++ str " completed") p t d s
  finish-OthersKept operation (err error) s p t d =
      record_audit-Keeps host laws quiet log audit logging AuditEventKind.action_failed
        (operation ++ str " failed: " ++ error) p t d s

module _ {S : Type 0} (host : Host S) (laws : IsFileSystem host.files)
    (own : HasOwnSockets host.files host.sockets) (quiet : IsHost host) (directory : FilePath) where
  -- However an operation ended, `finish_audited` with the sinks that are configured lets through its
  -- result with the line of its completion, or of its failure and the reason, added to the log; or it
  -- fails: after a success with an error, after a failure with the operation's error and the audit's
  -- behind it. It never turns a failure into a success, and every file but the log is kept. The files,
  -- the sockets, the clock and the console must behave as documented.
  pub finish_audited_outcome :
      (audit : AuditSink S) (operation : Text) (r : Result (Unit {0})) (v : Text) (s : S)
      → audit_sink host directory ≡ ok audit
      → LogHolds host.files laws (audit_log directory) v s
      → IsFinished host laws
          (audit_log directory)
          operation
          r
          v
          (finish_audited host audit operation r s)
        × OthersKept host laws (audit_log directory) s (finish_audited host audit operation r s).1
  finish_audited_outcome audit operation r v s made held =
      let logging = audit_sink-IsLogging host laws own directory made in
      (
        finish-IsFinished host laws quiet (audit_log directory) audit logging operation r v s held,
        finish-OthersKept host laws quiet (audit_log directory) audit logging operation r s,
      )
