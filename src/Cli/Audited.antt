-- ===== src/Cli/Audited.antt =====
-- main.rs, the audit log of the commands that write: what `audit_sink` makes logs every event in the file.
use mathlib.Core.Path.{subst}
use nordfir.Base.{
  ◌≡◌, refl, ap, ◌∙◌, ◌≢◌, inl, inr, Option, none, some, List, [], ◌∷◌, ◌++◌, Text, str, All,
  All-append, ok, ok-injective, >>=-eq-ok,
}
use nordfir.Base.Io.{Keeps}
use nordfir.Base.Time.{SystemTime}
use nordfir.Format.{FilePath}
use nordfir.Files.{FileSystem}
use nordfir.Files.Laws.{IsFileSystem}
use nordfir.State.Store.Saved.{Holds}
use nordfir.Audit.{AuditEvent, AuditEventKind, AuditSink, encode_event, new_fanout, record_fanout}
use nordfir.Audit.Fanout.{visit, record_fanout_outcome}
use nordfir.Audit.Sinks.{record_file, record_datagram, record_receipt}
use nordfir.Audit.Sinks.Appended.{LogHolds, record_file-Keeps, record_file_appends}
use nordfir.Audit.Sinks.Sent.{
  HasOwnSockets, LeavesFiles, record_datagram-LeavesFiles, record_receipt-LeavesFiles,
}
use nordfir.Host.{Host, IsHost}
use nordfir.Cli.{
  audit_log, configured_forward, configured_receipt, optional_sink, one_or_all, audit_sink,
  record_audit, event_at,
}

-- A line that was logged for an event of this kind with this message.
abbrev pub IsLineOf : AuditEventKind → Text → Text → Type 0
IsLineOf kind message line =
    (at : SystemTime) × (encode_event
        (record { at = at; actor = str "local-user"; kind = kind; message = message })
      ≡ ok line)

module _ {S : Type 0} (fs : FileSystem S) (laws : IsFileSystem fs) where
  -- The sink changes no file but the log, and what it has recorded is the last line of the log.
  pub record IsLogging (log : FilePath) (audit : AuditSink S) : Type 0 where
    pub keeps :
        (event : AuditEvent) (p : FilePath) (t : Text)
        → p ≢ log
        → Keeps (Holds fs laws p t) (audit event)
    pub appends :
        (event : AuditEvent) (u : Text) (s : S)
        → LogHolds fs laws log u s
        → (audit event s).0 ≡ ok tt
        → (line : Text) × (encode_event event ≡ ok line)
          × Holds fs laws log (u ++ line) (audit event s).1

  abbrev IsSilent : AuditSink S → Type 0
  IsSilent sink = (event : AuditEvent) → LeavesFiles fs (sink event)

  visit-leaves :
      (event : AuditEvent) (sinks : List (AuditSink S)) (p : FilePath) (s : S)
      → All IsSilent sinks
      → fs.read_to_string p (visit event sinks s) ≡ fs.read_to_string p s
  visit-leaves event [] p s _ = refl
  visit-leaves event (sink ∷ sinks) p s (silent, more) =
      visit-leaves event sinks p (sink event s).1 more ∙ silent event p s

  module _ (log : FilePath) where
    record_file-IsLogging : IsLogging log (record_file fs log)
    record_file-IsLogging = record {
      keeps = λ event p t d. record_file-Keeps fs laws log event p t d;
      appends = λ event u s h r. record_file_appends fs laws log event u s h r;
    }

    record_fanout-IsLogging :
        (sinks : List (AuditSink S))
        → All IsSilent sinks
        → IsLogging log (record_fanout (record_file fs log ∷ sinks))
    record_fanout-IsLogging sinks silent = record {
      keeps = λ event p t d s h.
          ap (fs.read_to_string p) (record_fanout_outcome (record_file fs log ∷ sinks) event s).0
          ∙ visit-leaves event sinks p (record_file fs log event s).1 silent
          ∙ record_file-Keeps fs laws log event p t d s h;
      appends = λ event u s h r.
          let (end, accepted) = record_fanout_outcome (record_file fs log ∷ sinks) event s in
          let (line, encoded, held) =
            record_file_appends fs laws log event u s h (accepted.0 r).0 in
          (
            line,
            encoded,
            ap (fs.read_to_string log) end
                ∙ visit-leaves event sinks log (record_file fs log event s).1 silent
                ∙ held,
          );
    }

    one_or_all-IsLogging :
        (sinks : List (AuditSink S)) {audit : AuditSink S}
        → All IsSilent sinks
        → one_or_all (record_file fs log ∷ sinks) ≡ ok audit
        → IsLogging log audit
    unfolding one_or_all new_fanout
    one_or_all-IsLogging [] silent h = subst (IsLogging log) (ok-injective h) record_file-IsLogging
    one_or_all-IsLogging (sink ∷ sinks) silent h =
        subst (IsLogging log) (ok-injective h) (record_fanout-IsLogging (sink ∷ sinks) silent)

    optional_sink-IsSilent :
        (sink : FilePath → AuditSink S) (configured : Option FilePath)
        → ((path : FilePath) → IsSilent (sink path))
        → All IsSilent (optional_sink sink configured)
    unfolding optional_sink
    optional_sink-IsSilent sink none silent = tt
    optional_sink-IsSilent sink (some path) silent = (silent path, tt)

module _ {S : Type 0} (host : Host S) (laws : IsFileSystem host.files)
    (own : HasOwnSockets host.files host.sockets) where
  pub audit_sink-IsLogging :
      (directory : FilePath) {audit : AuditSink S}
      → audit_sink host directory ≡ ok audit
      → IsLogging host.files laws (audit_log directory) audit
  unfolding audit_sink
  audit_sink-IsLogging directory h =
      let (forward, _, more) = >>=-eq-ok (configured_forward host) _ h in
      let (receipt, _, made) = >>=-eq-ok (configured_receipt host) _ more in
      one_or_all-IsLogging host.files laws (audit_log directory)
        (optional_sink (record_datagram host.files host.sockets) forward
          ++ optional_sink (record_receipt host.files host.sockets) receipt)
        (All-append _ (optional_sink (record_datagram host.files host.sockets) forward) _
          (optional_sink-IsSilent host.files laws (audit_log directory) _ forward
            (record_datagram-LeavesFiles host.files host.sockets own))
          (optional_sink-IsSilent host.files laws (audit_log directory) _ receipt
            (record_receipt-LeavesFiles host.files host.sockets own)))
        made

module _ {S : Type 0} (host : Host S) (laws : IsFileSystem host.files) (quiet : IsHost host)
    (log : FilePath) (audit : AuditSink S) (logging : IsLogging host.files laws log audit) where
  now-LogHolds :
      (u : Text) (s : S)
      → LogHolds host.files laws log u s
      → LogHolds host.files laws log u (host.now s).1
  now-LogHolds u s (inl h) = inl (quiet.now_leaves log s ∙ h)
  now-LogHolds u s (inr (e, missing, empty)) = inr (e, quiet.now_finds log s ∙ missing, empty)

  pub record_audit-Keeps :
      (kind : AuditEventKind) (message : Text) (p : FilePath) (t : Text)
      → p ≢ log
      → Keeps (Holds host.files laws p t) (record_audit host audit kind message)
  unfolding record_audit
  record_audit-Keeps kind message p t d s h =
      logging.keeps (event_at host kind message s) p t d (host.now s).1 (quiet.now_leaves p s ∙ h)

  pub record_audit_appends :
      (kind : AuditEventKind) (message u : Text) (s : S)
      → LogHolds host.files laws log u s
      → (record_audit host audit kind message s).0 ≡ ok tt
      → (line : Text) × IsLineOf kind message line
        × Holds host.files laws log (u ++ line) (record_audit host audit kind message s).1
  unfolding record_audit event_at
  record_audit_appends kind message u s h r =
      let (line, encoded, held) =
        logging.appends (event_at host kind message s) u (host.now s).1 (now-LogHolds u s h) r in
      (line, ((host.now s).0, encoded), held)
