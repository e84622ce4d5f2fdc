-- ===== src/Cli/Permission.antt =====
-- main.rs, the checks in front of apply-rest-local and restore-active-local, and what follows them.
use nordfir.Base.{
  ◌≡◌, ap, ◌⊎◌, inl, inr, true, Option, some, Text, Result, ok, err, Result-cases, refuse-not-eq-ok,
}
use nordfir.Format.{FilePath}
use nordfir.Float.{F32}
use nordfir.Files.Laws.{IsFileSystem}
use nordfir.State.Store.Fresh.{ok_or-eq-ok}
use nordfir.Audit.{AuditSink}
use nordfir.Audit.Sinks.Appended.{LogHolds}
use nordfir.Audit.Sinks.Sent.{HasOwnSockets}
use nordfir.Host.{Host, IsHost, argument}
use nordfir.Cli.{
  audit_log, is_confirmation, audit_sink, required_state_directory, require_write_confirmation,
}
use nordfir.Cli.Intent.{IsHeld, IsStarted}
use nordfir.Cli.Writing.{Run, permitted, when_permitted}

module _ {S : Type 0} (host : Host S) where
  -- The state directory and the confirmation were given, and the sinks could be set up.
  abbrev pub IsPermitted : FilePath → AuditSink S → Type 0
  IsPermitted directory audit =
      (argument host 2 ≡ some directory)
      × (is_confirmation (argument host 3) ≡ true)
      × (audit_sink host directory ≡ ok audit)

  permitted-cases :
      (command : Text)
      → ((e : Text) × (permitted host command ≡ err e))
        ⊎ ((directory : FilePath) × (audit : AuditSink S) × (permitted host command
              ≡ ok (directory, audit))
            × IsPermitted directory audit)
  unfolding permitted required_state_directory require_write_confirmation
  permitted-cases command = elim (Result-cases (required_state_directory host command)) [
    | inr (e, bad) ↦ inl (e, rw (bad, permitted))
    | inl (directory, given) ↦ elim (Result-cases (require_write_confirmation host command)) [
      | inr (e, bad) ↦ inl (e, rw (given, bad, permitted))
      | inl (_, confirmed) ↦ elim (Result-cases (audit_sink host directory)) [
        | inr (e, bad) ↦ inl (e, rw (given, confirmed, bad, permitted))
        | inl (audit, made) ↦ inr (
          directory,
          audit,
          rw (given, confirmed, made, permitted),
          (
            ok_or-eq-ok (argument host 2) _ given,
            refuse-not-eq-ok (is_confirmation (argument host 3)) _ confirmed,
            made,
          ),
        )
      ]
    ]
  ]

  -- The command is refused and does nothing, or it runs with what was permitted.
  pub when_permitted-cases :
      (command : Text) (run : FilePath → AuditSink S → Run S (Unit {0})) (s : S)
      → ((e : Text) × (when_permitted host (permitted host command) run s ≡ (some (err e), s)))
        ⊎ ((directory : FilePath) × (audit : AuditSink S) × IsPermitted directory audit
            × (when_permitted host (permitted host command) run s ≡ run directory audit s))
  unfolding when_permitted
  when_permitted-cases command run s = elim (permitted-cases command) [
    | inl (e, bad) ↦ inl (e, ap (λ r. when_permitted host r run s) bad)
    | inr (directory, audit, good, known) ↦
        inr (directory, audit, known, ap (λ r. when_permitted host r run s) good)
  ]

module _ {S : Type 0} (F : Type 0) ⦃f : F32 F⦄ (host : Host S) (laws : IsFileSystem host.files)
    (own : HasOwnSockets host.files host.sockets) (quiet : IsHost host) where
  -- The command does nothing; or it was permitted, and it stops once its intent could not be recorded, or
  -- its operation runs from a state in which only the log has changed, and ends in the intent.
  abbrev pub IsGuarded :
      Text
      → Text
      → (FilePath → AuditSink S → Run S (Unit {0}))
      → S
      → Option (Result (Unit {0})) × S
      → Type 0
  IsGuarded request operation op s result =
      ((e : Text) × (result ≡ (some (err e), s)))
      ⊎ ((directory : FilePath) × (audit : AuditSink S) × IsPermitted host directory audit
          × ((u : Text)
              → LogHolds host.files laws (audit_log directory) u s
              → IsHeld host laws (audit_log directory) s result
                ⊎ IsStarted host laws (audit_log directory) audit request operation
                    (op directory audit) u s result))
