-- ===== src/Cli/Intent.antt =====
-- main.rs: no command writes a setting before its intent is in the audit log, and none succeeds before
-- its outcome is there.
use mathlib.Core.Option.{some-injective}
use mathlib.Core.Path.{subst}
use nordfir.Base.{
  ◌≡◌, refl, sym, ap, ◌∙◌, ◌≢◌, ◌⊎◌, inl, inr, Option, none, some, Text, str, ◌++◌, Result, ok, err,
  Result-cases,
}
use nordfir.Base.Io.{Io}
use nordfir.Format.{FilePath}
use nordfir.Files.Laws.{IsFileSystem}
use nordfir.State.Store.Saved.{Holds}
use nordfir.Audit.{AuditEventKind, AuditSink}
use nordfir.Audit.Sinks.Appended.{LogHolds}
use nordfir.Host.{Host, IsHost}
use nordfir.Cli.{record_audit, finish_audited}
use nordfir.Cli.Audited.{IsLineOf, IsLogging, record_audit-Keeps, record_audit_appends}
use nordfir.Cli.Writing.{Run, settle, after_intent, audited}

module _ {S : Type 0} (host : Host S) (laws : IsFileSystem host.files) (log : FilePath) where
  -- Every file but the log that exists keeps its text.
  abbrev pub OthersKept : S → S → Type 0
  OthersKept s s' =
      (p : FilePath) (t : Text)
      → p ≢ log
      → Holds host.files laws p t s
      → Holds host.files laws p t s'

  -- The intent could not be recorded, and nothing was done.
  abbrev pub IsHeld : S → Option (Result (Unit {0})) × S → Type 0
  IsHeld s (r, s') = ((e : Text) × (r ≡ some (err e))) × OthersKept s s'

  module _ (audit : AuditSink S) (request operation : Text) (op : Run S (Unit {0})) where
    -- The operation ran from a state in which the log ends in the intent, and all other files are still
    -- as they were; after it, its outcome was recorded.
    abbrev pub IsStarted : Text → S → Option (Result (Unit {0})) × S → Type 0
    IsStarted u s result =
        (line : Text) × (start : S) × IsLineOf AuditEventKind.intent_received request line
        × Holds host.files laws log (u ++ line) start
        × OthersKept s start
        × (result ≡ settle host audit operation (op start))

  module _ (request operation : Text) (op : Run S (Unit {0})) where
    -- The operation has succeeded, from a state in which the log ends in the intent and all other files
    -- are still as they were; what the log holds after it is followed by the outcome.
    abbrev pub IsCompleted : Text → S → S → Type 0
    IsCompleted u s s' =
        (first : Text) × (start : S) × IsLineOf AuditEventKind.intent_received request first
        × Holds host.files laws log (u ++ first) start
        × OthersKept s start
        × ((op start).0 ≡ some (ok tt))
        × OthersKept (op start).1 s'
        × ((v : Text)
            → Holds host.files laws log v (op start).1
            → (last : Text) × IsLineOf AuditEventKind.action_executed
                (operation ++ str " completed") last
              × Holds host.files laws log (v ++ last) s')

module _ {S : Type 0} (host : Host S) (laws : IsFileSystem host.files) (quiet : IsHost host)
    (log : FilePath) (audit : AuditSink S) (logging : IsLogging host.files laws log audit) where
  module _ (request operation : Text) (op : Run S (Unit {0})) where
    abbrev record_intent : Io S (Unit {0})
    record_intent = record_audit host audit AuditEventKind.intent_received request

    pub audited_cases :
        (u : Text) (s : S)
        → LogHolds host.files laws log u s
        → IsHeld host laws log s (audited host request operation audit op s)
          ⊎ IsStarted host laws log audit request operation op u s
              (audited host request operation audit op s)
    unfolding audited after_intent
    audited_cases u s h =
        let kept = λ (p : FilePath) (t : Text) (d : p ≢ log).
          record_audit-Keeps host laws quiet log audit logging AuditEventKind.intent_received
            request p t d s in
        elim (Result-cases (record_intent s).0) [
          | inr (e, bad) ↦ inl (
            (e, ap (λ r. (after_intent host audit operation op (r, (record_intent s).1)).0) bad),
            λ p t d x.
                subst
                  (λ r.
                    Holds host.files laws p t
                      (after_intent host audit operation op (r, (record_intent s).1)).1)
                  (sym bad) (kept p t d x),
          )
          | inl (_, good) ↦
              let (line, logged, held) =
                record_audit_appends host laws quiet log audit logging
                  AuditEventKind.intent_received request u s h good in
              inr (
                line,
                (record_intent s).1,
                logged,
                held,
                kept,
                ap (λ r. after_intent host audit operation op (r, (record_intent s).1)) good,
              )
        ]

  -- The outcome that is recorded after a success.
  finish-ok :
      (operation : Text) (r : Result (Unit {0})) (s : S)
      → (finish_audited host audit operation r s).0 ≡ ok tt
      → r ≡ ok tt
  unfolding finish_audited
  finish-ok operation (ok _) s h = refl
  finish-ok operation (err e) s h = cc

  settle-ok :
      (operation : Text) (r : Option (Result (Unit {0}))) (s : S)
      → (settle host audit operation (r, s)).0 ≡ some (ok tt)
      → (r ≡ some (ok tt))
        × ((record_audit host audit AuditEventKind.action_executed
              (operation ++ str " completed")
              s).0
            ≡ ok tt)
  unfolding settle finish_audited
  settle-ok operation none s h = cc
  settle-ok operation (some (ok _)) s h = (refl, some-injective _ _ h)
  settle-ok operation (some (err e)) s h = cc

  module _ (request operation : Text) (op : Run S (Unit {0})) where
    record_outcome : Io S (Unit {0})
    record_outcome =
        record_audit host audit AuditEventKind.action_executed (operation ++ str " completed")

    started-IsCompleted :
        (u : Text) (s : S)
        → IsStarted host laws log audit request operation op u s
            (audited host request operation audit op s)
        → (audited host request operation audit op s).0 ≡ some (ok tt)
        → IsCompleted host laws log request operation op u s
            (audited host request operation audit op s).1
    unfolding record_outcome settle finish_audited
    started-IsCompleted u s (first, start, logged, held, kept, same) h =
        let end = (op start).1 in
        let (good, recorded) =
          settle-ok operation (op start).0 end (sym (ap (λ x. x.0) same) ∙ h) in
        let left = ap (λ x. x.1) same ∙ ap (λ r. (settle host audit operation (r, end)).1) good in
        (
          first,
          start,
          logged,
          held,
          kept,
          good,
          λ p t d x. subst (Holds host.files laws p t) (sym left) (
              record_audit-Keeps host laws quiet log audit logging AuditEventKind.action_executed
                (operation ++ str " completed") p t d end x),
          λ v x.
              let (last, outcome, ended) =
                record_audit_appends host laws quiet log audit logging
                  AuditEventKind.action_executed (operation ++ str " completed") v end (inl x)
                  recorded in
              (last, outcome, subst (Holds host.files laws log (v ++ last)) (sym left) ended),
        )

    pub audited_success :
        (u : Text) (s : S)
        → LogHolds host.files laws log u s
        → (audited host request operation audit op s).0 ≡ some (ok tt)
        → IsCompleted host laws log request operation op u s
            (audited host request operation audit op s).1
    audited_success u s h good = elim (audited_cases request operation op u s h) [
      | inl ((e, bad), _) ↦ let apart = sym bad ∙ good in cc
      | inr started ↦ started-IsCompleted u s started good
    ]
