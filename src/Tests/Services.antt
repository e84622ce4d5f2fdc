-- ===== src/Tests/Services.antt =====
-- Readiness, confinement, the observer and the audit log at concrete inputs.
use nordfir.Base.{
  ℕ, ◌+◌, ◌≤◌, ◌≡◌, refl, ◌≢◌, ◌↔◌, ◌⊎◌, inl, inr, Bool, true, false, Option, none, some, List, [],
  ◌∷◌, ◌++◌, Text, str, All, Result, ok, err, is_ok, arith,
}
use nordfir.Base.Io.{Io}
use nordfir.Base.Time.{SystemTime, since}
use nordfir.Core.{NodeSnapshot}
use nordfir.Preflight.{is_ready, empty_report}
use nordfir.Preflight.Readiness.{report_of, is_ready_iff}
use nordfir.Deployment.{LinuxProcessSecurity, is_confined}
use nordfir.Deployment.Confinement.{IsOneUser, is_confined_iff}
use nordfir.Service.{ObserverConfig, ObserverHeartbeat, ObserverRuntime, run}
use nordfir.Service.Loop.{EndsBy, run-EndsBy}
use nordfir.Audit.{
  AuditEvent, AuditEventKind, AuditSink, parse_receipt, escape_field, encode_event, record_fanout,
}
use nordfir.Audit.Escape.{IsPlain, unescape, unescape-escape_field}
use nordfir.Audit.Receipts.{IsReceiptId, parse_receipt_iff}
use nordfir.Audit.Events.{HappenedAt, encode_event-injective}
use nordfir.Audit.Fanout.{visit, AllAccept, record_fanout_outcome}
use nordfir.Tests.Milli.{Milli}
use nordfir.Tests.Engine.{quiet}

abbrev results : List (Text × Result Text)
results = (str "host", ok (str "matched")) ∷ (str "snapshot", err (str "missing")) ∷ []

is_ready_iff_example :
    (is_ready (report_of results empty_report) ≡ true)
    ↔ ((results ≢ []) × All (λ x. is_ok x.1 ≡ true) results)
is_ready_iff_example = is_ready_iff results

abbrev service_process : LinuxProcessSecurity
service_process = record {
  real_uid = 991;
  effective_uid = 991;
  saved_set_uid = 991;
  filesystem_uid = 991;
  no_new_privileges = true;
  effective_capabilities = 0;
  bounding_capabilities = 0;
}

is_confined_iff_example : (is_confined service_process ≡ true) ↔ (
    IsOneUser service_process
    × (service_process.no_new_privileges ≡ true)
    × (service_process.effective_capabilities ≡ 0)
    × (service_process.bounding_capabilities ≡ 0))
is_confined_iff_example = is_confined_iff service_process

abbrev status : Text
status =
    str
      "Uid:\t991\t991\t991\t991\nCapEff:\t0000000000000000\nCapBnd:\t0000000000000000\nNoNewPrivs:\t1\n"

-- The state counts the heartbeats.
abbrev config : ObserverConfig
config = record { interval = 1; maximum_cycles = some 3 }

abbrev runtime : ObserverRuntime ℕ
runtime = record { stop_requested = λ n. (false, n); wait = λ _ n. n }

abbrev collect : Io ℕ (NodeSnapshot Milli)
collect n = (ok quiet, n)

abbrev publish : ObserverHeartbeat Milli → Io ℕ (Unit {0})
publish beat n = (ok tt, n + 1)

run-EndsBy_example :
    EndsBy config runtime collect publish 3 (run config runtime collect publish 3 0)
run-EndsBy_example = run-EndsBy config runtime collect publish 3 refl (omega arith) (omega arith) 0

parse_receipt_iff_example : (parse_receipt (str "accepted\tr-1\n") ≡ ok (str "r-1")) ↔ (
    (str "accepted\tr-1\n" ≡ (str "accepted" ++ 9 ∷ str "r-1") ++ 10 ∷ [])
    × IsReceiptId (str "r-1"))
parse_receipt_iff_example = parse_receipt_iff (str "accepted\tr-1\n") (str "r-1")

unescape-escape_field_example :
    IsPlain (escape_field (str "a\tb\\n\n"))
    × (unescape (escape_field (str "a\tb\\n\n")) ≡ str "a\tb\\n\n")
unescape-escape_field_example = unescape-escape_field (str "a\tb\\n\n")

abbrev event : AuditEvent
event = record {
  at = since 1_000_000_000;
  actor = str "me";
  kind = AuditEventKind.action_executed;
  message = str "done";
}

abbrev line : Text
line = str "at=1\tactor=me\tkind=action_executed\tmessage=done\n"

encoded : encode_event event ≡ ok line
unfolding encode_event nordfir.Base.Time.duration_since str nordfir.Audit.event_line
    nordfir.Format.Decimal.decimal escape_field nordfir.Audit.replace nordfir.Audit.event_kind
encoded = refl

encode_event-injective_example :
    (event.actor ≡ event.actor)
    × (event.kind ≡ event.kind)
    × (event.message ≡ event.message)
    × ((n : ℕ) × HappenedAt event n × HappenedAt event n)
encode_event-injective_example = encode_event-injective event event encoded encoded

abbrev accepting : AuditSink ℕ
accepting _ n = (ok tt, n + 1)

abbrev refusing : AuditSink ℕ
refusing _ n = (err (str "full"), n + 10)

record_fanout_outcome_example :
    ((record_fanout (refusing ∷ accepting ∷ []) event 0).1
      ≡ visit event (refusing ∷ accepting ∷ []) 0)
    × (((record_fanout (refusing ∷ accepting ∷ []) event 0).0 ≡ ok tt)
        ↔ AllAccept event (refusing ∷ accepting ∷ []) 0)
record_fanout_outcome_example = record_fanout_outcome (refusing ∷ accepting ∷ []) event 0
