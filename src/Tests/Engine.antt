-- ===== src/Tests/Engine.antt =====
-- The engine and the guards at concrete snapshots.
use nordfir.Base.{◌≡◌, ◌≢◌, ◌↔◌, true, none, some, [], ◌∷◌, str, All}
use nordfir.Base.Time.{SystemTime, since}
use nordfir.Core.{
  Intent, IntentTarget, AvailabilityIntent, PowerMode, ServiceActivity, NodeSnapshot, Observation,
  known_at,
}
use nordfir.Action.{Action, ActionKind, ActionRisk}
use nordfir.Authority.{AuthorizationDecision, AuthorityGate, policy_gate, optimization_only}
use nordfir.Guards.{GuardOutcome}
use nordfir.Guards.RestActivity.{rest_activity_guard}
use nordfir.Guards.Outcomes.{AllIdle, IsFirstBusyActive, rest_activity_outcome}
use nordfir.Engine.{Engine, candidate_action, evaluate}
use nordfir.Engine.Decisions.{Passes, request_for, evaluate_iff}
use nordfir.Engine.Safety.{local_engine, intent_for, economize_iff, release-ne-allow}
use nordfir.Tests.Milli.{Milli}

abbrev pub now : SystemTime
now = since 5_000_000_000

-- A node whose one protected service is idle.
abbrev pub quiet : NodeSnapshot Milli
quiet = record {
  node = str "local";
  power_mode = known_at PowerMode.active (str "test") now;
  reachable = known_at true (str "test") now;
  active_ssh_sessions = known_at 0 (str "test") now;
  protected_services = str "db" ∷ [];
  services = (str "db", known_at ServiceActivity.idle (str "test") now) ∷ [];
  cpu_utilization_percent = none;
  memory_utilization_percent = none;
  load_average_1m = none;
  uptime_seconds = none;
  cpu_frequency_mhz = none;
  power = none;
}

abbrev economize : Intent
economize = record {
  target = IntentTarget.node (str "local");
  availability = AvailabilityIntent.economize;
  reason = str "night";
}

abbrev rest_action : Action
rest_action = record {
  kind = ActionKind.set_power_mode (str "local") PowerMode.rest;
  risk = ActionRisk.recoverable;
  reason = str "night";
}

abbrev shutdown : Action
shutdown = record {
  kind = ActionKind.shutdown_node (str "local");
  risk = ActionRisk.disruptive;
  reason = str "night";
}

evaluate_iff_example :
    ((evaluate local_engine (str "me") now economize quiet).authorization
      ≡ some AuthorizationDecision.allow)
    ↔ ((a : Action) × (candidate_action economize ≡ some a)
        × All (Passes now quiet a) (local_engine {F = Milli}).guards
        × ((local_engine {F = Milli}).authority.authorize (request_for (str "me") a)
            ≡ AuthorizationDecision.allow))
evaluate_iff_example =
    evaluate_iff local_engine (str "me") now quiet economize AuthorizationDecision.allow

economize_iff_example :
    ((evaluate local_engine
        (str "me")
        now
        (intent_for (IntentTarget.node (str "local")) AvailabilityIntent.economize (str "night"))
        quiet).authorization
      ≡ some AuthorizationDecision.allow)
    ↔ AllIdle quiet.services quiet.protected_services
economize_iff_example = economize_iff (str "me") now quiet (str "night") (str "local")

release-ne-allow_example :
    (evaluate
      (record { guards = []; authority = policy_gate optimization_only })
      (str "me")
      now
      (intent_for (IntentTarget.node (str "local")) AvailabilityIntent.release (str "night"))
      quiet).authorization
    ≢ some AuthorizationDecision.allow
release-ne-allow_example =
    release-ne-allow (str "me") now quiet (str "night") [] (IntentTarget.node (str "local"))

rest_activity_outcome_example :
    let v = rest_activity_guard.evaluate now quiet rest_action in
    ((v.outcome ≡ GuardOutcome.allow) ↔ AllIdle quiet.services quiet.protected_services)
    × ((v.outcome ≡ GuardOutcome.defer) ↔ IsFirstBusyActive quiet.services quiet.protected_services)
rest_activity_outcome_example =
    rest_activity_outcome now quiet ActionRisk.recoverable (str "night") (str "local")

-- The guards let the quiet node go, and the authority says what it likes.
abbrev willing : AuthorityGate
willing = record { authorize = λ _. AuthorizationDecision.allow }
