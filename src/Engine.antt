-- ===== src/Engine.antt =====
-- archive/rust/src/engine.rs: from an intent to a candidate action, the guards' verdicts on it and
-- the authority's decision.
pub mod Decisions
pub mod Safety
use nordfir.Base.{Bool, true, false, Option, none, some, List, [], map, Text, any, if◌then◌else◌}
use nordfir.Base.Time.{SystemTime}
use nordfir.Core.{Intent, IntentTarget, AvailabilityIntent, PowerMode, NodeSnapshot}
use nordfir.Action.{Action, ActionKind, ActionRisk}
use nordfir.Authority.{AuthorityGate, AuthorizationDecision, Capability}
use nordfir.Guards.{Guard, GuardVerdict, GuardOutcome}

pub record Engine (F : Type 0) : Type 0 where
  pub guards : List (Guard F)
  pub authority : AuthorityGate

pub record Evaluation : Type 0 where
  pub candidate : Option Action
  pub guards : List GuardVerdict
  pub authorization : Option AuthorizationDecision

act : ActionKind → ActionRisk → Intent → Option Action
act kind risk intent = some (record { kind = kind; risk = risk; reason = intent.reason })

candidate_for : IntentTarget → AvailabilityIntent → Intent → Option Action
candidate_for (IntentTarget.service _) availability intent = none
candidate_for (IntentTarget.node n) AvailabilityIntent.available intent =
    act (ActionKind.set_power_mode n PowerMode.active) ActionRisk.recoverable intent
candidate_for (IntentTarget.node n) AvailabilityIntent.economize intent =
    act (ActionKind.set_power_mode n PowerMode.rest) ActionRisk.recoverable intent
candidate_for (IntentTarget.node n) AvailabilityIntent.release intent =
    act (ActionKind.shutdown_node n) ActionRisk.disruptive intent
candidate_for (IntentTarget.node n) AvailabilityIntent.maintenance intent = none

unfoldable pub candidate_action : Intent → Option Action
unfolding candidate_for act
candidate_action intent = candidate_for intent.target intent.availability intent

unfoldable pub capability_for : ActionKind → Capability
capability_for (ActionKind.set_power_mode _ _) = Capability.optimize_power
capability_for (ActionKind.wake_node _) = Capability.optimize_power
capability_for (ActionKind.shutdown_node _) = Capability.shutdown_node
capability_for (ActionKind.start_service _) = Capability.control_approved_services
capability_for (ActionKind.stop_service _) = Capability.control_approved_services
capability_for ActionKind.wait = Capability.observe

-- `matches!(v.outcome, Block | Defer)`
unfoldable pub stops : GuardOutcome → Bool
stops GuardOutcome.allow = false
stops GuardOutcome.defer = true
stops GuardOutcome.block = true

module _ {F : Type 0} (engine : Engine F) where
  unfoldable pub verdicts : SystemTime → NodeSnapshot F → Action → List GuardVerdict
  verdicts now s a = map (λ (g : Guard F). g.evaluate now s a) engine.guards

  judge : Text → SystemTime → NodeSnapshot F → Action → Evaluation
  judge actor now s a =
      let found = verdicts now s a in
      if any (λ (v : GuardVerdict). stops v.outcome) found
      then record { candidate = some a; guards = found; authorization = none }
      else record {
        candidate = some a;
        guards = found;
        authorization = some (
            engine.authority.authorize (record {
              actor = actor;
              capability = capability_for a.kind;
              reason = a.reason;
              requested_factors = [];
            }));
      }

  unfoldable pub evaluate : Text → SystemTime → Intent → NodeSnapshot F → Evaluation
  unfolding judge
  evaluate actor now intent s = elim (candidate_action intent) [
    | none ↦ record { candidate = none; guards = []; authorization = none }
    | some a ↦ judge actor now s a
  ]
