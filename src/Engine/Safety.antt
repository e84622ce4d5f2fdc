-- ===== src/Engine/Safety.antt =====
-- What an allowed decision says about the host, for the guards and policies of the program.
use nordfir.Base.{◌≡◌, refl, ◌↔◌, ◌≢◌, some, List, [], ◌∷◌, Text}
use nordfir.Base.Time.{SystemTime}
use nordfir.Core.{
  NodeId, ServiceId, PowerMode, Intent, IntentTarget, AvailabilityIntent, NodeSnapshot,
}
use nordfir.Action.{Action, ActionKind, ActionRisk}
use nordfir.Authority.{AuthorizationDecision, optimization_only, contains, authorize, policy_gate}
use nordfir.Guards.{Guard, GuardOutcome}
use nordfir.Guards.SshSession.{ssh_session_guard}
use nordfir.Guards.RestActivity.{rest_activity_guard}
use nordfir.Guards.Outcomes.{AllIdle, rest_activity_outcome}
use nordfir.Engine.{Engine, candidate_action, capability_for, evaluate}
use nordfir.Engine.Decisions.{request_for, evaluate_candidate, evaluate_iff}

module _ {F : Type 0} where
  -- The engine that `economize-local` builds.
  unfoldable pub local_engine : Engine F
  local_engine = record {
    guards = rest_activity_guard ∷ ssh_session_guard ∷ [];
    authority = policy_gate optimization_only;
  }

abbrev pub intent_for : IntentTarget → AvailabilityIntent → Text → Intent
intent_for target availability reason = record {
  target = target;
  availability = availability;
  reason = reason;
}

abbrev rest_action : NodeId → Text → Action
rest_action n reason = record {
  kind = ActionKind.set_power_mode n PowerMode.rest;
  risk = ActionRisk.recoverable;
  reason = reason;
}

abbrev release_action : NodeId → Text → Action
release_action n reason = record {
  kind = ActionKind.shutdown_node n;
  risk = ActionRisk.disruptive;
  reason = reason;
}

candidate_economize :
    (n : NodeId) (reason : Text)
    → candidate_action (intent_for (IntentTarget.node n) AvailabilityIntent.economize reason)
      ≡ some (rest_action n reason)
unfolding candidate_action
candidate_economize n reason = refl

candidate_release :
    (n : NodeId) (reason : Text)
    → candidate_action (intent_for (IntentTarget.node n) AvailabilityIntent.release reason)
      ≡ some (release_action n reason)
unfolding candidate_action
candidate_release n reason = refl

no_candidate :
    (v : ServiceId) (reason : Text)
    → ¬ (
        (a : Action) × (candidate_action
            (intent_for (IntentTarget.service v) AvailabilityIntent.release reason)
          ≡ some a))
unfolding candidate_action
no_candidate v reason (a, h) = cc

allows_rest :
    (actor : Text) (n : NodeId) (reason : Text)
    → (policy_gate optimization_only).authorize (request_for actor (rest_action n reason))
      ≡ AuthorizationDecision.allow
unfolding policy_gate authorize contains capability_for
allows_rest actor n reason = refl

denies_release :
    (actor : Text) (n : NodeId) (reason : Text)
    → (policy_gate optimization_only).authorize (request_for actor (release_action n reason))
      ≢ AuthorizationDecision.allow
unfolding policy_gate authorize contains capability_for
denies_release actor n reason h = cc

ssh_lets_rest :
    {F : Type 0} (now : SystemTime) (s : NodeSnapshot F) (n : NodeId) (reason : Text)
    → (ssh_session_guard.evaluate now s (rest_action n reason)).outcome ≡ GuardOutcome.allow
unfolding ssh_session_guard
ssh_lets_rest now s n reason = refl

module _ {F : Type 0} (actor : Text) (now : SystemTime) (s : NodeSnapshot F) (reason : Text) where
  -- The local engine allows a node to economize exactly when every protected service of the
  -- snapshot is known to be idle.
  pub economize_iff :
      (n : NodeId)
      → ((evaluate local_engine actor now
            (intent_for (IntentTarget.node n) AvailabilityIntent.economize reason)
            s).authorization
          ≡ some AuthorizationDecision.allow)
        ↔ AllIdle s.services s.protected_services
  unfolding local_engine
  economize_iff n =
      let intent = intent_for (IntentTarget.node n) AvailabilityIntent.economize reason in
      let decided =
        evaluate_candidate local_engine actor now s intent _ AuthorizationDecision.allow
          (candidate_economize n reason) in
      let idle = (rest_activity_outcome now s ActionRisk.recoverable reason n).0 in
      (
        λ h. idle.0 (decided.0 h).0.0,
        λ h. decided.1 ((idle.1 h, (ssh_lets_rest now s n reason, tt)), allows_rest actor n reason),
      )

  -- Whatever the guards, the policy of early development never allows a node to be released.
  pub release-ne-allow :
      (guards : List (Guard F)) (target : IntentTarget)
      → (evaluate
          (record { guards = guards; authority = policy_gate optimization_only })
          actor
          now
          (intent_for target AvailabilityIntent.release reason)
          s).authorization
        ≢ some AuthorizationDecision.allow
  release-ne-allow guards (IntentTarget.node n) h =
      let intent = intent_for (IntentTarget.node n) AvailabilityIntent.release reason in
      let engine : Engine F = record {
        guards = guards;
        authority = policy_gate optimization_only;
      } in
      let decided =
        evaluate_candidate engine actor now s intent _ AuthorizationDecision.allow
          (candidate_release n reason) in
      denies_release actor n reason (decided.0 h).1
  release-ne-allow guards (IntentTarget.service v) h =
      let engine : Engine F = record {
        guards = guards;
        authority = policy_gate optimization_only;
      } in
      let intent = intent_for (IntentTarget.service v) AvailabilityIntent.release reason in
      let (a, found, _, _) = (evaluate_iff engine actor now s intent _).0 h in
      no_candidate v reason (a, found)
