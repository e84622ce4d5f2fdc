-- ===== src/Engine/Decisions.antt =====
-- When `evaluate` asks the authority, and what it passes on.
use mathlib.Core.Path.{subst}
use mathlib.Core.Option.{some-injective}
use nordfir.Base.{
  ◌≡◌, refl, ap, sym, ◌↔◌, inl, inr, false, some, List, [], ◌∷◌, map, Text, All, any, Bool-cases,
  Option-cases,
}
use nordfir.Base.Time.{SystemTime}
use nordfir.Core.{Intent, NodeSnapshot}
use nordfir.Action.{Action}
use nordfir.Authority.{AuthorizationRequest, AuthorizationDecision}
use nordfir.Guards.{Guard, GuardVerdict, GuardOutcome}
use nordfir.Engine.{Engine, candidate_action, capability_for, stops, judge, verdicts, evaluate}

stops_iff : (o : GuardOutcome) → (stops o ≡ false) ↔ (o ≡ GuardOutcome.allow)
unfolding stops
stops_iff GuardOutcome.allow = (λ _. refl, λ _. refl)
stops_iff GuardOutcome.defer = (λ h. cc, λ h. cc)
stops_iff GuardOutcome.block = (λ h. cc, λ h. cc)

-- The request that `evaluate` makes for an action.
abbrev pub request_for : Text → Action → AuthorizationRequest
request_for actor a = record {
  actor = actor;
  capability = capability_for a.kind;
  reason = a.reason;
  requested_factors = [];
}

module _ {F : Type 0} (now : SystemTime) (s : NodeSnapshot F) (a : Action) where
  abbrev pub Passes : Guard F → Type 0
  Passes g = (g.evaluate now s a).outcome ≡ GuardOutcome.allow

  none_stops_iff :
      (gs : List (Guard F))
      → (any (λ (v : GuardVerdict). stops v.outcome) (map (λ (g : Guard F). g.evaluate now s a) gs)
          ≡ false)
        ↔ All Passes gs
  none_stops_iff [] = (λ _. tt, λ _. refl)
  none_stops_iff (g ∷ gs) =
      let this = stops_iff (g.evaluate now s a).outcome in
      let rest = none_stops_iff gs in
      elim (Bool-cases (stops (g.evaluate now s a).outcome)) [
        | inl e ↦ rw e (λ h. cc, λ (p, _). cc (this.1 p))
        | inr e ↦ rw e (λ h. (this.0 e, rest.0 h), λ (_, ps). rest.1 ps)
      ]

module _ {F : Type 0} (engine : Engine F) (actor : Text) (now : SystemTime)
    (s : NodeSnapshot F) where
  judge_iff :
      (a : Action) (d : AuthorizationDecision)
      → ((judge engine actor now s a).authorization ≡ some d) ↔ (
          All (Passes now s a) engine.guards
          × (engine.authority.authorize (request_for actor a) ≡ d))
  unfolding judge verdicts
  judge_iff a d =
      let clear = none_stops_iff now s a engine.guards in
      elim (Bool-cases (any (λ (v : GuardVerdict). stops v.outcome) (verdicts engine now s a))) [
        | inl e ↦ rw (e, judge) (λ h. cc, λ (ps, _). cc (clear.1 ps))
        | inr e ↦ rw (e, judge) (λ h. (clear.0 e, some-injective _ _ h), λ (_, q). ap some q)
      ]

  pub evaluate_candidate :
      (intent : Intent) (a : Action) (d : AuthorizationDecision)
      → candidate_action intent ≡ some a
      → ((evaluate engine actor now intent s).authorization ≡ some d) ↔ (
          All (Passes now s a) engine.guards
          × (engine.authority.authorize (request_for actor a) ≡ d))
  unfolding evaluate
  evaluate_candidate intent a d e = rw (e, evaluate) (judge_iff a d)

  -- `evaluate` passes on a decision exactly when the intent has a candidate action that every guard
  -- allows, and then it is the authority's decision on that action's capability.
  pub evaluate_iff :
      (intent : Intent) (d : AuthorizationDecision)
      → ((evaluate engine actor now intent s).authorization ≡ some d) ↔ (
          (a : Action) × (candidate_action intent ≡ some a)
          × All (Passes now s a) engine.guards
          × (engine.authority.authorize (request_for actor a) ≡ d))
  unfolding evaluate
  evaluate_iff intent d = elim (Option-cases (candidate_action intent)) [
    | inl e ↦ rw (e, evaluate) (λ h. cc, λ (a, q, _, _). cc)
    | inr (a, e) ↦
        rw (e, evaluate)
          (
            λ h. let (ps, q) = (judge_iff a d).0 h in (a, refl, ps, q),
            λ (b, q, ps, r). (judge_iff a d).1 (
                subst
                  (λ (x : Action).
                    All (Passes now s x) engine.guards
                    × (engine.authority.authorize (request_for actor x) ≡ d))
                  (sym (some-injective _ _ q)) (ps, r)),
          )
  ]
