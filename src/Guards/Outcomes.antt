-- ===== src/Guards/Outcomes.antt =====
-- When each guard lets an action pass, stated on the snapshot alone.
use nordfir.Base.{
  ℕ, zero, suc, ◌≡◌, refl, ◌⊎◌, ◌↔◌, ◌≢◌, inl, inr, true, Option, none, some, List, [], ◌∷◌, Text,
  All, arith, Option-cases,
}
use nordfir.Base.Time.{SystemTime, Duration}
use nordfir.Core.{
  NodeId, ServiceId, PowerMode, ServiceActivity, Observation, ObservationValue, known, NodeSnapshot,
  get, is_fresh,
}
use nordfir.Action.{Action, ActionRisk, ActionKind}
use nordfir.Guards.{GuardVerdict, GuardOutcome}
use nordfir.Guards.SshSession.{ssh_session_guard, judge_sessions}
use nordfir.Guards.ActiveService
use nordfir.Guards.ActiveService.{active_service_guard}
use nordfir.Guards.RestActivity
use nordfir.Guards.RestActivity.{rest_activity_guard}
use nordfir.Guards.Freshness.{freshness_guard}

abbrev Services : Type 0
Services = List (ServiceId × Observation ServiceActivity)

-- There is an observation, and it says that the service is idle, or that it is active.
abbrev pub IsIdle : Option (Observation ServiceActivity) → Type 0
IsIdle none = ⊥
IsIdle (some o) = o.value ≡ known ServiceActivity.idle

abbrev pub IsActive : Option (Observation ServiceActivity) → Type 0
IsActive none = ⊥
IsActive (some o) = (reason : Text) × (o.value ≡ known (ServiceActivity.active reason))

abbrev pub AllIdle : Services → List ServiceId → Type 0
AllIdle services = All λ id. IsIdle (get id services)

-- The first service that is not known to be idle is known to be active.
abbrev pub IsFirstBusyActive : Services → List ServiceId → Type 0
IsFirstBusyActive services [] = ⊥
IsFirstBusyActive services (id ∷ ids) =
    IsActive (get id services) ⊎ (IsIdle (get id services) × IsFirstBusyActive services ids)

abbrev Answers {ℓ} : Option GuardVerdict → Type ℓ → (GuardVerdict → Type ℓ) → Type ℓ
Answers none passes stopped = passes
Answers (some v) passes stopped = stopped v

-- What a guard's loop does at one service.
active_value :
    (id : ServiceId) (v : ObservationValue ServiceActivity)
    → Answers
        (ActiveService.judge_value id v)
        (v ≡ known ServiceActivity.idle)
        λ w. (w.outcome ≡ GuardOutcome.block) × (v ≢ known ServiceActivity.idle)
unfolding ActiveService.judge_value
active_value id (known ServiceActivity.idle) = refl
active_value id (known (ServiceActivity.active _)) = (refl, λ h. cc)
active_value id (known (ServiceActivity.unknown _)) = (refl, λ h. cc)
active_value id (ObservationValue.unknown _) = (refl, λ h. cc)
active_value id (ObservationValue.unavailable _) = (refl, λ h. cc)

active_service :
    (id : ServiceId) (o : Option (Observation ServiceActivity))
    → Answers
        (ActiveService.judge_service id o)
        (IsIdle o)
        λ w. (w.outcome ≡ GuardOutcome.block) × ¬ IsIdle o
unfolding ActiveService.judge_service
active_service id none = (refl, λ h. h)
active_service id (some o) = active_value id o.value

rest_value :
    (id : ServiceId) (v : ObservationValue ServiceActivity)
    → Answers (RestActivity.judge_value id v) (v ≡ known ServiceActivity.idle) λ w.
      (v ≢ known ServiceActivity.idle)
      × ((w.outcome ≡ GuardOutcome.defer)
            × ((reason : Text) × (v ≡ known (ServiceActivity.active reason)))
          ⊎ (w.outcome ≡ GuardOutcome.block)
            × ¬ ((reason : Text) × (v ≡ known (ServiceActivity.active reason))))
unfolding RestActivity.judge_value
rest_value id (known ServiceActivity.idle) = refl
rest_value id (known (ServiceActivity.active r)) = (λ h. cc, inl (refl, (r, refl)))
rest_value id (known (ServiceActivity.unknown _)) = (λ h. cc, inr (refl, λ (r, h). cc))
rest_value id (ObservationValue.unknown _) = (λ h. cc, inr (refl, λ (r, h). cc))
rest_value id (ObservationValue.unavailable _) = (λ h. cc, inr (refl, λ (r, h). cc))

rest_service :
    (id : ServiceId) (o : Option (Observation ServiceActivity))
    → Answers (RestActivity.judge_service id o) (IsIdle o) λ w.
      (¬ IsIdle o)
      × ((w.outcome ≡ GuardOutcome.defer) × IsActive o
          ⊎ (w.outcome ≡ GuardOutcome.block) × ¬ IsActive o)
unfolding RestActivity.judge_service
rest_service id none = (λ h. h, inr (refl, λ h. h))
rest_service id (some o) = rest_value id o.value

IsIdle-not-IsActive : (o : Option (Observation ServiceActivity)) → IsIdle o → ¬ IsActive o
IsIdle-not-IsActive none h _ = h
IsIdle-not-IsActive (some o) h (r, e) = cc

rest_defer_step :
    (w : GuardVerdict) (o : Option (Observation ServiceActivity)) {Later : Type 0}
    → ¬ IsIdle o
    → ((w.outcome ≡ GuardOutcome.defer) × IsActive o
        ⊎ (w.outcome ≡ GuardOutcome.block) × ¬ IsActive o)
    → (w.outcome ≡ GuardOutcome.defer) ↔ (IsActive o ⊎ IsIdle o × Later)
rest_defer_step w o busy (inl (d, act)) = (λ _. inl act, λ _. d)
rest_defer_step w o busy (inr (b, quiet)) =
    (λ h. cc, elim [ inl act ↦ absurd (quiet act) | inr (i, _) ↦ absurd (busy i) ])

module _ (services : Services) where
  active_allow_iff :
      (ids : List ServiceId)
      → ((ActiveService.judge_services ids services).outcome ≡ GuardOutcome.allow)
        ↔ AllIdle services ids
  unfolding ActiveService.judge_services
  active_allow_iff [] = (λ _. tt, λ _. refl)
  active_allow_iff (id ∷ ids) =
      let a = active_service id (get id services) in
      elim (Option-cases (ActiveService.judge_service id (get id services))) [
        | inl e ↦
            let idle = rw e at a in
            rw (e, ActiveService.judge_services)
              (λ h. (idle, (active_allow_iff ids).0 h), λ (_, hs). (active_allow_iff ids).1 hs)
        | inr (w, e) ↦
            let (blocks, busy) = rw e at a in
            rw (e, ActiveService.judge_services) (λ h. cc, λ (h, _). absurd (busy h))
      ]

  active-ne-defer :
      (ids : List ServiceId)
      → (ActiveService.judge_services ids services).outcome ≢ GuardOutcome.defer
  unfolding ActiveService.judge_services
  active-ne-defer [] = λ h. cc
  active-ne-defer (id ∷ ids) =
      let a = active_service id (get id services) in
      elim (Option-cases (ActiveService.judge_service id (get id services))) [
        | inl e ↦ rw (e, ActiveService.judge_services) (active-ne-defer ids)
        | inr (w, e) ↦ let (blocks, _) = rw e at a in rw (e, ActiveService.judge_services) (λ h. cc)
      ]

  rest_allow_iff :
      (ids : List ServiceId)
      → ((RestActivity.judge_services ids services).outcome ≡ GuardOutcome.allow)
        ↔ AllIdle services ids
  unfolding RestActivity.judge_services
  rest_allow_iff [] = (λ _. tt, λ _. refl)
  rest_allow_iff (id ∷ ids) =
      let a = rest_service id (get id services) in
      elim (Option-cases (RestActivity.judge_service id (get id services))) [
        | inl e ↦
            let idle = rw e at a in
            rw (e, RestActivity.judge_services)
              (λ h. (idle, (rest_allow_iff ids).0 h), λ (_, hs). (rest_allow_iff ids).1 hs)
        | inr (w, e) ↦
            let (busy, why) = rw e at a in
            rw (e, RestActivity.judge_services) (λ h. ground arith, λ (h, _). absurd (busy h))
      ]

  rest_defer_iff :
      (ids : List ServiceId)
      → ((RestActivity.judge_services ids services).outcome ≡ GuardOutcome.defer)
        ↔ IsFirstBusyActive services ids
  unfolding RestActivity.judge_services
  rest_defer_iff [] = (λ h. cc, λ h. absurd h)
  rest_defer_iff (id ∷ ids) =
      let a = rest_service id (get id services) in
      elim (Option-cases (RestActivity.judge_service id (get id services))) [
        | inl e ↦
            let idle = rw e at a in
            rw (e, RestActivity.judge_services)
              (
                λ h. inr (idle, (rest_defer_iff ids).0 h),
                elim [
                  | inl act ↦ absurd (IsIdle-not-IsActive (get id services) idle act)
                  | inr (_, first) ↦ (rest_defer_iff ids).1 first
                ],
              )
        | inr (w, e) ↦
            let (busy, why) = rw e at a in
            rw (e, RestActivity.judge_services) (rest_defer_step w (get id services) busy why)
      ]

sessions_iff :
    (v : ObservationValue ℕ) → ((judge_sessions v).outcome ≡ GuardOutcome.allow) ↔ (v ≡ known 0)
unfolding judge_sessions
sessions_iff (known zero) = (λ _. refl, λ _. refl)
sessions_iff (known (suc n)) = (λ h. cc, λ h. ground arith)
sessions_iff (ObservationValue.unknown _) = (λ h. cc, λ h. cc)
sessions_iff (ObservationValue.unavailable _) = (λ h. cc, λ h. cc)

module _ {F : Type 0} (now : SystemTime) (s : NodeSnapshot F) (risk : ActionRisk)
    (reason : Text) where
  abbrev action : ActionKind → Action
  action kind = record { kind = kind; risk = risk; reason = reason }

  -- Entering REST passes the guard exactly when every protected service is known to be idle. It is
  -- deferred exactly when the first service that is not known to be idle is known to be active;
  -- otherwise it is blocked.
  pub rest_activity_outcome :
      (n : NodeId)
      → let v =
          rest_activity_guard.evaluate now s
            (action (ActionKind.set_power_mode n PowerMode.rest)) in
        ((v.outcome ≡ GuardOutcome.allow) ↔ AllIdle s.services s.protected_services)
        × ((v.outcome ≡ GuardOutcome.defer) ↔ IsFirstBusyActive s.services s.protected_services)
  unfolding rest_activity_guard
  rest_activity_outcome n = (
    rest_allow_iff s.services s.protected_services,
    rest_defer_iff s.services s.protected_services,
  )

  -- A shutdown passes the guard exactly when every protected service is known to be idle, and is
  -- never merely deferred.
  pub active_service_outcome :
      (n : NodeId)
      → let v = active_service_guard.evaluate now s (action (ActionKind.shutdown_node n)) in
        ((v.outcome ≡ GuardOutcome.allow) ↔ AllIdle s.services s.protected_services)
        × (v.outcome ≢ GuardOutcome.defer)
  unfolding active_service_guard
  active_service_outcome n = (
    active_allow_iff s.services s.protected_services,
    active-ne-defer s.services s.protected_services,
  )

  -- A shutdown passes the guard exactly when there is known to be no SSH session.
  pub ssh_session_outcome :
      (n : NodeId)
      → ((ssh_session_guard.evaluate now s (action (ActionKind.shutdown_node n))).outcome
          ≡ GuardOutcome.allow)
        ↔ (s.active_ssh_sessions.value ≡ known 0)
  unfolding ssh_session_guard
  ssh_session_outcome n = sessions_iff s.active_ssh_sessions.value

module _ {F : Type 0} (max_age : Duration) (now : SystemTime) (s : NodeSnapshot F) where
  -- A risky action passes exactly when the three safety-critical observations are fresh.
  pub freshness_outcome :
      (a : Action)
      → a.risk ≢ ActionRisk.recoverable
      → (((freshness_guard max_age).evaluate now s a).outcome ≡ GuardOutcome.allow) ↔ (
          (is_fresh s.power_mode now max_age ≡ true)
          × (is_fresh s.reachable now max_age ≡ true)
          × (is_fresh s.active_ssh_sessions now max_age ≡ true))
  unfolding freshness_guard
  freshness_outcome a risky = ground arith
