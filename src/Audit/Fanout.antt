-- ===== src/Audit/Fanout.antt =====
-- audit/mod.rs, the fanout: every sink is called, and every failure is reported.
use nordfir.Base.{ℕ, ◌+◌, ◌≡◌, refl, ◌↔◌, inl, inr, List, [], ◌∷◌, Text, Result, ok, Result-cases}
use nordfir.Audit.{AuditEvent, AuditSink, sink_failure, record_all, fanout_result, record_fanout}

module _ {S : Type 0} (event : AuditEvent) where
  -- The state after a call of each sink in turn.
  abbrev pub visit : List (AuditSink S) → S → S
  visit [] s = s
  visit (sink ∷ sinks) s = visit sinks (sink event s).1

  -- Each of these calls succeeds.
  abbrev pub AllAccept : List (AuditSink S) → S → Type 0
  AllAccept [] s = Unit
  AllAccept (sink ∷ sinks) s = ((sink event s).0 ≡ ok tt) × AllAccept sinks (sink event s).1

  record_all-visit :
      (sinks : List (AuditSink S)) (index : ℕ) (s : S)
      → (record_all event sinks index s).1 ≡ visit sinks s
  unfolding record_all
  record_all-visit [] index s = refl
  record_all-visit (sink ∷ sinks) index s = record_all-visit sinks (index + 1) (sink event s).1

  record_all-eq-nil :
      (sinks : List (AuditSink S)) (index : ℕ) (s : S)
      → ((record_all event sinks index s).0 ≡ []) ↔ AllAccept sinks s
  unfolding record_all sink_failure
  record_all-eq-nil [] index s = (λ _. tt, λ _. refl)
  record_all-eq-nil (sink ∷ sinks) index s =
      let rest = record_all-eq-nil sinks (index + 1) (sink event s).1 in
      elim (Result-cases (sink event s).0) [
        | inl (u, good) ↦ rw (good, sink_failure) (λ h. (good_unit u, rest.0 h), λ (_, h). rest.1 h)
        | inr (e, bad) ↦ rw (bad, sink_failure) (λ h. cc, λ (h, _). cc)
      ]
    where
      good_unit : (u : Unit {0}) → ◌≡◌ {A = Result (Unit {0})} (ok u) (ok tt)
      good_unit u = refl

fanout_result_iff : (failures : List Text) → (fanout_result failures ≡ ok tt) ↔ (failures ≡ [])
unfolding fanout_result
fanout_result_iff [] = (λ _. refl, λ _. refl)
fanout_result_iff (f ∷ fs) = (λ h. cc, λ h. cc)

-- The fanout calls every sink, in order and also after a failure, and answers with success exactly
-- when each of these calls succeeded.
pub record_fanout_outcome :
    {S : Type 0} (sinks : List (AuditSink S)) (event : AuditEvent) (s : S)
    → ((record_fanout sinks event s).1 ≡ visit event sinks s)
      × (((record_fanout sinks event s).0 ≡ ok tt) ↔ AllAccept event sinks s)
unfolding record_fanout
record_fanout_outcome sinks event s =
    let failures = fanout_result_iff (record_all event sinks 0 s).0 in
    let accepted = record_all-eq-nil event sinks 0 s in
    (
      record_all-visit event sinks 0 s,
      (λ h. accepted.0 (failures.0 h), λ h. failures.1 (accepted.1 h)),
    )
