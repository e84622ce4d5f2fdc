-- ===== src/Guards/ActiveService.antt =====
-- archive/rust/src/guards/active_service.rs
use nordfir.Base.{Option, none, some, List, [], ◌∷◌, ◌++◌, Text, str}
use nordfir.Core.{
  ServiceId, ServiceActivity, Observation, ObservationValue, known, NodeSnapshot, get,
}
use nordfir.Action.{ActionKind, shutdown_node}
use nordfir.Guards.{Guard, GuardVerdict, GuardOutcome, GuardSeverity, verdict}

abbrev pub active_service_name : Text
active_service_name = str "active-service"

abbrev answer : GuardOutcome → Text → GuardVerdict
answer = verdict GuardSeverity.hard active_service_name

-- The loop's answer for one service; `none` goes on to the next.
unfoldable pub judge_value : ServiceId → ObservationValue ServiceActivity → Option GuardVerdict
judge_value id (known (ServiceActivity.active reason)) =
    some
      (answer GuardOutcome.block (str "Protected service " ++ id ++ str " is active: " ++ reason))
judge_value id (known (ServiceActivity.unknown reason)) = some (
    answer GuardOutcome.block
      (str "Protected service " ++ id ++ str " activity is not safely known: " ++ reason))
judge_value id (ObservationValue.unknown reason) = some (
    answer GuardOutcome.block
      (str "Protected service " ++ id ++ str " activity is not safely known: " ++ reason))
judge_value id (ObservationValue.unavailable reason) = some (
    answer GuardOutcome.block
      (str "Protected service " ++ id ++ str " activity is not safely known: " ++ reason))
judge_value id (known ServiceActivity.idle) = none

unfoldable pub judge_service :
    ServiceId → Option (Observation ServiceActivity) → Option GuardVerdict
judge_service id none = some (
    answer GuardOutcome.block
      (str "Protected service " ++ id ++ str " has no activity observation"))
judge_service id (some o) = judge_value id o.value

unfoldable pub judge_services :
    List ServiceId → List (ServiceId × Observation ServiceActivity) → GuardVerdict
judge_services [] services =
    answer GuardOutcome.allow
      (str "All protected services are known idle or no protected services are configured")
judge_services (id ∷ ids) services =
    let rest = judge_services ids services in
    elim (judge_service id (get id services)) [ none ↦ rest | some v ↦ v ]

module _ {F : Type 0} where
  judge : ActionKind → NodeSnapshot F → GuardVerdict
  judge (shutdown_node _) s = judge_services s.protected_services s.services
  judge _ s = answer GuardOutcome.allow (str "Action does not power down the node")

  unfoldable pub active_service_guard : Guard F
  unfolding judge
  active_service_guard = record { name = active_service_name; evaluate = λ now s a. judge a.kind s }
