-- ===== src/Guards/RestActivity.antt =====
-- archive/rust/src/guards/rest_activity.rs
use nordfir.Base.{Option, none, some, List, [], ◌∷◌, ◌++◌, Text, str}
use nordfir.Core.{
  ServiceId, PowerMode, ServiceActivity, Observation, ObservationValue, known, NodeSnapshot, get,
}
use nordfir.Action.{ActionKind, set_power_mode}
use nordfir.Guards.{Guard, GuardVerdict, GuardOutcome, GuardSeverity, verdict}

abbrev pub rest_activity_name : Text
rest_activity_name = str "rest-activity"

abbrev answer : GuardOutcome → Text → GuardVerdict
answer = verdict GuardSeverity.hard rest_activity_name

-- The loop's answer for one service; `none` goes on to the next.
unfoldable pub judge_value : ServiceId → ObservationValue ServiceActivity → Option GuardVerdict
judge_value id (known ServiceActivity.idle) = none
judge_value id (known (ServiceActivity.active reason)) =
    some
      (answer GuardOutcome.defer (str "Protected service " ++ id ++ str " is active: " ++ reason))
judge_value id (known (ServiceActivity.unknown reason)) = some (
    answer GuardOutcome.block
      (str "Protected service " ++ id ++ str " activity is unknown: " ++ reason))
judge_value id (ObservationValue.unknown reason) = some (
    answer GuardOutcome.block
      (str "Protected service " ++ id ++ str " activity is unknown: " ++ reason))
judge_value id (ObservationValue.unavailable reason) = some (
    answer GuardOutcome.block
      (str "Protected service " ++ id ++ str " activity is unknown: " ++ reason))

unfoldable pub judge_service :
    ServiceId → Option (Observation ServiceActivity) → Option GuardVerdict
judge_service id none = some (
    answer GuardOutcome.block
      (str "Protected service " ++ id ++ str " has no activity observation"))
judge_service id (some o) = judge_value id o.value

unfoldable pub judge_services :
    List ServiceId → List (ServiceId × Observation ServiceActivity) → GuardVerdict
judge_services [] services =
    answer GuardOutcome.allow
      (str "All protected services are idle or no protected services are configured")
judge_services (id ∷ ids) services =
    let rest = judge_services ids services in
    elim (judge_service id (get id services)) [ none ↦ rest | some v ↦ v ]

module _ {F : Type 0} where
  judge : ActionKind → NodeSnapshot F → GuardVerdict
  judge (set_power_mode _ PowerMode.rest) s = judge_services s.protected_services s.services
  judge _ s = answer GuardOutcome.allow (str "Action does not enter REST mode")

  unfoldable pub rest_activity_guard : Guard F
  unfolding judge
  rest_activity_guard = record { name = rest_activity_name; evaluate = λ now s a. judge a.kind s }
