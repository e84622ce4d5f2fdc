-- ===== src/Cli/Printing.antt =====
-- main.rs: the lines that the commands print.
use nordfir.Base.{
  Bool, true, false, Option, none, some, List, [], ◌∷◌, ◌++◌, map, Text, str, is_empty, length,
  join_texts, if◌then◌else◌,
}
use nordfir.Float.{F32}
use nordfir.Format.{decimal}
use nordfir.State.OriginalPower.{OriginalPowerState}
use nordfir.Energy.Capabilities.{PowerCapabilities}
use nordfir.Energy.RestPlan.{RestChange, RestChangePlan, RestPlanStatus}
use nordfir.Drivers.LinuxRest.{RestApplyReport, ActiveRestoreReport}
use nordfir.Preflight.{DeploymentPreflightReport, ReadinessCheck, ReadinessStatus, is_ready}
use nordfir.Deployment.{SecurityCheck}
use nordfir.Base.{Result, ok, err}

unfoldable pub status_name : RestPlanStatus → Text
status_name RestPlanStatus.blocked = str "Blocked"
status_name RestPlanStatus.no_changes = str "NoChanges"
status_name RestPlanStatus.ready = str "Ready"

abbrev bool_name : Bool → Text
bool_name true = str "true"
bool_name false = str "false"

unfoldable pub availability : Bool → Text
availability available = if available then str "Available" else str "Unavailable"

abbrev or_unavailable : Option Text → Text
or_unavailable none = str "Unavailable"
or_unavailable (some t) = t

abbrev join_or_unavailable : List Text → Text
join_or_unavailable [] = str "Unavailable"
join_or_unavailable (t ∷ ts) = join_texts (str ", ") (t ∷ ts)

module _ {F : Type 0} ⦃f : F32 F⦄ where
  unfoldable pub original_state_lines : OriginalPowerState F → List Text
  original_state_lines state =
      (str "Node: " ++ state.node)
      ∷ (str "State version: " ++ decimal state.version)
      ∷ (str "Captured at Unix time: " ++ decimal state.captured_at_unix_seconds)
      ∷ (str "Original governor: " ++ state.governor)
      ∷ (str "Original configured frequency range: "
          ++ f.display_fixed 0 state.scaling_min_mhz
          ++ str "-"
          ++ f.display_fixed 0 state.scaling_max_mhz
          ++ str " MHz")
      ∷ []

  unfoldable pub change_line : RestChange F → Text
  change_line (RestChange.cpu_governor current target) =
      str "CPU governor: " ++ current ++ str " -> " ++ target
  change_line (RestChange.cpu_max_frequency_mhz current target) =
      str "CPU maximum: "
      ++ f.display_fixed 0 current
      ++ str " -> "
      ++ f.display_fixed 0 target
      ++ str " MHz"

  unfoldable pub rest_plan_lines : RestChangePlan F → Bool → List Text
  rest_plan_lines plan apply =
      (str "Node: local"
        ∷ str "Requested mode: Rest"
        ∷ (str "Plan status: " ++ status_name plan.status)
        ∷ [])
      ++ map change_line plan.changes
      ++ map (λ blocker. str "Blocker: " ++ blocker) plan.blockers
      ++ map (λ warning. str "Warning: " ++ warning) plan.warnings
      ++ ((str "Apply: " ++ bool_name apply)
          ∷ (if apply then [] else str "No system settings were changed." ∷ []))

  unfoldable pub applied_lines : RestApplyReport F → List Text
  applied_lines report =
      (str "Applied changes: " ++ decimal (length report.applied))
      ∷ (if is_empty report.applied
          then str "REST constraints were already satisfied; no settings were changed."
          else str "REST settings were written and verified.")
      ∷ []

  unfoldable pub frequency_range : Option F → Option F → Text
  frequency_range (some minimum) (some maximum) =
      f.display_fixed 0 minimum ++ str "-" ++ f.display_fixed 0 maximum ++ str " MHz"
  frequency_range _ _ = str "Unavailable"

  unfoldable pub capabilities_lines : PowerCapabilities F → List Text
  capabilities_lines c =
      str "Node: local"
      ∷ (str "CPU frequency control: " ++ availability c.cpufreq_available)
      ∷ (str "Current governor: " ++ or_unavailable c.current_governor)
      ∷ (str "Available governors: " ++ join_or_unavailable c.available_governors)
      ∷ (str "Hardware frequency range: " ++ frequency_range c.hardware_min_mhz c.hardware_max_mhz)
      ∷ (str "Configured frequency range: " ++ frequency_range c.scaling_min_mhz c.scaling_max_mhz)
      ∷ (str "RAPL energy counters: " ++ availability c.rapl_available)
      ∷ (str "Governor control file writable: "
          ++ (if c.control_writable
              then str "Yes (process authorization not verified)"
              else str "No"))
      ∷ str "No system settings were changed."
      ∷ []

unfoldable pub restored_lines : ActiveRestoreReport → List Text
restored_lines report =
    (str "Restored settings: " ++ decimal (length report.restored))
    ∷ (if is_empty report.restored
        then str "Original ACTIVE settings were already present; nothing was changed."
        else str "Original ACTIVE settings were restored and verified.")
    ∷ []

abbrev readiness_name : ReadinessStatus → Text
readiness_name ReadinessStatus.ready = str "Ready"
readiness_name ReadinessStatus.blocked = str "Blocked"

abbrev pub ready_or_blocked : Bool → Text
ready_or_blocked ready = if ready then str "Ready" else str "Blocked"

unfoldable pub readiness_line : ReadinessCheck → Text
readiness_line check =
    str "Preflight "
    ++ check.name
    ++ str ": "
    ++ readiness_name check.status
    ++ str " - "
    ++ check.detail

unfoldable pub preflight_lines : DeploymentPreflightReport → List Text
preflight_lines report =
    map readiness_line report.checks
    ++ (str "Preflight status: " ++ ready_or_blocked (is_ready report)) ∷ []

abbrev result_line : Text → Result Text → Text
result_line name (ok detail) = str "Deployment " ++ name ++ str ": Ready - " ++ detail
result_line name (err detail) = str "Deployment " ++ name ++ str ": Blocked - " ++ detail

unfoldable pub security_lines : List SecurityCheck → Bool → List Text
security_lines checks confined =
    map (λ (check : SecurityCheck). result_line check.name check.result) checks
    ++ (str "Deployment security: " ++ ready_or_blocked confined)
      ∷ str "No system settings were changed."
      ∷ []
