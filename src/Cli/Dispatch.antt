-- ===== src/Cli/Dispatch.antt =====
-- main.rs: the commands that collect a snapshot, and `run`, which chooses among all commands.
pub mod Leaves
pub mod Observed
pub mod ReadOnly
use nordfir.Base.{
  ℕ, Bool, true, false, Option, none, some, List, [], ◌∷◌, ◌++◌, map, Text, str, text_eq, Result,
  ok, err, context, if◌then◌else◌,
}
use nordfir.Base.Io.{Io, lift, pure}
use nordfir.Base.Time.{as_secs}
use nordfir.Float.{F32}
use nordfir.Format.{decimal}
use nordfir.Core.{NodeSnapshot, Intent, IntentTarget, AvailabilityIntent}
use nordfir.Action.{Action, ActionKind}
use nordfir.Authority.{AuthorizationDecision}
use nordfir.Guards.{GuardOutcome, GuardVerdict}
use nordfir.Engine.{Evaluation, evaluate}
use nordfir.Engine.Safety.{local_engine}
use nordfir.Drivers.DryRun.{new_dry_run, execute}
use nordfir.Service.{
  ObserverConfig, ObserverRuntime, ObserverRunSummary, from_arguments, encode_line,
}
use nordfir.Service
use nordfir.Host.{Host, argument, print_lines}
use nordfir.Cli.{local_node}
use nordfir.Cli.Writing.{
  Run, returns, say, save_original_state_local, apply_rest_local, restore_active_local,
}
use nordfir.Cli.Reading.{
  Report, printed, power_capabilities_local, plan_rest_local, show_original_state_local,
  deployment_security_local, preflight_rest_local, collect_local_snapshot,
}
use nordfir.Cli.Status.{lifecycle_status_local}

-- The texts that the source prints by derived formatting.
pub record Formats (F : Type 0) : Type 0 where
  pub snapshot_lines : NodeSnapshot F → List Text
  pub show_action : ActionKind → Text

abbrev outcome_name : GuardOutcome → Text
outcome_name GuardOutcome.allow = str "Allow"
outcome_name GuardOutcome.defer = str "Defer"
outcome_name GuardOutcome.block = str "Block"

unfoldable pub verdict_line : GuardVerdict → Text
verdict_line v =
    str "Guard " ++ v.guard ++ str ": " ++ outcome_name v.outcome ++ str " - " ++ v.reason

abbrev pub economize_intent : Intent
economize_intent = record {
  target = IntentTarget.node local_node;
  availability = AvailabilityIntent.economize;
  reason = str "Local dry-run energy optimization";
}

-- The result of `driver.execute(action)?` and the lines behind it.
unfoldable pub executed : (ActionKind → Text) → Action → Report
executed show action = elim (execute new_dry_run action).0 [
  | err e ↦ ([], err e)
  | ok _ ↦ (
    (str "Dry-run action: " ++ show action.kind) ∷ str "No system settings were changed." ∷ [],
    ok tt,
  )
]

-- The match on the candidate and the authorization.
unfoldable pub conclude :
    (ActionKind → Text) → Option Action → Option AuthorizationDecision → Report
conclude show (some action) (some AuthorizationDecision.allow) = executed show action
conclude show none (some AuthorizationDecision.allow) =
    ([], err (str "no executable action was produced"))
conclude show candidate (some (AuthorizationDecision.deny reason)) =
    ([], err (str "authorization denied: " ++ reason))
conclude show candidate (some (AuthorizationDecision.challenge factors)) =
    ([], err (str "step-up authentication is required"))
conclude show candidate none = ([], err (str "no executable action was produced"))

unfoldable pub economize_report : (ActionKind → Text) → Evaluation → Report
economize_report show evaluation =
    let (lines, r) = conclude show evaluation.candidate evaluation.authorization in
    ((str "Intent: Economize" ∷ map verdict_line evaluation.guards) ++ lines, r)

abbrev pub is_command : Text → Text → Bool
is_command name command = text_eq command name

abbrev pub drop_two : List Text → List Text
drop_two (a ∷ b ∷ rest) = rest
drop_two _ = []

abbrev pub command_of : Option Text → Text
command_of none = str "inspect-local"
command_of (some command) = command

module _ {S : Type 0} (F : Type 0) ⦃f : F32 F⦄ (host : Host S) where
  -- `ThreadObserverRuntime`
  abbrev pub thread_runtime : ObserverRuntime S
  thread_runtime = record { stop_requested = λ s. (false, s); wait = host.sleep }

  unfoldable pub publish_heartbeat : Service.ObserverHeartbeat F → Io S (Unit {0})
  publish_heartbeat heartbeat = say host (encode_line heartbeat ∷ [])

  unfoldable pub observe_summary :
      S → Option (Result ObserverRunSummary × S) → Option (Result (Unit {0})) × S
  observe_summary s none = (none, s)
  observe_summary s (some (err e, s')) = (some (err e), s')
  observe_summary s (some (ok done, s')) =
      returns
        (say host (
          (str "Observer service: Stopped after "
            ++ decimal done.completed_cycles
            ++ str " cycle(s)")
          ∷ str "No system settings were changed."
          ∷ []))
        s'

  unfoldable pub observe_started : ObserverConfig → ℕ → Run S (Unit {0})
  observe_started config fuel s = observe_summary s (
      Service.run config thread_runtime (collect_local_snapshot F host local_node) publish_heartbeat
        fuel
        (print_lines host
          ((str "Observer service: Starting (interval "
              ++ decimal (as_secs config.interval)
              ++ str " seconds)")
            ∷ str "Observer mode: Read only"
            ∷ [])
          s))

  -- `none`: the service still runs when the fuel is used up.
  unfoldable pub observe_service_local : ℕ → Run S (Unit {0})
  observe_service_local fuel s =
      elim (context (str "observe-service-local ") (from_arguments (drop_two host.arguments))) [
        | err e ↦ (some (err e), s)
        | ok config ↦ observe_started config fuel s
      ]

  unfoldable pub unknown_command : Text → Text
  unknown_command other =
      str "unknown command: "
      ++ other
      ++ str
          ". Use inspect-local, power-capabilities-local, plan-rest-local, save-original-state-local, show-original-state-local, lifecycle-status-local, preflight-rest-local, deployment-security-local, observe-service-local, apply-rest-local, restore-active-local or economize-local"

  -- The match behind the collection of the snapshot. No guard of this engine reads the clock.
  unfoldable pub with_snapshot : Formats F → Text → NodeSnapshot F → Io S (Unit {0})
  with_snapshot formats command snapshot s =
      if is_command (str "inspect-local") command
      then printed host (formats.snapshot_lines snapshot, ok tt) s
      else if is_command (str "economize-local") command
      then printed host
          (economize_report formats.show_action
            (evaluate local_engine (str "local-user") (host.now s).0 economize_intent snapshot))
          s
      else (err (unknown_command command), s)

  unfoldable pub collected : Formats F → Text → Io S (Unit {0})
  collected formats command s =
      let (r, s') = collect_local_snapshot F host local_node s in
      elim r [ err e ↦ (err e, s') | ok snapshot ↦ with_snapshot formats command snapshot s' ]

  unfoldable pub print_plan : Option Report → Run S (Unit {0})
  print_plan none s = (none, s)
  print_plan (some report) s = returns (printed host report) s

  -- The commands that write to files.
  unfoldable pub run_writing : Text → Run S (Unit {0}) → Run S (Unit {0})
  run_writing command otherwise =
      if is_command (str "save-original-state-local") command
      then returns (save_original_state_local F host)
      else if is_command (str "apply-rest-local") command
      then apply_rest_local F host
      else if is_command (str "restore-active-local") command
      then restore_active_local F host
      else otherwise

  unfoldable pub run_reading : ℕ → Formats F → Text → Run S (Unit {0})
  run_reading fuel formats command s =
      if is_command (str "power-capabilities-local") command
      then returns (printed host (power_capabilities_local F host s)) s
      else if is_command (str "plan-rest-local") command
      then print_plan (plan_rest_local F host s) s
      else if is_command (str "show-original-state-local") command
      then returns (printed host (show_original_state_local F host s)) s
      else if is_command (str "lifecycle-status-local") command
      then returns (lifecycle_status_local F host) s
      else if is_command (str "preflight-rest-local") command
      then preflight_rest_local F host s
      else if is_command (str "deployment-security-local") command
      then returns (printed host (deployment_security_local host s)) s
      else if is_command (str "observe-service-local") command
      then observe_service_local fuel s
      else returns (collected formats command) s

  -- `run`. The names differ, so that the order of the tests does not matter.
  unfoldable pub run : ℕ → Formats F → Run S (Unit {0})
  run fuel formats =
      let command = command_of (argument host 1) in
      run_writing command (run_reading fuel formats command)
