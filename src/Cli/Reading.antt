-- ===== src/Cli/Reading.antt =====
-- main.rs: the commands that only read and print.
use nordfir.Base.{
  ◌*◌, true, false, ◌⊎◌, inl, inr, Option, none, some, List, [], ◌∷◌, ◌++◌, Text, str, Result, ok,
  err, ◌>>=◌, context, map_ok,
}
use nordfir.Base.Io.{Io}
use nordfir.Base.Time.{SystemTime, from_secs}
use nordfir.Float.{F32}
use nordfir.Format.{FilePath, decimal}
use nordfir.Core.{NodeId, NodeSnapshot}
use nordfir.Energy.Generic.{LinearPowerModel, generic_estimate_provider}
use nordfir.Energy.Measurement.{PowerReading}
use nordfir.Energy.Provider.{PowerReadError, read_best}
use nordfir.Energy.Capabilities.{PowerCapabilities, rest_default}
use nordfir.Energy.RestPlan.{RestChangePlan, RestPlanStatus, default_planner, plan}
use nordfir.State.OriginalPower.{OriginalPowerState}
use nordfir.State.Store.{load, load_fresh_for_write}
use nordfir.State.PowerProbe.{probe}
use nordfir.State.Collector.{collect}
use nordfir.Preflight.{
  DeploymentPreflightReport, empty_report, add_check, is_ready, verify_expected_host,
  evaluate_rest_plan,
}
use nordfir.Deployment.{LinuxProcessSecurity, parse, checks, is_confined}
use nordfir.Audit.LogChecks.{AuditLogStatus, inspect_log, inspect_unix_socket}
use nordfir.Host.{Host, print_lines}
use nordfir.Cli.{
  local_node, sysfs_root, audit_log, configured_forward, configured_receipt,
  required_state_directory, required_expected_host, read_local_hostname,
}
use nordfir.Cli.Printing.{
  original_state_lines, rest_plan_lines, capabilities_lines, preflight_lines, security_lines,
}
use nordfir.Cli.Writing.{Run, returns}

abbrev unchanged : List Text
unchanged = str "No system settings were changed." ∷ []

-- What a command prints and how it ends.
abbrev pub Report : Type 0
Report = List Text × Result (Unit {0})

abbrev pub failing : Text → Report
failing e = ([], err e)

-- The lines are printed, and then the command ends.
abbrev pub printed : {S : Type 0} → Host S → Report → Io S (Unit {0})
printed host (lines, r) s = (r, print_lines host lines s)

abbrev pub report_of : Result (List Text) → Report
report_of (ok lines) = (lines, ok tt)
report_of (err e) = ([], err e)

unfoldable pub log_status_line : AuditLogStatus → Text
log_status_line AuditLogStatus.ready_to_create = str "Audit log: Ready to create on first write"
log_status_line AuditLogStatus.ready = str "Audit log: Ready"

unfoldable pub log_status_detail : AuditLogStatus → Text
log_status_detail AuditLogStatus.ready_to_create = str "ready to create"
log_status_detail AuditLogStatus.ready = str "ready to append"

module _ {F : Type 0} where
  unfoldable pub plan_outcome : RestChangePlan F → Result (Unit {0})
  plan_outcome p = elim p.status [
    | RestPlanStatus.blocked ↦ err (str "REST plan is blocked")
    | RestPlanStatus.no_changes ↦ ok tt
    | RestPlanStatus.ready ↦ ok tt
  ]

  -- The lines for the active snapshot.
  unfoldable pub active_lines : Option (OriginalPowerState F) → List Text
  active_lines (some state) =
      str "Recovery phase: Armed"
      ∷ (str "Active recovery snapshot: Ready (captured at Unix time "
          ++ decimal state.captured_at_unix_seconds
          ++ str ")")
      ∷ []
  active_lines none = str "Recovery phase: Idle" ∷ str "Active recovery snapshot: Absent" ∷ []

module _ {S : Type 0} (host : Host S) where
  -- The result that preflight records for one of the two sockets.
  unfoldable pub socket_check : Text → Result (Option FilePath) → S → Result Text
  socket_check purpose (err e) s = err e
  socket_check purpose (ok none) s = ok (str "disabled; local audit remains enabled")
  socket_check purpose (ok (some path)) s =
      map_ok (λ _. str "ready (" ++ path ++ str ")") (inspect_unix_socket host.files path purpose s)

  unfoldable pub security_report : Result LinuxProcessSecurity → Report
  security_report (err e) = failing e
  security_report (ok security) = (
    security_lines (checks security) (is_confined security),
    elim (is_confined security) [
      | true ↦ ok tt
      | false ↦ err (str "process does not satisfy the least-privilege deployment profile")
    ],
  )

  -- `LinuxProcessSecurity::read_current`
  unfoldable pub read_current : S → Result LinuxProcessSecurity
  read_current s = do
    status ←
        context (str "read process security status: ")
          (host.files.read_to_string (str "/proc/self/status") s)
    parse status

  unfoldable pub deployment_security_local : S → Report
  deployment_security_local s = security_report (read_current s)

module _ {S : Type 0} (F : Type 0) ⦃f : F32 F⦄ (host : Host S) where
  unfoldable pub power_capabilities_local : S → Report
  power_capabilities_local s = (capabilities_lines (probe {F = F} host.files sysfs_root s), ok tt)

  -- `none` is the planner's panic.
  unfoldable pub plan_rest_local : S → Option Report
  plan_rest_local s =
      elim (plan {F = F} default_planner (probe host.files sysfs_root s) rest_default) [
        | none ↦ none
        | some p ↦ some (rest_plan_lines p false, plan_outcome p)
      ]

  unfoldable pub show_original_state_local : S → Report
  show_original_state_local s = report_of (do
    directory ← required_state_directory host (str "show-original-state-local")
    state ← load {F = F} host.files directory local_node s
    ok (original_state_lines state ++ str "No system power settings were changed." ∷ []))

  unfoldable pub snapshot_check : FilePath → SystemTime → S → Result Text
  snapshot_check directory now s =
      map_ok
        (λ (state : OriginalPowerState F).
          str "secure and fresh (captured at Unix time "
          ++ decimal state.captured_at_unix_seconds
          ++ str ")")
        (load_fresh_for_write host.files directory local_node now (from_secs (15 * 60)) s)

  -- The report of preflight-rest-local. The clock is read behind the check of the host.
  unfoldable pub preflight_report :
      FilePath → Text → RestChangePlan F → S → DeploymentPreflightReport
  preflight_report directory expected p s =
      let later = (host.now s).1 in
      let identity =
        add_check empty_report (str "Host identity")
          (read_local_hostname host s >>= λ observed. verify_expected_host expected observed) in
      let recovery =
        add_check identity (str "Recovery snapshot")
          (snapshot_check directory (host.now s).0 later) in
      let planned = add_check recovery (str "REST plan") (
        evaluate_rest_plan p
          (PowerCapabilities.control_writable (probe {F = F} host.files sysfs_root later))) in
      let local =
        add_check planned (str "Local audit")
          (map_ok log_status_detail (inspect_log host.files (audit_log directory) later)) in
      let forwarding =
        add_check local (str "Audit forwarding")
          (socket_check host (str "audit forwarding") (configured_forward host) later) in
      add_check forwarding (str "Audit receipts")
        (socket_check host (str "audit receipt") (configured_receipt host) later)

  unfoldable pub preflight_outcome : DeploymentPreflightReport → RestChangePlan F → Report
  preflight_outcome report p = (
    preflight_lines report ++ rest_plan_lines p false,
    elim (is_ready report) [
      | true ↦ ok tt
      | false ↦ err (str "REST deployment preflight is blocked")
    ],
  )

  unfoldable pub preflight_arguments : Result (FilePath × Text)
  preflight_arguments = do
    directory ← required_state_directory host (str "preflight-rest-local")
    expected ← required_expected_host host (str "preflight-rest-local")
    ok (directory, expected)

  -- `none` is the planner's panic.
  unfoldable pub preflight_rest_local : Run S (Unit {0})
  preflight_rest_local s = elim preflight_arguments [
    | err e ↦ (some (err e), s)
    | ok (directory, expected) ↦
        elim (plan {F = F} default_planner (probe host.files sysfs_root (host.now s).1)
          rest_default) [
            | none ↦ (none, (host.now s).1)
            | some p ↦
                returns
                  (printed host (preflight_outcome (preflight_report directory expected p s) p))
                  (host.now s).1
          ]
  ]

  -- The model of `collect_local_snapshot`.
  unfoldable pub local_power_model : LinearPowerModel F
  local_power_model = record {
    baseline_watts = f.of_ℕ 35;
    cpu_watts_per_unit = f.of_ℕ 65;
    memory_watts_per_unit = f.of_ℕ 12;
    disk_watts_per_unit = f.of_ℕ 0;
    network_watts_per_unit = f.of_ℕ 0;
    typical_error_watts = some (f.of_ℕ 20);
  }

  unfoldable pub with_power : PowerReading F ⊎ List PowerReadError → NodeSnapshot F → NodeSnapshot F
  with_power (inl reading) snapshot = record snapshot { power = some reading }
  with_power (inr errors) snapshot = snapshot

  -- The clock is read for the reading.
  unfoldable pub collect_local_snapshot : NodeId → Io S (NodeSnapshot F)
  collect_local_snapshot node s =
      let (snapshot, s') = collect host node s in
      let (now, s'') = host.now s' in
      (
        ok (
            with_power (read_best now snapshot (generic_estimate_provider local_power_model ∷ []))
              snapshot),
        s'',
      )
