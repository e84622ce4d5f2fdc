-- ===== src/Cli/Dispatch/Leaves.antt =====
-- main.rs: the reading commands leave what files hold.
use nordfir.Base.{
  ◌≡◌, refl, ◌∙◌, inl, inr, Option, none, some, List, [], ◌∷◌, ◌++◌, Text, str, Result, ok, err,
  Bool-cases, Result-cases, Option-cases,
}
use nordfir.Base.Io.{Io, lift, ◌>>=◌}
use nordfir.Float.{F32}
use nordfir.Format.{FilePath, decimal}
use nordfir.Core.{NodeSnapshot}
use nordfir.Energy.Capabilities.{rest_default}
use nordfir.Energy.RestPlan.{default_planner, plan}
use nordfir.State.PowerProbe.{probe}
use nordfir.Audit.LogChecks.{inspect_log, inspect_unix_socket}
use nordfir.State.Store.Lifecycle.{RecoveryLifecycleStatus, inspect_lifecycle}
use nordfir.State.Collector.Bounds.{collect-leaves}
use nordfir.State.Collector.{collect}
use nordfir.Engine.{evaluate}
use nordfir.Engine.Safety.{local_engine}
use nordfir.Audit.Sinks.Sent.{LeavesFiles->>=}
use nordfir.Host.{Host, IsHost, print_lines-leaves}
use nordfir.Cli.{
  audit_log, local_node, sysfs_root, configured_forward, configured_receipt,
  required_state_directory,
}
use nordfir.Cli.Writing.{say, query}
use nordfir.Cli.Reading.{
  Report, preflight_outcome, preflight_report, active_lines, log_status_line, printed,
  preflight_arguments, preflight_rest_local, collect_local_snapshot,
}
use nordfir.Cli.Status.{
  print_socket, print_ready, print_status, print_lifecycle, lifecycle_status_local,
}
use nordfir.Cli.Dispatch.{
  Formats, economize_intent, economize_report, is_command, with_snapshot, collected, print_plan,
}

module _ {S : Type 0} (host : Host S) where
  -- The files hold after it what they held before.
  abbrev pub Leaves : {X : Type 0} → (S → X × S) → Type 0
  Leaves m =
      (p : FilePath) (s : S) → host.files.read_to_string p (m s).1 ≡ host.files.read_to_string p s

module _ {S : Type 0} (host : Host S) (quiet : IsHost host) where
  pub say-Leaves : (lines : List Text) → Leaves host (say host lines)
  say-Leaves lines p s = print_lines-leaves host quiet lines p s

  pub printed-Leaves : (report : Report) → Leaves host (printed host report)
  printed-Leaves (lines, r) p s = print_lines-leaves host quiet lines p s

  query-Leaves : {A : Type 0} (ask : S → Result A) → Leaves host (query ask)
  query-Leaves ask p s = refl

  print_socket-Leaves :
      (title purpose : Text) (configured : Result (Option FilePath))
      → Leaves host (print_socket host title purpose configured)
  unfolding print_socket
  print_socket-Leaves title purpose (err e) p s = refl
  print_socket-Leaves title purpose (ok none) p s = say-Leaves _ p s
  print_socket-Leaves title purpose (ok (some path)) p s =
      let ask = query (inspect_unix_socket host.files path purpose) in
      LeavesFiles->>= host.files ask
        (λ _. say host ((title ++ str ": Ready (" ++ path ++ str ")") ∷ []))
        (query-Leaves (inspect_unix_socket host.files path purpose)) (λ _. say-Leaves _) p s

module _ {S : Type 0} (F : Type 0) ⦃f : F32 F⦄ (host : Host S) (quiet : IsHost host) where
  print_ready-Leaves :
      (directory : FilePath) (status : RecoveryLifecycleStatus F)
      → Leaves host (print_ready F host directory status)
  unfolding print_ready
  print_ready-Leaves directory status =
      let active = str "State directory: Ready" ∷ active_lines status.active_snapshot in
      let archived =
        (str "Archived recovery snapshots: " ++ decimal status.archived_snapshots) ∷ [] in
      let inspected = query (inspect_log host.files (audit_log directory)) in
      let last : Io S (Unit {0}) = inspected >>= λ log. say host (log_status_line log ∷ []) in
      LeavesFiles->>= host.files (say host active) (λ _. say host archived >>= λ _. last)
        (say-Leaves host quiet active)
        λ _.
          LeavesFiles->>= host.files (say host archived) (λ _. last)
            (say-Leaves host quiet archived)
            λ _.
              LeavesFiles->>= host.files inspected (λ log. say host (log_status_line log ∷ []))
                (query-Leaves host quiet (inspect_log host.files (audit_log directory)))
                λ log. say-Leaves host quiet (log_status_line log ∷ [])

  print_status-Leaves :
      (directory : FilePath) (status : RecoveryLifecycleStatus F)
      → Leaves host (print_status F host directory status)
  unfolding print_status
  print_status-Leaves directory status p s = elim (Bool-cases status.state_directory_initialized) [
    | inl e ↦ rw (e, print_status) (print_ready-Leaves directory status p s)
    | inr e ↦ rw (e, print_status) (say-Leaves host quiet _ p s)
  ]

  print_lifecycle-Leaves :
      (directory : FilePath) (status : RecoveryLifecycleStatus F)
      → Leaves host (print_lifecycle F host directory status)
  unfolding print_lifecycle
  print_lifecycle-Leaves directory status =
      let forwarding =
        print_socket host (str "Audit forwarding") (str "audit forwarding")
          (configured_forward host) in
      let receipts =
        print_socket host (str "Audit receipts") (str "audit receipt") (configured_receipt host) in
      let unchanged = str "No system settings were changed." ∷ [] in
      let node = (str "Node: " ++ local_node) ∷ [] in
      let last : Io S (Unit {0}) = receipts >>= λ _. say host unchanged in
      let sockets : Io S (Unit {0}) = forwarding >>= λ _. last in
      LeavesFiles->>= host.files (say host node)
        (λ _. print_status F host directory status >>= λ _. sockets) (say-Leaves host quiet node)
        λ _.
          LeavesFiles->>= host.files (print_status F host directory status) (λ _. sockets)
            (print_status-Leaves directory status)
            λ _.
              LeavesFiles->>= host.files forwarding (λ _. last)
                (print_socket-Leaves host quiet _ _ (configured_forward host))
                λ _.
                  LeavesFiles->>= host.files receipts (λ _. say host unchanged)
                    (print_socket-Leaves host quiet _ _ (configured_receipt host))
                    λ _. say-Leaves host quiet unchanged

  pub lifecycle_status_local-Leaves : Leaves host (lifecycle_status_local F host)
  unfolding lifecycle_status_local
  lifecycle_status_local-Leaves =
      LeavesFiles->>= host.files
        (lift (required_state_directory host (str "lifecycle-status-local"))) _ (λ p s. refl)
        λ directory.
          LeavesFiles->>= host.files (query (inspect_lifecycle F host.files directory local_node))
            (λ status. print_lifecycle F host directory status)
            (query-Leaves host quiet (inspect_lifecycle F host.files directory local_node))
            λ status. print_lifecycle-Leaves directory status

  pub preflight_rest_local-Leaves : Leaves host (preflight_rest_local F host)
  unfolding preflight_rest_local
  preflight_rest_local-Leaves p s = elim (Result-cases (preflight_arguments F host)) [
    | inr (e, bad) ↦ rw (bad, preflight_rest_local) refl
    | inl ((directory, expected), good) ↦
        elim (Option-cases (
          plan {F = F} default_planner (probe host.files sysfs_root (host.now s).1) rest_default)) [
            | inl panic ↦ rw (good, panic, preflight_rest_local) (quiet.now_leaves p s)
            | inr (q, made) ↦
                rw (good, made, preflight_rest_local)
                  (printed-Leaves host quiet
                      (preflight_outcome F host (preflight_report F host directory expected q s) q)
                      p (host.now s).1
                    ∙ quiet.now_leaves p s)
          ]
  ]

  pub print_plan-Leaves : (report : Option Report) → Leaves host (print_plan F host report)
  unfolding print_plan
  print_plan-Leaves none p s = refl
  print_plan-Leaves (some report) p s = printed-Leaves host quiet report p s

  pub collect_local_snapshot-Leaves : Leaves host (collect_local_snapshot F host local_node)
  unfolding collect_local_snapshot
  collect_local_snapshot-Leaves p s =
      quiet.now_leaves p (collect host {F = F} local_node s).1
      ∙ collect-leaves F host quiet local_node p s

  with_snapshot-Leaves :
      (formats : Formats F) (command : Text) (snapshot : NodeSnapshot F)
      → Leaves host (with_snapshot F host formats command snapshot)
  unfolding with_snapshot
  with_snapshot-Leaves formats command snapshot p s =
      elim (Bool-cases (is_command (str "inspect-local") command)) [
        | inl e ↦
            rw (e, with_snapshot)
              (printed-Leaves host quiet (formats.snapshot_lines snapshot, ok tt) p s)
        | inr e ↦ elim (Bool-cases (is_command (str "economize-local") command)) [
          | inl e' ↦
              rw (e, e', with_snapshot)
                (printed-Leaves host quiet
                  (economize_report formats.show_action (
                    evaluate local_engine (str "local-user") (host.now s).0 economize_intent
                      snapshot))
                  p s)
          | inr e' ↦ rw (e, e', with_snapshot) refl
        ]
      ]

  pub collected-Leaves :
      (formats : Formats F) (command : Text) → Leaves host (collected F host formats command)
  unfolding collected
  collected-Leaves formats command p s =
      let found = collect_local_snapshot F host local_node s in
      elim (Result-cases found.0) [
        | inl (snapshot, good) ↦
            rw (good, collected)
              (with_snapshot-Leaves formats command snapshot p found.1
                ∙ collect_local_snapshot-Leaves p s)
        | inr (e, bad) ↦ rw (bad, collected) (collect_local_snapshot-Leaves p s)
      ]
