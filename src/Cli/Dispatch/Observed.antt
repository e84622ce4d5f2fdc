-- ===== src/Cli/Dispatch/Observed.antt =====
-- main.rs, service.rs: the observer leaves what files hold.
use nordfir.Base.{
  ℕ, zero, suc, ◌≡◌, refl, sym, ap, ◌∙◌, inl, inr, false, Option, some, [], ◌∷◌, ◌++◌, str, Result,
  context, Bool-cases, Result-cases, Option-cases,
}
use nordfir.Base.Io.{Io, continue}
use nordfir.Float.{F32}
use nordfir.Format.{FilePath, decimal}
use nordfir.Core.{NodeSnapshot}
use nordfir.Service
use nordfir.Base.Time.{as_secs}
use nordfir.Service.{
  ObserverConfig, ObserverRuntime, ObserverRunSummary, ObserverHeartbeat, publish_next, cycle,
  is_last, run_from, from_arguments, encode_line,
}
use nordfir.Host.{Host, IsHost, print_lines}
use nordfir.Cli.{local_node}
use nordfir.Cli.Reading.{collect_local_snapshot}
use nordfir.Cli.Dispatch.{
  thread_runtime, publish_heartbeat, observe_summary, observe_started, observe_service_local,
  drop_two,
}
use nordfir.Cli.Dispatch.Leaves.{Leaves, say-Leaves, collect_local_snapshot-Leaves}

ended :
    {A B : Type 0} {a c : A} {b d : B}
    → ◌≡◌ {A = Option (A × B)} (some (a, b)) (some (c, d))
    → b ≡ d
ended h = cc

module _ {S F : Type 0} (host : Host S) (collecting : Io S (NodeSnapshot F))
    (publish : ObserverHeartbeat F → Io S (Unit {0})) (collects : Leaves host collecting)
    (publishes : (h : ObserverHeartbeat F) → Leaves host (publish h)) where
  cycle-Leaves : (completed : ℕ) → Leaves host (cycle collecting publish completed)
  unfolding cycle publish_next
  cycle-Leaves completed p s = elim (Result-cases (collecting s).0) [
    | inr (e, bad) ↦ rw (bad, continue) (collects p s)
    | inl (snapshot, good) ↦ rw (good, continue) (publishes _ p (collecting s).1 ∙ collects p s)
  ]

  module _ (config : ObserverConfig)
      (sleeps : (p : FilePath) (s : S)
        → host.files.read_to_string p (host.sleep config.interval s)
          ≡ host.files.read_to_string p s) where
    abbrev loop : ℕ → ℕ → S → Option (Result ObserverRunSummary × S)
    loop =
        run_from config (record { stop_requested = λ s. (false, s); wait = host.sleep }) collecting
          publish

    -- When the loop ends, the files hold what they held.
    loop-leaves :
        (fuel completed : ℕ) (p : FilePath) (s : S) {r : Result ObserverRunSummary} {s' : S}
        → loop fuel completed s ≡ some (r, s')
        → host.files.read_to_string p s' ≡ host.files.read_to_string p s
    unfolding run_from
    loop-leaves zero completed p s h = cc
    loop-leaves (suc fuel) completed p s h =
        let round = cycle collecting publish completed s in
        let first = cycle-Leaves completed p s in
        elim (Result-cases round.0) [
          | inr (e, bad) ↦
              sym (ap (host.files.read_to_string p) (ended (rw (bad, run_from) at h))) ∙ first
          | inl (next, good) ↦ elim (Bool-cases (is_last config.maximum_cycles next)) [
            | inl last ↦
                sym (ap (host.files.read_to_string p) (ended (rw (good, last, run_from) at h)))
                ∙ first
            | inr more ↦
                loop-leaves fuel next p (host.sleep config.interval round.1)
                  (rw (good, more, run_from) at h)
                ∙ sleeps p round.1
                ∙ first
          ]
        ]

module _ {S : Type 0} (F : Type 0) ⦃f : F32 F⦄ (host : Host S) (quiet : IsHost host) where
  publish_heartbeat-Leaves :
      (heartbeat : ObserverHeartbeat F) → Leaves host (publish_heartbeat F host heartbeat)
  unfolding publish_heartbeat
  publish_heartbeat-Leaves heartbeat = say-Leaves host quiet (encode_line heartbeat ∷ [])

  observe_started-Leaves :
      (config : ObserverConfig) (fuel : ℕ) → Leaves host (observe_started F host config fuel)
  unfolding observe_started observe_summary
  observe_started-Leaves config fuel p s =
      let lines =
        (str "Observer service: Starting (interval "
          ++ decimal (as_secs config.interval)
          ++ str " seconds)")
        ∷ str "Observer mode: Read only"
        ∷ [] in
      let started = print_lines host lines s in
      elim (Option-cases (
        Service.run config (thread_runtime F host) (collect_local_snapshot F host local_node)
          (publish_heartbeat F host) fuel started)) [
            | inl running ↦ rw (running, observe_started) refl
            | inr ((r, s'), over) ↦
                let stopped =
                  loop-leaves host (collect_local_snapshot F host local_node)
                    (publish_heartbeat F host) (collect_local_snapshot-Leaves F host quiet)
                    publish_heartbeat-Leaves config (λ q t. quiet.sleep_leaves q config.interval t)
                    fuel 0 p started over
                  ∙ say-Leaves host quiet lines p s in
                elim (Result-cases r) [
                  | inr (e, bad) ↦ rw (over, bad, observe_started) stopped
                  | inl (done, good) ↦
                      rw (over, good, observe_started)
                        (say-Leaves host quiet
                            ((str "Observer service: Stopped after "
                                ++ decimal done.completed_cycles
                                ++ str " cycle(s)")
                              ∷ str "No system settings were changed."
                              ∷ [])
                            p s'
                          ∙ stopped)
                ]
          ]

  pub observe_service_local-Leaves : (fuel : ℕ) → Leaves host (observe_service_local F host fuel)
  unfolding observe_service_local
  observe_service_local-Leaves fuel p s =
      elim (Result-cases
        (context (str "observe-service-local ") (from_arguments (drop_two host.arguments)))) [
          | inr (e, bad) ↦ rw (bad, observe_service_local) refl
          | inl (config, good) ↦
              rw (good, observe_service_local) (observe_started-Leaves config fuel p s)
        ]
