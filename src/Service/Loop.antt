-- ===== src/Service/Loop.antt =====
-- service.rs: the observer's loop ends.
use nordfir.Base.{
  ℕ, zero, suc, ◌+◌, ◌%◌, ◌^◌, ◌≤◌, ◌≡◌, refl, sym, ◌∙◌, ap, ◌⊎◌, inl, inr, true, false, Option,
  none, some, str, ◌++◌, Result, ok, err, ok-injective, context, map_ok, Result-cases, Bool-cases,
  ◌==◌, ==_iff, arith,
}
use nordfir.Base.Io.{Io}
use nordfir.Format.{max_u64, decimal}
use nordfir.Core.{NodeSnapshot}
use nordfir.Service.{
  ObserverConfig, ObserverHeartbeat, ObserverRunSummary, ObserverRuntime, publish_next, cycle,
  is_last, run_from, run,
}

module _ {S F : Type 0} (collect : Io S (NodeSnapshot F))
    (publish : ObserverHeartbeat F → Io S (Unit {0})) where
  publish_next-eq-ok :
      (next : ℕ) (snapshot : NodeSnapshot F) (s : S) {n : ℕ}
      → (publish_next collect publish next snapshot s).0 ≡ ok n
      → n ≡ next
  unfolding publish_next
  publish_next-eq-ok next snapshot s h =
      elim (Result-cases (publish (record { sequence = next; snapshot = snapshot }) s).0) [
        | inl (u, e) ↦
            let same =
              sym (
                ap
                  (λ (r : Result (Unit {0})).
                    map_ok (λ _. next)
                      (context
                        (str "observer publish failed during cycle " ++ decimal next ++ str ": ")
                        r))
                  e)
              ∙ h in
            sym (ok-injective same)
        | inr (t, e) ↦
            let bad =
              sym (
                ap
                  (λ (r : Result (Unit {0})).
                    map_ok (λ _. next)
                      (context
                        (str "observer publish failed during cycle " ++ decimal next ++ str ": ")
                        r))
                  e)
              ∙ h in
            cc
      ]

  cycle-eq-ok :
      (completed : ℕ) (s : S) {n : ℕ}
      → (cycle collect publish completed s).0 ≡ ok n
      → n ≡ (completed + 1) % 2 ^ 64
  unfolding cycle
  cycle-eq-ok completed s h = elim (Result-cases (collect s).0) [
    | inl (snapshot, e) ↦
        publish_next-eq-ok ((completed + 1) % 2 ^ 64) snapshot (collect s).1 (rw e at h)
    | inr (t, e) ↦ let bad = (rw e at h) in cc
  ]

module _ {S F : Type 0} (config : ObserverConfig) (runtime : ObserverRuntime S)
    (collect : Io S (NodeSnapshot F)) (publish : ObserverHeartbeat F → Io S (Unit {0})) where
  open runtime use {stop_requested, wait}

  -- The state in which a stop was requested.
  abbrev pub WasStopped : S → Type 0
  WasStopped s = (t : S) × ((stop_requested t).0 ≡ true) × (s ≡ (stop_requested t).1)

  -- The loop ended. Without an error it made at most `m` rounds, and fewer only when a stop was
  -- requested.
  abbrev pub EndsBy : ℕ → Option (Result ObserverRunSummary × S) → Type 0
  EndsBy m none = ⊥
  EndsBy m (some (err e, s)) = Unit
  EndsBy m (some (ok x, s)) = (x.completed_cycles ≤ m) × ((x.completed_cycles ≡ m) ⊎ WasStopped s)

  next_round :
      (m c fuel n : ℕ)
      → c + suc fuel ≡ m
      → m ≤ max_u64
      → n ≡ (c + 1) % 2 ^ 64
      → (n ≡ c + 1) × (n ≤ m)
  next_round m c fuel n e b h = (omega arith, omega arith)

  unfinished : (m n c fuel : ℕ) → (m == n) ≡ false → c + suc fuel ≡ m → n ≡ c + 1 → 1 ≤ fuel
  unfinished m n c zero apart e same = let equal = (==_iff m n).1 (omega arith) in cc
  unfinished m n c (suc fuel) apart e same = omega arith

  run_from-EndsBy :
      (m : ℕ)
      → config.maximum_cycles ≡ some m
      → m ≤ max_u64
      → (fuel c : ℕ) (s : S) → c + fuel ≡ m
      → 1 ≤ fuel
      → EndsBy m (run_from config runtime collect publish fuel c s)
  unfolding run_from is_last
  run_from-EndsBy m limit b zero c s e p = omega arith
  run_from-EndsBy m limit b (suc fuel) c s e p = elim (Bool-cases (stop_requested s).0) [
    | inl stop ↦ rw (stop, run_from) (omega arith, inr (s, stop, refl))
    | inr go ↦ elim (Result-cases (cycle collect publish c (stop_requested s).1).0) [
      | inr (t, bad) ↦ rw (go, bad, run_from) tt
      | inl (n, good) ↦
          let (same, small) =
            next_round m c fuel n e b (cycle-eq-ok collect publish c (stop_requested s).1 good) in
          let s' = (cycle collect publish c (stop_requested s).1).1 in
          elim (Bool-cases (m == n)) [
            | inl last ↦
                rw (go, good, limit, is_last, last, run_from)
                  (small, inl (sym ((==_iff m n).0 last)))
            | inr more ↦ elim (Bool-cases (stop_requested s').0) [
              | inl stop ↦
                  rw (go, good, limit, is_last, more, stop, run_from) (small, inr (s', stop, refl))
              | inr again ↦
                  rw (go, good, limit, is_last, more, again, run_from)
                    (run_from-EndsBy m limit b fuel n (wait config.interval (stop_requested s').1)
                      (omega arith) (unfinished m n c fuel more e same))
            ]
          ]
    ]
  ]

  -- With a limit of `m` rounds that a `u64` holds, the loop ends after at most `m` rounds, whatever
  -- the runtime, the collector and the publisher do. If it ends without an error it has completed
  -- exactly `m`, or at most `m` and the last thing it saw was a request to stop.
  pub run-EndsBy :
      (m : ℕ)
      → config.maximum_cycles ≡ some m
      → 1 ≤ m
      → m ≤ max_u64
      → (s : S) → EndsBy m (run config runtime collect publish m s)
  run-EndsBy m limit pos b s = run_from-EndsBy m limit b m 0 s (omega arith) pos
