-- ===== src/Energy/RestPlan/Shape.antt =====
-- What a plan holds: at most one change of each kind, and never a higher ceiling.
use mathlib.Core.Option.{some-injective}
use nordfir.Base.{
  ℕ, ◌≡◌, refl, sym, ◌∙◌, ◌≢◌, inl, inr, Bool, true, false, ◌&&◌, leb, Option, none, some, List, [],
  ◌∷◌, ◌++◌, Text, str, text_eq, text_eq_iff, any, append-nil, ap, Bool-cases, Option-cases,
}
use nordfir.Float.{F32, IsOrdered, clamp_bounds}
use nordfir.Energy.Capabilities.{PowerCapabilities, PowerProfile}
use nordfir.Energy.RestPlan.{
  RestChange, RestChangePlan, RestPlanner, block_unless, empty_plan, warn, is_rest, plan_current,
  plan_governor, ceiling, plan_target, plan_limits, plan_percent, plan_frequency, settle, plan,
}
use nordfir.Energy.RestPlan.Status.{Occurs, any-Occurs}

module _ {F : Type 0} where
  -- Nothing, or one change from the current governor to a different, offered target.
  abbrev pub IsGovernorPart : Text → Option Text → List Text → List (RestChange F) → Type 0
  IsGovernorPart target now offered [] = Unit
  IsGovernorPart target now offered (RestChange.cpu_governor current wanted ∷ []) =
      (now ≡ some current) × (wanted ≡ target) × (current ≢ target) × Occurs target offered
  IsGovernorPart target now offered _ = ⊥

  plan_current-part :
      (target : Text) (now : Option Text) (offered : List Text) (p : RestChangePlan F)
      → (cs : List (RestChange F)) × ((plan_current target now offered p).changes ≡ p.changes ++ cs)
        × IsGovernorPart target now offered cs
  unfolding plan_current
  plan_current-part target none offered p = ([], sym (append-nil p.changes), tt)
  plan_current-part target (some current) offered p =
      elim (Bool-cases (any (λ g. text_eq g target) offered)) [
        | inr e ↦ rw (e, plan_current) ([], sym (append-nil p.changes), tt)
        | inl e ↦ elim (Bool-cases (text_eq current target)) [
          | inl d ↦ rw (e, d, plan_current) ([], sym (append-nil p.changes), tt)
          | inr d ↦
              rw (e, d, plan_current)
                (
                  RestChange.cpu_governor current target ∷ [],
                  refl,
                  (
                    refl,
                    refl,
                    λ same. cc ((text_eq_iff current target).1 same),
                    (any-Occurs target offered).0 e,
                  ),
                )
        ]
      ]

  changes-block_unless :
      (b : Bool) (p : RestChangePlan F) (why : Text) → (block_unless b p why).changes ≡ p.changes
  changes-block_unless true p why = refl
  changes-block_unless false p why = refl

  -- The plan before its frequencies.
  abbrev gate : RestPlanner → PowerCapabilities F → PowerProfile → RestChangePlan F
  gate planner c profile = plan_governor planner c (
      block_unless c.cpufreq_available
        (block_unless (is_rest profile.mode) empty_plan (str "power profile does not target REST"))
        (str "Linux cpufreq interface is unavailable"))

  gate-part :
      (planner : RestPlanner) (c : PowerCapabilities F) (profile : PowerProfile)
      → (gs : List (RestChange F)) × ((gate planner c profile).changes ≡ gs)
        × IsGovernorPart planner.target_governor c.current_governor c.available_governors gs
  unfolding plan_governor
  gate-part planner c profile =
      let (gs, grows, part) =
        plan_current-part planner.target_governor c.current_governor c.available_governors (
          block_unless c.cpufreq_available
            (block_unless (is_rest profile.mode) empty_plan
              (str "power profile does not target REST"))
            (str "Linux cpufreq interface is unavailable")) in
      (
        gs,
        grows
            ∙ ap (λ (cs : List (RestChange F)). cs ++ gs)
                (changes-block_unless c.cpufreq_available _ _
                  ∙ changes-block_unless (is_rest profile.mode) empty_plan _),
        part,
      )

  settle-changes :
      (w : Bool) (o : Option (RestChangePlan F)) {q : RestChangePlan F}
      → settle w o ≡ some q
      → (p : RestChangePlan F) × (o ≡ some p) × (q.changes ≡ p.changes)
  unfolding settle warn
  settle-changes w none h = cc
  settle-changes true (some p) h = (p, refl, rw (← some-injective _ _ h))
  settle-changes false (some p) h = (p, refl, rw (← some-injective _ _ h))

module _ {F : Type 0} ⦃f : F32 F⦄ where
  -- Nothing, or one change from the current ceiling to a strictly lower one, which is a rounded value
  -- inside the hardware's range.
  abbrev pub IsFrequencyPart : Option F → Option F → Option F → List (RestChange F) → Type 0
  IsFrequencyPart minimum maximum now [] = Unit
  IsFrequencyPart minimum maximum now (RestChange.cpu_max_frequency_mhz current wanted ∷ []) =
      (now ≡ some current)
      × (f.lt wanted current ≡ true)
      × ((lo : F) × (hi : F) × (x : F) × (minimum ≡ some lo)
          × (maximum ≡ some hi)
          × (wanted ≡ f.round x)
          × (f.lt x lo ≡ false)
          × (f.lt hi x ≡ false))
  IsFrequencyPart minimum maximum now _ = ⊥

  abbrev Adds : RestChangePlan F → RestChangePlan F → (List (RestChange F) → Type 0) → Type 0
  Adds p q P = (cs : List (RestChange F)) × (q.changes ≡ p.changes ++ cs) × P cs

  no_ceiling :
      (current : F) (p : RestChangePlan F) {q : RestChangePlan F}
      → plan_target none current p ≢ some q
  unfolding plan_target
  no_ceiling current p h = cc

  module _ (laws : IsOrdered F) where
    ceiling_bounds :
        (percent : ℕ) (lo hi : F) {x : F}
        → ceiling percent lo hi ≡ some x
        → (f.lt x lo ≡ false) × (f.lt hi x ≡ false)
    unfolding ceiling
    ceiling_bounds percent lo hi h = clamp_bounds laws lo hi _ h

    plan_target-part :
        (lo hi current : F) (x : F) (p : RestChangePlan F) {q : RestChangePlan F}
        → (f.lt x lo ≡ false) × (f.lt hi x ≡ false)
        → plan_target (some x) current p ≡ some q
        → Adds p q (IsFrequencyPart (some lo) (some hi) (some current))
    unfolding plan_target
    plan_target-part lo hi current x p (low, high) h =
        elim (Bool-cases (f.lt (f.round x) current)) [
          | inl e ↦ rw (← some-injective _ _ (rw (e, plan_target) at h)) (
            RestChange.cpu_max_frequency_mhz current (f.round x) ∷ [],
            refl,
            (refl, e, (lo, hi, x, refl, refl, refl, low, high)),
          )
          | inr e ↦
              rw (← some-injective _ _ (rw (e, plan_target) at h))
                ([], sym (append-nil p.changes), tt)
        ]

    plan_limits-part :
        (percent : ℕ) (minimum maximum now : Option F) (p : RestChangePlan F) {q : RestChangePlan F}
        → plan_limits percent minimum maximum now p ≡ some q
        → Adds p q (IsFrequencyPart minimum maximum now)
    unfolding plan_limits
    plan_limits-part percent (some lo) (some hi) (some current) p h =
        elim (Bool-cases (f.lt hi lo)) [
          | inl e ↦
              rw (← some-injective _ _ (rw (e, plan_limits) at h))
                ([], sym (append-nil p.changes), tt)
          | inr e ↦
              let h' = rw (e, plan_limits) at h in
              elim (Option-cases (ceiling percent lo hi)) [
                | inl d ↦ absurd (no_ceiling current p (rw d at h'))
                | inr (x, d) ↦
                    plan_target-part lo hi current x p (ceiling_bounds percent lo hi d) (rw d at h')
              ]
        ]
    plan_limits-part percent _ _ _ p h =
        rw (← some-injective _ _ h) ([], sym (append-nil p.changes), tt)

    plan_percent-part :
        (asked : Option ℕ) (c : PowerCapabilities F) (p : RestChangePlan F) {q : RestChangePlan F}
        → plan_percent asked c p ≡ some q
        → Adds p q (IsFrequencyPart c.hardware_min_mhz c.hardware_max_mhz c.scaling_max_mhz)
    unfolding plan_percent
    plan_percent-part none c p h = rw (← some-injective _ _ h) ([], sym (append-nil p.changes), tt)
    plan_percent-part (some percent) c p h = elim (Bool-cases (leb 1 percent && leb percent 100)) [
      | inl e ↦
          plan_limits-part percent c.hardware_min_mhz c.hardware_max_mhz c.scaling_max_mhz p
            (rw (e, plan_percent) at h)
      | inr e ↦
          rw (← some-injective _ _ (rw (e, plan_percent) at h)) ([], sym (append-nil p.changes), tt)
    ]

    -- A plan changes the governor at most once, from the current one to a different target that is
    -- offered, and then the ceiling at most once, from the current one to a strictly lower one: the
    -- rounding of a frequency that lies in the hardware's range.
    pub plan_changes :
        (planner : RestPlanner) (c : PowerCapabilities F) (profile : PowerProfile)
        {q : RestChangePlan F}
        → plan planner c profile ≡ some q
        → (gs : List (RestChange F)) × (fs : List (RestChange F)) × (q.changes ≡ gs ++ fs)
          × IsGovernorPart planner.target_governor c.current_governor c.available_governors gs
          × IsFrequencyPart c.hardware_min_mhz c.hardware_max_mhz c.scaling_max_mhz fs
    unfolding plan plan_frequency plan_governor
    plan_changes planner c profile h =
        let (p, e, same) = settle-changes c.control_writable _ h in
        let (fs, grows, frequency) =
          plan_percent-part profile.cpu_max_percent c (gate planner c profile) {q = p} e in
        let (gs, starts, governor) = gate-part planner c profile in
        (
          gs,
          fs,
          (same ∙ grows ∙ ap (λ (cs : List (RestChange F)). cs ++ fs) starts),
          governor,
          frequency,
        )
