-- ===== src/Energy/RestPlan/Status.antt =====
-- When a plan is blocked.
use nordfir.Base.{
  ℕ, ◌≤◌, ◌≡◌, ◌≢◌, ◌↔◌, ◌⊎◌, true, false, Option, none, some, List, [], ◌∷◌, Text, text_eq,
  text_eq_iff, any, arith,
}
use nordfir.Float.{F32}
use nordfir.Core.{PowerMode}
use nordfir.Energy.Capabilities.{PowerCapabilities, PowerProfile}
use nordfir.Energy.RestPlan.{
  RestChange, empty_plan, RestPlanStatus, RestChangePlan, RestPlanner, block_unless, is_rest,
  plan_governor,
}

abbrev pub Occurs : Text → List Text → Type 0
Occurs t [] = ⊥
Occurs t (u ∷ us) = (u ≡ t) ⊎ Occurs t us

pub any-Occurs : (t : Text) (us : List Text) → (any (λ g. text_eq g t) us ≡ true) ↔ Occurs t us
any-Occurs t [] = (λ h. cc, λ h. absurd h)
any-Occurs t (u ∷ us) = (
  λ h. ground (arith, text_eq_iff u t, any-Occurs t us),
  λ h. ground (arith, text_eq_iff u t, any-Occurs t us),
)

module _ {F : Type 0} where
  abbrev IsClear : RestChangePlan F → Type 0
  IsClear p = p.blockers ≡ []

  -- The current governor is known, and the wanted one is offered.
  abbrev pub GovernorOk : RestPlanner → PowerCapabilities F → Type 0
  GovernorOk planner c =
      ((g : Text) × (c.current_governor ≡ some g))
      × Occurs planner.target_governor c.available_governors

  -- What the status of a plan says of its blockers and changes.
  abbrev Tells : RestPlanStatus → List Text → List (RestChange F) → Type 0
  Tells status blockers changes =
      ((status ≢ RestPlanStatus.blocked) ↔ (blockers ≡ []))
      × (status ≡ RestPlanStatus.ready → (blockers ≡ []) × (changes ≢ []))
      × (status ≡ RestPlanStatus.no_changes → (blockers ≡ []) × (changes ≡ []))

module _ {F : Type 0} ⦃f : F32 F⦄ where
  -- The hardware's limits and the current ceiling are known, and the limits are in order.
  abbrev pub LimitsOk : Option F → Option F → Option F → Type 0
  LimitsOk minimum maximum ceiling_now =
      (lo : F) × (hi : F) × (current : F) × (minimum ≡ some lo)
      × (maximum ≡ some hi)
      × (ceiling_now ≡ some current)
      × (f.lt hi lo ≡ false)

  -- No ceiling is asked for, or it is a percentage of limits that are in order.
  abbrev pub FrequencyOk : Option ℕ → PowerCapabilities F → Type 0
  FrequencyOk asked c =
      (asked ≡ none)
      ⊎ ((percent : ℕ) × (asked ≡ some percent) × (1 ≤ percent) × (percent ≤ 100))
        × LimitsOk c.hardware_min_mhz c.hardware_max_mhz c.scaling_max_mhz

module _ {F : Type 0} ⦃f : F32 F⦄ (planner : RestPlanner) (c : PowerCapabilities F)
    (profile : PowerProfile) where
  abbrev pub IsPlannable : Type 0
  IsPlannable =
      (profile.mode ≡ PowerMode.rest)
      × (c.cpufreq_available ≡ true)
      × GovernorOk planner c
      × FrequencyOk profile.cpu_max_percent c

  -- The plan before its frequencies.
  abbrev gate : Text → Text → RestChangePlan F
  gate off_target no_cpufreq = plan_governor planner c (
      block_unless c.cpufreq_available (block_unless (is_rest profile.mode) empty_plan off_target)
        no_cpufreq)
