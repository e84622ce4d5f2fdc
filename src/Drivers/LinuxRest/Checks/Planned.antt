-- ===== src/Drivers/LinuxRest/Checks/Planned.antt =====
-- Which plans of archive/rust/src/energy/rest_plan.rs the driver of linux_rest.rs finds valid.
use mathlib.Core.Path.{subst}
use nordfir.Base.{
  ◌≡◌, refl, sym, ap, ◌∙◌, ◌≢◌, ◌↔◌, Bool, true, false, not, ◌||◌, Option, some, List, [], ◌∷◌,
  ◌++◌, Text, str, text_eq_iff, is_empty, Result, ok, ◌>>◌, refuse, refuse-eq-ok, >>=-eq-ok, arith,
  All,
}
use nordfir.Float.{F32, IsOrdered}
use nordfir.State.OriginalPower.{OriginalPowerState}
use nordfir.Energy.Capabilities.{PowerCapabilities, PowerProfile}
use nordfir.Energy.RestPlan.{RestChange, RestChangePlan, default_planner, plan}
use nordfir.Energy.RestPlan.Shape.{IsGovernorPart, IsFrequencyPart, plan_changes}
use nordfir.Drivers.LinuxRest.Checks.{validate_plan, validate_changes, bad_frequency}

module _ {F : Type 0} ⦃f : F32 F⦄ (laws : IsOrdered F) (o : OriginalPowerState F) where
  -- A frequency change is between finite numbers and not below the saved minimum.
  abbrev pub IsAboveMinimum : RestChange F → Type 0
  IsAboveMinimum (RestChange.cpu_governor current target) = Unit
  IsAboveMinimum (RestChange.cpu_max_frequency_mhz current target) =
      (f.is_finite current ≡ true)
      × (f.is_finite target ≡ true)
      × (f.lt target o.scaling_min_mhz ≡ false)

  frequency_iff :
      (minimum maximum now : Option F) (g : Bool) (fs : List (RestChange F))
      → IsFrequencyPart minimum maximum now fs
      → (validate_changes o fs g false ≡ ok tt) ↔ All IsAboveMinimum fs
  unfolding validate_changes
  frequency_iff minimum maximum now g [] part = (λ _. tt, λ _. refl)
  frequency_iff minimum maximum now g (RestChange.cpu_max_frequency_mhz current target ∷ [])
        (_, lower, _) =
      let higher = laws.lt_asymm target current lower in
      (
        λ h.
            let (_, good, _) = >>=-eq-ok _ (λ _. validate_changes o [] g true) h in
            let guard = refuse-eq-ok (bad_frequency o false current target) _ good in
            (ground arith, tt),
        λ ((a, b, d), _). rw (a, b, d, higher),
      )
  frequency_iff minimum maximum now g (RestChange.cpu_max_frequency_mhz current target ∷ c ∷ fs)
        part =
      absurd part
  frequency_iff minimum maximum now g (RestChange.cpu_governor current target ∷ fs) part =
      absurd part

  changes_iff :
      (now : Option Text) (offered : List Text) (minimum maximum current : Option F)
      (gs fs : List (RestChange F))
      → IsGovernorPart (str "powersave") now offered gs
      → IsFrequencyPart minimum maximum current fs
      → (validate_changes o (gs ++ fs) false false ≡ ok tt) ↔ All IsAboveMinimum (gs ++ fs)
  unfolding validate_changes
  changes_iff now offered minimum maximum current [] fs gov part =
      frequency_iff minimum maximum current false fs part
  changes_iff now offered minimum maximum current (RestChange.cpu_governor from target ∷ []) fs
        (_, same, _, _) part =
      let rest = frequency_iff minimum maximum current true fs part in
      let e = (text_eq_iff target (str "powersave")).1 same in
      (λ h. (tt, rest.0 (rw (e, validate_changes) at h)), λ (_, h). rw e (rest.1 h))
  changes_iff now offered minimum maximum current (RestChange.cpu_governor from target ∷ c ∷ gs) fs
        gov part =
      absurd gov
  changes_iff now offered minimum maximum current
        (RestChange.cpu_max_frequency_mhz from target ∷ gs) fs gov part =
      absurd gov

  consistent :
      (bs : List Text) (cs : List (RestChange F)) (e : Text)
      → bs ≡ []
      → cs ≢ []
      → refuse (not (is_empty bs) || is_empty cs) e ≡ ok tt
  consistent [] [] e _ d = absurd (d refl)
  consistent [] (c ∷ cs) e _ _ = refl
  consistent (b ∷ bs) cs e h _ = cc

  -- The driver finds a plan that the default planner makes without blockers and with some change valid
  -- exactly when the change of the ceiling that it may hold is between finite numbers and not below
  -- the saved minimum. Comparison must be an order.
  pub planned_valid_iff :
      (c : PowerCapabilities F) (profile : PowerProfile) {q : RestChangePlan F}
      → plan default_planner c profile ≡ some q
      → q.blockers ≡ []
      → q.changes ≢ []
      → (validate_plan o q ≡ ok tt) ↔ All IsAboveMinimum q.changes
  unfolding validate_plan
  planned_valid_iff c profile {q} h clear some_change =
      let (gs, fs, same, gov, freq) = plan_changes laws default_planner c profile h in
      let both =
        changes_iff c.current_governor c.available_governors c.hardware_min_mhz c.hardware_max_mhz
          c.scaling_max_mhz gs fs gov freq in
      let step =
        ap (λ (x : Result (Unit {0})). x >> validate_changes o q.changes false false)
          (consistent q.blockers q.changes _ clear some_change) in
      let (to, back) =
        subst
          (λ (cs : List (RestChange F)).
            (validate_changes o cs false false ≡ ok tt) ↔ All IsAboveMinimum cs)
          (sym same) both in
      (λ e. to (sym step ∙ e), λ e. step ∙ back e)
