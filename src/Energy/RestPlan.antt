-- ===== src/Energy/RestPlan.antt =====
-- archive/rust/src/energy/rest_plan.rs. `none` is the panic of `f32::clamp`.
pub mod Shape
pub mod Status
pub mod Panic
use nordfir.Base.{
  ℕ, Bool, true, false, not, ◌&&◌, Option, none, some, List, [], ◌∷◌, ◌++◌, Text, str, text_eq, any,
  is_empty, leb, if◌then◌else◌,
}
use nordfir.Float.{F32, clamp}
use nordfir.Core.{PowerMode}
use nordfir.Energy.Capabilities.{PowerCapabilities, PowerProfile}

pub data RestPlanStatus : Type 0 where
  ready no_changes blocked : RestPlanStatus

pub data RestChange (F : Type 0) : Type 0 where
  cpu_governor : Text → Text → RestChange F
  cpu_max_frequency_mhz : F → F → RestChange F

pub record RestChangePlan (F : Type 0) : Type 0 where
  pub status : RestPlanStatus
  pub changes : List (RestChange F)
  pub blockers : List Text
  pub warnings : List Text

pub record RestPlanner : Type 0 where
  pub target_governor : Text

abbrev pub default_planner : RestPlanner
default_planner = record { target_governor = str "powersave" }

unfoldable pub is_rest : PowerMode → Bool
is_rest PowerMode.rest = true
is_rest _ = false

module _ {F : Type 0} where
  abbrev pub block : RestChangePlan F → Text → RestChangePlan F
  block p why = record p { blockers = p.blockers ++ why ∷ [] }

  abbrev pub change : RestChangePlan F → RestChange F → RestChangePlan F
  change p c = record p { changes = p.changes ++ c ∷ [] }

  abbrev pub block_unless : Bool → RestChangePlan F → Text → RestChangePlan F
  block_unless b p why = if b then p else block p why

  unfoldable pub status_of : RestChangePlan F → RestPlanStatus
  status_of p =
      if not (is_empty p.blockers)
      then RestPlanStatus.blocked
      else if is_empty p.changes
      then RestPlanStatus.no_changes
      else RestPlanStatus.ready

  abbrev pub empty_plan : RestChangePlan F
  empty_plan = record {
    status = RestPlanStatus.blocked;
    changes = [];
    blockers = [];
    warnings = [];
  }

  unfoldable pub plan_current : Text → Option Text → List Text → RestChangePlan F → RestChangePlan F
  plan_current target none governors p = block p (str "current CPU governor is unknown")
  plan_current target (some current) governors p =
      if any (λ g. text_eq g target) governors
      then (if text_eq current target then p else change p (RestChange.cpu_governor current target))
      else block p (str "required CPU governor '" ++ target ++ str "' is unavailable")

  unfoldable pub plan_governor :
      RestPlanner → PowerCapabilities F → RestChangePlan F → RestChangePlan F
  plan_governor planner c p =
      plan_current planner.target_governor c.current_governor c.available_governors p

  unfoldable pub warn : Bool → RestChangePlan F → RestChangePlan F
  warn true p = p
  warn false p = record p {
    warnings =
        p.warnings
        ++ str
            "governor control file does not expose write permission bits; apply would require separate authorization"
          ∷ [];
  }

  -- The last steps of `plan`.
  unfoldable pub settle : Bool → Option (RestChangePlan F) → Option (RestChangePlan F)
  unfolding warn
  settle writable none = none
  settle writable (some p) =
      let warned = warn writable p in some (record warned { status = status_of warned })

module _ {F : Type 0} ⦃f : F32 F⦄ where
  -- The ceiling that a percentage asks for, inside the hardware's range.
  unfoldable pub ceiling : ℕ → F → F → Option F
  ceiling percent lo hi = clamp lo hi (f.mul hi (f.div (f.of_ℕ percent) (f.of_ℕ 100)))

  unfoldable pub plan_target : Option F → F → RestChangePlan F → Option (RestChangePlan F)
  plan_target none current p = none
  plan_target (some x) current p = some (
      if f.lt (f.round x) current
      then change p (RestChange.cpu_max_frequency_mhz current (f.round x))
      else p)

  unfoldable pub plan_limits :
      ℕ → Option F → Option F → Option F → RestChangePlan F → Option (RestChangePlan F)
  plan_limits percent (some lo) (some hi) (some current) p =
      if f.lt hi lo
      then some (block p (str "CPU hardware frequency range is invalid"))
      else plan_target (ceiling percent lo hi) current p
  plan_limits percent _ _ _ p =
      some (block p (str "CPU frequency limits are incomplete; a safe ceiling cannot be planned"))

  unfoldable pub plan_percent :
      Option ℕ → PowerCapabilities F → RestChangePlan F → Option (RestChangePlan F)
  plan_percent none c p = some p
  plan_percent (some percent) c p =
      if leb 1 percent && leb percent 100
      then plan_limits percent c.hardware_min_mhz c.hardware_max_mhz c.scaling_max_mhz p
      else some (block p (str "REST CPU maximum must be between 1 and 100 percent"))

  unfoldable pub plan_frequency :
      PowerCapabilities F → PowerProfile → RestChangePlan F → Option (RestChangePlan F)
  plan_frequency c profile p = plan_percent profile.cpu_max_percent c p

  unfoldable pub plan : RestPlanner → PowerCapabilities F → PowerProfile → Option (RestChangePlan F)
  plan planner c profile =
      let targeted =
        block_unless (is_rest profile.mode) empty_plan (str "power profile does not target REST") in
      let available =
        block_unless c.cpufreq_available targeted (str "Linux cpufreq interface is unavailable") in
      settle c.control_writable (plan_frequency c profile (plan_governor planner c available))
