-- ===== src/Tests/Energy.antt =====
-- The planner and the driver's checks of its plans at concrete capabilities.
use nordfir.Base.{
  ℕ, ◌*◌, ◌≡◌, refl, ◌↔◌, inr, true, false, none, some, List, [], ◌∷◌, ◌++◌, str, text_eq, All, ok,
  err,
}
use nordfir.Energy.Capabilities.{PowerCapabilities, rest_default}
use nordfir.Energy.RestPlan.{RestChange, RestChangePlan, RestPlanStatus, default_planner, plan}
use nordfir.Energy.RestPlan.Shape.{IsGovernorPart, IsFrequencyPart, plan_changes}
use nordfir.Energy.Provider.{PowerProvider, PowerReadError}
use nordfir.State.OriginalPower.{OriginalPowerState}
use nordfir.Drivers.LinuxRest.Checks.{validate_plan}
use nordfir.Drivers.LinuxRest.Checks.Planned.{IsAboveMinimum, planned_valid_iff}
use nordfir.Tests.Milli.{Milli, milli, milli-IsOrdered}

-- Megahertz.
abbrev pub mhz : ℕ → Milli
mhz n = Milli.plus (n * 1000)

abbrev pub laptop : PowerCapabilities Milli
laptop = record {
  cpufreq_available = true;
  current_governor = some (str "performance");
  available_governors = str "performance" ∷ str "powersave" ∷ [];
  hardware_min_mhz = some (mhz 400);
  hardware_max_mhz = some (mhz 4000);
  scaling_min_mhz = some (mhz 400);
  scaling_max_mhz = some (mhz 4000);
  rapl_available = false;
  control_writable = true;
}

abbrev pub laptop_plan : RestChangePlan Milli
laptop_plan = record {
  status = RestPlanStatus.ready;
  changes =
      RestChange.cpu_governor (str "performance") (str "powersave")
      ∷ RestChange.cpu_max_frequency_mhz (mhz 4000) (mhz 1600)
      ∷ [];
  blockers = [];
  warnings = [];
}

planned : plan ⦃f = milli⦄ default_planner laptop rest_default ≡ some laptop_plan
unfolding plan nordfir.Energy.RestPlan.settle nordfir.Energy.RestPlan.plan_frequency
    nordfir.Energy.RestPlan.plan_percent nordfir.Energy.RestPlan.plan_limits
    nordfir.Energy.RestPlan.plan_target nordfir.Energy.RestPlan.ceiling
    nordfir.Energy.RestPlan.status_of nordfir.Energy.RestPlan.plan_governor
    nordfir.Energy.RestPlan.plan_current text_eq str nordfir.Energy.RestPlan.is_rest
planned = refl

plan_changes_example :
    (gs : List (RestChange Milli)) × (fs : List (RestChange Milli)) × (laptop_plan.changes
      ≡ gs ++ fs)
    × IsGovernorPart (str "powersave") laptop.current_governor laptop.available_governors gs
    × IsFrequencyPart ⦃f = milli⦄ laptop.hardware_min_mhz laptop.hardware_max_mhz
        laptop.scaling_max_mhz fs
plan_changes_example =
    plan_changes ⦃f = milli⦄ milli-IsOrdered default_planner laptop rest_default planned

-- A hardware limit that is no number.
abbrev broken : PowerCapabilities Milli
broken = record laptop { hardware_min_mhz = some Milli.nan }

panics : plan ⦃f = milli⦄ default_planner broken rest_default ≡ none
unfolding plan nordfir.Energy.RestPlan.settle nordfir.Energy.RestPlan.plan_frequency
    nordfir.Energy.RestPlan.plan_percent nordfir.Energy.RestPlan.plan_limits
    nordfir.Energy.RestPlan.plan_target nordfir.Energy.RestPlan.ceiling
panics = refl

abbrev pub saved : OriginalPowerState Milli
saved = record {
  version = 1;
  node = str "local";
  captured_at_unix_seconds = 4;
  governor = str "performance";
  scaling_min_mhz = mhz 400;
  scaling_max_mhz = mhz 4000;
}

planned_valid_iff_example :
    (validate_plan ⦃f = milli⦄ saved laptop_plan ≡ ok tt)
    ↔ All (IsAboveMinimum ⦃f = milli⦄ milli-IsOrdered saved) laptop_plan.changes
planned_valid_iff_example =
    planned_valid_iff ⦃f = milli⦄ milli-IsOrdered saved laptop rest_default planned refl (λ e. cc)

-- A saved minimum above the planned ceiling: the plan is ready, and the driver refuses it.
refused :
    validate_plan ⦃f = milli⦄ (record saved { scaling_min_mhz = mhz 2000 }) laptop_plan
    ≡ err (str "REST plan contains an invalid frequency change")
unfolding validate_plan nordfir.Drivers.LinuxRest.Checks.validate_changes text_eq str
refused = refl

abbrev absent : PowerProvider Milli
absent = record {
  name = str "absent";
  read_power = λ _ _. inr (PowerReadError.unavailable (str "absent"));
}
