-- ===== src/Drivers/LinuxRest/Checks.antt =====
-- linux_rest.rs, `validate_plan`, `verify_live_matches_plan` and `verify_original_matches_plan`.
pub mod Planned
use nordfir.Base.{
  ◌≡◌, refl, sym, ap, ◌∙◌, Bool, true, false, not, ◌||◌, List, [], ◌∷◌, Text, str, text_eq,
  is_empty, Result, ok, err, ◌>>=◌, ◌>>◌, refuse,
}
use nordfir.Float.{F32}
use nordfir.Format.{FilePath}
use nordfir.State.OriginalPower.{OriginalPowerState}
use nordfir.Energy.RestPlan.{RestChange, RestChangePlan}
use nordfir.Drivers.LinuxRest.{
  Sysfs, cpufreq_path, governor_file, max_freq_file, verify_text, verify_frequency,
  approximately_equal,
}

module _ {F : Type 0} ⦃f : F32 F⦄ (original : OriginalPowerState F) where
  abbrev bad_frequency : Bool → F → F → Bool
  bad_frequency seen current target =
      seen
      || not (f.is_finite current)
      || not (f.is_finite target)
      || f.lt target original.scaling_min_mhz
      || f.lt current target

  -- The loop of `validate_plan`, from the flags `governor_seen` and `frequency_seen`.
  unfoldable pub validate_changes : List (RestChange F) → Bool → Bool → Result (Unit {0})
  validate_changes [] governor_seen frequency_seen = ok tt
  validate_changes (RestChange.cpu_governor current target ∷ more) governor_seen frequency_seen = do
    refuse (governor_seen || not (text_eq target (str "powersave")))
        (str "REST plan contains an invalid governor change")
    validate_changes more true frequency_seen
  validate_changes (RestChange.cpu_max_frequency_mhz current target ∷ more) governor_seen
        frequency_seen =
      do
        refuse (bad_frequency frequency_seen current target)
            (str "REST plan contains an invalid frequency change")
        validate_changes more governor_seen true

  unfoldable pub validate_plan : RestChangePlan F → Result (Unit {0})
  validate_plan plan = do
    refuse (not (is_empty plan.blockers) || is_empty plan.changes)
        (str "ready REST plan is internally inconsistent")
    validate_changes plan.changes false false

  unfoldable pub verify_original_matches_plan : List (RestChange F) → Result (Unit {0})
  verify_original_matches_plan [] = ok tt
  verify_original_matches_plan (RestChange.cpu_governor current target ∷ more) = do
    refuse (not (text_eq current original.governor))
        (str "REST plan governor does not match saved original state")
    verify_original_matches_plan more
  verify_original_matches_plan (RestChange.cpu_max_frequency_mhz current target ∷ more) = do
    refuse (not (approximately_equal current original.scaling_max_mhz))
        (str "REST plan maximum frequency does not match saved original state")
    verify_original_matches_plan more

module _ {S F : Type 0} ⦃f : F32 F⦄ (sys : Sysfs S) (root : FilePath) where
  unfoldable pub verify_live_matches_plan : List (RestChange F) → S → Result (Unit {0})
  verify_live_matches_plan [] s = ok tt
  verify_live_matches_plan (RestChange.cpu_governor current target ∷ more) s = do
    verify_text sys (cpufreq_path root governor_file) current s
    verify_live_matches_plan more s
  verify_live_matches_plan (RestChange.cpu_max_frequency_mhz current target ∷ more) s = do
    verify_frequency sys (cpufreq_path root max_freq_file) current s
    verify_live_matches_plan more s
