-- ===== src/Drivers/LinuxRest/Restore.antt =====
-- linux_rest.rs, `restore_active` and what it calls.
pub mod Settings
pub mod Outcomes
use nordfir.Base.{
  ◌≡◌, Bool, true, false, not, ◌||◌, Option, none, some, List, [], ◌∷◌, Text, str, ◌++◌, text_eq,
  any, Result, ok, err, ◌>>=◌, ◌>>◌, refuse, map_ok,
}
use nordfir.Base.Io.{Io, continue}
use nordfir.Float.{F32}
use nordfir.Format.{FilePath}
use nordfir.State.OriginalPower.{OriginalPowerState}
use nordfir.Energy.Capabilities.{PowerCapabilities}
use nordfir.Drivers.Transaction.{Steps, run}
use nordfir.Drivers.LinuxRest.{
  Sysfs, RestoredSetting, ActiveRestoreReport, LivePowerState, cpufreq_path, governor_file,
  min_freq_file, max_freq_file, read_trimmed, read_frequency, write_and_verify_text,
  write_and_verify_frequency, approximately_equal,
}

module _ {F : Type 0} ⦃f : F32 F⦄ where
  unfoldable pub validate_limits : OriginalPowerState F → Option F → Option F → Result (Unit {0})
  validate_limits o (some lo) (some hi) =
      refuse
        (f.lt o.scaling_min_mhz lo
          || f.lt hi o.scaling_max_mhz
          || f.lt o.scaling_max_mhz o.scaling_min_mhz)
        (str "saved original frequencies are outside hardware limits")
  validate_limits o _ _ = err (str "cannot validate saved frequencies against hardware limits")

  unfoldable pub validate_restore_target :
      OriginalPowerState F → PowerCapabilities F → Result (Unit {0})
  validate_restore_target o c = do
    refuse (not c.cpufreq_available) (str "cannot restore ACTIVE state without Linux cpufreq")
    refuse (not (any (λ g. text_eq g o.governor) c.available_governors))
        (str "saved original governor is no longer available")
    validate_limits o c.hardware_min_mhz c.hardware_max_mhz

  unfoldable pub setting_matches : OriginalPowerState F → LivePowerState F → RestoredSetting → Bool
  setting_matches o live RestoredSetting.cpu_maximum_frequency =
      approximately_equal live.scaling_max_mhz o.scaling_max_mhz
  setting_matches o live RestoredSetting.cpu_minimum_frequency =
      approximately_equal live.scaling_min_mhz o.scaling_min_mhz
  setting_matches o live RestoredSetting.cpu_governor = text_eq live.governor o.governor

abbrev pub restore_order : List RestoredSetting
restore_order =
    RestoredSetting.cpu_maximum_frequency ∷ RestoredSetting.cpu_minimum_frequency
    ∷ RestoredSetting.cpu_governor ∷ []

abbrev pub restore_report : List RestoredSetting → ActiveRestoreReport
restore_report settings = record { restored = settings }

module _ {S F : Type 0} ⦃f : F32 F⦄ (sys : Sysfs S) (root : FilePath) where
  unfoldable pub read_live_state : S → Result (LivePowerState F)
  read_live_state s = do
    governor ← read_trimmed sys (cpufreq_path root governor_file) s
    lo ← read_frequency sys (cpufreq_path root min_freq_file) s
    hi ← read_frequency sys (cpufreq_path root max_freq_file) s
    ok (record { governor = governor; scaling_min_mhz = lo; scaling_max_mhz = hi })

  unfoldable pub restore_setting : OriginalPowerState F → RestoredSetting → Io S (Unit {0})
  restore_setting o RestoredSetting.cpu_maximum_frequency =
      write_and_verify_frequency sys (cpufreq_path root max_freq_file) o.scaling_max_mhz
  restore_setting o RestoredSetting.cpu_minimum_frequency =
      write_and_verify_frequency sys (cpufreq_path root min_freq_file) o.scaling_min_mhz
  restore_setting o RestoredSetting.cpu_governor =
      write_and_verify_text sys (cpufreq_path root governor_file) o.governor

  -- The body of the loop of `rollback_restore`.
  unfoldable pub undo_setting : LivePowerState F → RestoredSetting → Io S (Unit {0})
  undo_setting live RestoredSetting.cpu_maximum_frequency =
      write_and_verify_frequency sys (cpufreq_path root max_freq_file) live.scaling_max_mhz
  undo_setting live RestoredSetting.cpu_minimum_frequency =
      write_and_verify_frequency sys (cpufreq_path root min_freq_file) live.scaling_min_mhz
  undo_setting live RestoredSetting.cpu_governor =
      write_and_verify_text sys (cpufreq_path root governor_file) live.governor

  abbrev pub restore_steps : OriginalPowerState F → LivePowerState F → Steps S RestoredSetting
  restore_steps o live = record {
    skip = setting_matches o live;
    act = restore_setting o;
    undo = undo_setting live;
    rolled_back = λ e. str "ACTIVE restore failed and was rolled back: " ++ e;
    stuck = λ e e'. str "ACTIVE restore failed: " ++ e ++ str "; rollback also failed: " ++ e';
  }

  unfoldable pub restore_from : OriginalPowerState F → LivePowerState F → Io S ActiveRestoreReport
  restore_from o live s =
      let (r, s') = run (restore_steps o live) restore_order [] s in (map_ok restore_report r, s')

  unfoldable pub restore_active :
      OriginalPowerState F → PowerCapabilities F → Io S ActiveRestoreReport
  restore_active o c s =
      continue (validate_restore_target o c >> read_live_state s) (restore_from o) s
