-- ===== src/Tests/Driver.antt =====
-- The REST driver at concrete files.
use nordfir.Base.{
  ℕ, ◌≡◌, refl, ◌≢◌, ◌⊎◌, inl, inr, Bool, true, false, Option, none, some, List, [], ◌∷◌, ◌++◌,
  Text, str, Result, ok, err, All,
}
use nordfir.Format.{FilePath}
use nordfir.Drivers.LinuxRest.{
  LivePowerState, RestApplyReport, RestoredSetting, cpufreq_path, governor_file, min_freq_file,
  max_freq_file,
}
use nordfir.Drivers.LinuxRest.Files.{governor_file-ne-max_freq_file}
use nordfir.Drivers.LinuxRest.Apply.{apply, apply_report, apply_changes}
use nordfir.Drivers.LinuxRest.Apply.Accepted.{IsAccepted, IsRefused, IsIdle, apply_cases}
use nordfir.Drivers.LinuxRest.Apply.Outcomes.{IsReached, IsUndone, apply_success, apply_rolled_back}
use nordfir.Drivers.LinuxRest.Restore.{
  read_live_state, restore_steps, restore_active, restore_report, restore_order,
}
use nordfir.Drivers.LinuxRest.Restore.Outcomes
use nordfir.Drivers.LinuxRest.Restore.Settings
use nordfir.Drivers.Transaction.Success.{chosen}
use nordfir.Drivers.LinuxRest.Restore.Outcomes.{restore_success, restore_again, restore_rolled_back}
use nordfir.Tests.Milli.{Milli, milli}
use nordfir.Tests.Energy.{laptop, laptop_plan, saved}
use nordfir.Tests.Disk.{Disk, put, sysfs, sysfs_separate}

abbrev root : FilePath
root = str "/sys"

-- What the three files hold.
abbrev files : Text → Text → Text → Disk
files governor lo hi =
    put (str "/sys/devices/system/cpu/cpu0/cpufreq/scaling_governor") (some governor) (
      put (str "/sys/devices/system/cpu/cpu0/cpufreq/scaling_min_freq") (some lo)
        (put (str "/sys/devices/system/cpu/cpu0/cpufreq/scaling_max_freq") (some hi) (λ _. none)))

abbrev awake : Disk
awake = files (str "performance\n") (str "400000\n") (str "4000000\n")

abbrev resting : Disk
resting = files (str "powersave\n") (str "400000\n") (str "1600000\n")

apply_cases_example :
    IsRefused ⦃f = milli⦄ (sysfs []) root saved laptop_plan awake
    ⊎ IsIdle ⦃f = milli⦄ (sysfs []) root saved laptop_plan awake
    ⊎ (IsAccepted ⦃f = milli⦄ (sysfs []) root saved laptop_plan awake
        × (apply ⦃f = milli⦄ (sysfs []) root saved laptop_plan awake
            ≡ apply_changes ⦃f = milli⦄ (sysfs []) root saved laptop_plan.changes awake))
apply_cases_example = apply_cases ⦃f = milli⦄ (sysfs []) root saved laptop_plan awake

applied :
    (apply ⦃f = milli⦄ (sysfs []) root saved laptop_plan awake).0
    ≡ ok (apply_report laptop_plan.changes)
unfolding apply nordfir.Drivers.LinuxRest.Apply.apply_status
    nordfir.Drivers.LinuxRest.Apply.check_plan nordfir.Drivers.LinuxRest.Apply.after
    nordfir.Drivers.LinuxRest.Apply.apply_change nordfir.Drivers.LinuxRest.Apply.undo_change
    apply_changes nordfir.Drivers.LinuxRest.Checks.validate_plan
    nordfir.Drivers.LinuxRest.Checks.validate_changes
    nordfir.Drivers.LinuxRest.Checks.verify_original_matches_plan
    nordfir.Drivers.LinuxRest.Checks.verify_live_matches_plan nordfir.Drivers.Transaction.run
    nordfir.Drivers.Transaction.abandon nordfir.Drivers.Transaction.rollback
    nordfir.Drivers.Transaction.undo_all nordfir.Drivers.Transaction.finish str nordfir.Base.text_eq
    nordfir.Drivers.LinuxRest.cpufreq cpufreq_path governor_file max_freq_file min_freq_file
    nordfir.Drivers.LinuxRest.approximately_equal nordfir.Drivers.LinuxRest.read_trimmed
    nordfir.Drivers.LinuxRest.verify_text nordfir.Drivers.LinuxRest.write_then
    nordfir.Drivers.LinuxRest.write_and_verify_text nordfir.Drivers.LinuxRest.read_frequency
    nordfir.Drivers.LinuxRest.verify_frequency nordfir.Drivers.LinuxRest.write_and_verify_frequency
    nordfir.Format.join nordfir.Format.with_separator nordfir.Format.trim nordfir.Format.trim_start
    nordfir.Format.trim_end nordfir.Format.is_whitespace nordfir.Format.decimal
    nordfir.Format.parse_unsigned nordfir.Format.parse_radix nordfir.Format.parse_digits
    nordfir.Format.push_digit nordfir.Format.to_digit nordfir.Format.is_digit
applied = refl

apply_success_example :
    (apply_report laptop_plan.changes ≡ apply_report laptop_plan.changes)
    × All
        (λ c.
          IsReached ⦃f = milli⦄
            (sysfs [])
            root
            c
            (apply ⦃f = milli⦄ (sysfs []) root saved laptop_plan awake).1)
        laptop_plan.changes
apply_success_example =
    apply_success ⦃f = milli⦄ (sysfs []) root (sysfs_separate []) saved laptop_plan awake refl
      applied

-- A kernel that refuses the new ceiling.
abbrev refused : Text
refused = str "1600000"

accepted : IsAccepted ⦃f = milli⦄ (sysfs refused) root saved laptop_plan awake
unfolding str nordfir.Base.text_eq nordfir.Drivers.LinuxRest.cpufreq cpufreq_path governor_file
    max_freq_file min_freq_file nordfir.Drivers.LinuxRest.approximately_equal
    nordfir.Drivers.LinuxRest.read_trimmed nordfir.Drivers.LinuxRest.verify_text
    nordfir.Drivers.LinuxRest.write_then nordfir.Drivers.LinuxRest.write_and_verify_text
    nordfir.Drivers.LinuxRest.read_frequency nordfir.Drivers.LinuxRest.verify_frequency
    nordfir.Drivers.LinuxRest.write_and_verify_frequency nordfir.Format.join
    nordfir.Format.with_separator nordfir.Format.trim nordfir.Format.trim_start
    nordfir.Format.trim_end nordfir.Format.is_whitespace nordfir.Format.decimal
    nordfir.Format.parse_unsigned nordfir.Format.parse_radix nordfir.Format.parse_digits
    nordfir.Format.push_digit nordfir.Format.to_digit nordfir.Format.is_digit
accepted = (
  refl,
  refl,
  (λ e. cc),
  ((governor_file-ne-max_freq_file, tt), (tt, tt)),
  (refl, ((refl, refl, refl, refl), tt)),
  (refl, (refl, tt)),
  (refl, (refl, tt)),
)

abbrev reason : Text
reason = str "write /sys/devices/system/cpu/cpu0/cpufreq/scaling_max_freq: refused"

rolled_back :
    (apply ⦃f = milli⦄ (sysfs refused) root saved laptop_plan awake).0
    ≡ err (str "REST apply failed and was rolled back: " ++ reason)
unfolding apply nordfir.Drivers.LinuxRest.Apply.apply_status
    nordfir.Drivers.LinuxRest.Apply.check_plan nordfir.Drivers.LinuxRest.Apply.after
    nordfir.Drivers.LinuxRest.Apply.apply_change nordfir.Drivers.LinuxRest.Apply.undo_change
    apply_changes nordfir.Drivers.LinuxRest.Checks.validate_plan
    nordfir.Drivers.LinuxRest.Checks.validate_changes
    nordfir.Drivers.LinuxRest.Checks.verify_original_matches_plan
    nordfir.Drivers.LinuxRest.Checks.verify_live_matches_plan nordfir.Drivers.Transaction.run
    nordfir.Drivers.Transaction.abandon nordfir.Drivers.Transaction.rollback
    nordfir.Drivers.Transaction.undo_all nordfir.Drivers.Transaction.finish str nordfir.Base.text_eq
    nordfir.Drivers.LinuxRest.cpufreq cpufreq_path governor_file max_freq_file min_freq_file
    nordfir.Drivers.LinuxRest.approximately_equal nordfir.Drivers.LinuxRest.read_trimmed
    nordfir.Drivers.LinuxRest.verify_text nordfir.Drivers.LinuxRest.write_then
    nordfir.Drivers.LinuxRest.write_and_verify_text nordfir.Drivers.LinuxRest.read_frequency
    nordfir.Drivers.LinuxRest.verify_frequency nordfir.Drivers.LinuxRest.write_and_verify_frequency
    nordfir.Format.join nordfir.Format.with_separator nordfir.Format.trim nordfir.Format.trim_start
    nordfir.Format.trim_end nordfir.Format.is_whitespace nordfir.Format.decimal
    nordfir.Format.parse_unsigned nordfir.Format.parse_radix nordfir.Format.parse_digits
    nordfir.Format.push_digit nordfir.Format.to_digit nordfir.Format.is_digit
rolled_back = refl

apply_rolled_back_example :
    All
      (IsUndone ⦃f = milli⦄
        (sysfs refused)
        root
        (sysfs_separate refused)
        saved
        (apply ⦃f = milli⦄ (sysfs refused) root saved laptop_plan awake).1)
      laptop_plan.changes
apply_rolled_back_example =
    apply_rolled_back ⦃f = milli⦄ (sysfs refused) root (sysfs_separate refused) saved laptop_plan
      awake reason accepted rolled_back

restored :
    (restore_active ⦃f = milli⦄ (sysfs []) root saved laptop resting).0
    ≡ ok
        (restore_report (RestoredSetting.cpu_maximum_frequency ∷ RestoredSetting.cpu_governor ∷ []))
unfolding restore_active nordfir.Drivers.LinuxRest.Restore.restore_from
    nordfir.Drivers.LinuxRest.Restore.validate_restore_target
    nordfir.Drivers.LinuxRest.Restore.validate_limits
    nordfir.Drivers.LinuxRest.Restore.read_live_state
    nordfir.Drivers.LinuxRest.Restore.setting_matches
    nordfir.Drivers.LinuxRest.Restore.restore_setting nordfir.Drivers.LinuxRest.Restore.undo_setting
    nordfir.Drivers.Transaction.run nordfir.Drivers.Transaction.abandon
    nordfir.Drivers.Transaction.rollback nordfir.Drivers.Transaction.undo_all
    nordfir.Drivers.Transaction.finish str nordfir.Base.text_eq nordfir.Drivers.LinuxRest.cpufreq
    cpufreq_path governor_file max_freq_file min_freq_file
    nordfir.Drivers.LinuxRest.approximately_equal nordfir.Drivers.LinuxRest.read_trimmed
    nordfir.Drivers.LinuxRest.verify_text nordfir.Drivers.LinuxRest.write_then
    nordfir.Drivers.LinuxRest.write_and_verify_text nordfir.Drivers.LinuxRest.read_frequency
    nordfir.Drivers.LinuxRest.verify_frequency nordfir.Drivers.LinuxRest.write_and_verify_frequency
    nordfir.Format.join nordfir.Format.with_separator nordfir.Format.trim nordfir.Format.trim_start
    nordfir.Format.trim_end nordfir.Format.is_whitespace nordfir.Format.decimal
    nordfir.Format.parse_unsigned nordfir.Format.parse_radix nordfir.Format.parse_digits
    nordfir.Format.push_digit nordfir.Format.to_digit nordfir.Format.is_digit
restored = refl

restore_success_example :
    ((live : LivePowerState Milli) × (read_live_state ⦃f = milli⦄ (sysfs []) root resting ≡ ok live)
      × (restore_report (RestoredSetting.cpu_maximum_frequency ∷ RestoredSetting.cpu_governor ∷ [])
          ≡ restore_report
              (chosen (restore_steps ⦃f = milli⦄ (sysfs []) root saved live) restore_order)))
    × All
        (λ x.
          Settings.IsOriginal ⦃f = milli⦄
            (sysfs [])
            root
            saved
            x
            (restore_active ⦃f = milli⦄ (sysfs []) root saved laptop resting).1)
        restore_order
restore_success_example =
    restore_success ⦃f = milli⦄ (sysfs []) root saved laptop (sysfs_separate []) resting restored

restore_again_example :
    restore_active ⦃f = milli⦄
      (sysfs [])
      root
      saved
      laptop
      (restore_active ⦃f = milli⦄ (sysfs []) root saved laptop resting).1
    ≡ (ok (restore_report []), (restore_active ⦃f = milli⦄ (sysfs []) root saved laptop resting).1)
restore_again_example =
    restore_again ⦃f = milli⦄ (sysfs []) root saved laptop (sysfs_separate []) resting restored

-- A kernel that refuses the old governor.
abbrev why : Text
why = str "write /sys/devices/system/cpu/cpu0/cpufreq/scaling_governor: refused"

withdrawn :
    (restore_active ⦃f = milli⦄ (sysfs (str "performance")) root saved laptop resting).0
    ≡ err (str "ACTIVE restore failed and was rolled back: " ++ why)
unfolding restore_active nordfir.Drivers.LinuxRest.Restore.restore_from
    nordfir.Drivers.LinuxRest.Restore.validate_restore_target
    nordfir.Drivers.LinuxRest.Restore.validate_limits
    nordfir.Drivers.LinuxRest.Restore.read_live_state
    nordfir.Drivers.LinuxRest.Restore.setting_matches
    nordfir.Drivers.LinuxRest.Restore.restore_setting nordfir.Drivers.LinuxRest.Restore.undo_setting
    nordfir.Drivers.Transaction.run nordfir.Drivers.Transaction.abandon
    nordfir.Drivers.Transaction.rollback nordfir.Drivers.Transaction.undo_all
    nordfir.Drivers.Transaction.finish str nordfir.Base.text_eq nordfir.Drivers.LinuxRest.cpufreq
    cpufreq_path governor_file max_freq_file min_freq_file
    nordfir.Drivers.LinuxRest.approximately_equal nordfir.Drivers.LinuxRest.read_trimmed
    nordfir.Drivers.LinuxRest.verify_text nordfir.Drivers.LinuxRest.write_then
    nordfir.Drivers.LinuxRest.write_and_verify_text nordfir.Drivers.LinuxRest.read_frequency
    nordfir.Drivers.LinuxRest.verify_frequency nordfir.Drivers.LinuxRest.write_and_verify_frequency
    nordfir.Format.join nordfir.Format.with_separator nordfir.Format.trim nordfir.Format.trim_start
    nordfir.Format.trim_end nordfir.Format.is_whitespace nordfir.Format.decimal
    nordfir.Format.parse_unsigned nordfir.Format.parse_radix nordfir.Format.parse_digits
    nordfir.Format.push_digit nordfir.Format.to_digit nordfir.Format.is_digit
withdrawn = refl

restore_rolled_back_example :
    All
      (Outcomes.IsUndone ⦃f = milli⦄
        (sysfs (str "performance"))
        root
        saved
        laptop
        (sysfs_separate (str "performance"))
        resting
        (restore_active ⦃f = milli⦄ (sysfs (str "performance")) root saved laptop resting).1)
      restore_order
restore_rolled_back_example =
    restore_rolled_back ⦃f = milli⦄ (sysfs (str "performance")) root saved laptop
      (sysfs_separate (str "performance")) resting why withdrawn
