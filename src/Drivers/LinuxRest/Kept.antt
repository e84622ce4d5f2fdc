-- ===== src/Drivers/LinuxRest/Kept.antt =====
-- linux_rest.rs: `apply` and `restore_active` change no file but those of the settings.
use nordfir.Base.{
  ◌≡◌, ◌∙◌, ◌≢◌, inl, inr, not, ◌||◌, [], Text, Result, Bool-cases, Result-cases, ◌>>◌,
}
use nordfir.Base.Io.{Io, Keeps, continue}
use nordfir.Float.{F32}
use nordfir.Format.{FilePath}
use nordfir.State.OriginalPower.{OriginalPowerState}
use nordfir.Energy.Capabilities.{PowerCapabilities}
use nordfir.Energy.RestPlan.{RestChange, RestChangePlan, RestPlanStatus}
use nordfir.Drivers.Transaction.Kept.{run-Keeps}
use nordfir.Drivers.LinuxRest.{
  Sysfs, RestoredSetting, LivePowerState, cpufreq_path, governor_file, min_freq_file, max_freq_file,
  verify_text, verify_frequency, write_then, write_and_verify_text, write_and_verify_frequency,
}
use nordfir.Drivers.LinuxRest.Files.{HasSeparateFiles}
use nordfir.Drivers.LinuxRest.Apply.{
  after, apply_change, undo_change, apply_steps, check_plan, apply_changes, apply_status, apply,
}
use nordfir.Drivers.LinuxRest.Restore.{
  restore_setting, undo_setting, restore_order, restore_steps, restore_from, restore_active,
  validate_restore_target, read_live_state,
}

module _ {S : Type 0} (sys : Sysfs S) (root : FilePath) (laws : HasSeparateFiles sys) where
  -- The path is none of the three that the driver writes to.
  abbrev pub IsForeign : FilePath → Type 0
  IsForeign p =
      (p ≢ cpufreq_path root governor_file)
      × (p ≢ cpufreq_path root min_freq_file)
      × (p ≢ cpufreq_path root max_freq_file)

  -- What is read from the path stays.
  abbrev pub IsSame : FilePath → Result Text → S → Type 0
  IsSame p r s = sys.read p s ≡ r

  write_text-Keeps :
      (p q : FilePath) (r : Result Text) (value : Text)
      → p ≢ q
      → Keeps (IsSame p r) (write_and_verify_text sys q value)
  unfolding write_and_verify_text write_then
  write_text-Keeps p q r value d s h = laws.read-write p q value s d ∙ h

  after-Keeps :
      (p : FilePath) (r : Result Text) (check : S → Result (Unit {0})) (op : Io S (Unit {0}))
      → Keeps (IsSame p r) op
      → Keeps (IsSame p r) (after check op)
  unfolding after
  after-Keeps p r check op keep s h = elim (Result-cases (check s)) [
    | inl (_, e) ↦ rw (e, continue) (keep s h)
    | inr (_, e) ↦ rw (e, continue) h
  ]

  module _ {F : Type 0} ⦃f : F32 F⦄ (p : FilePath) (r : Result Text) (foreign : IsForeign p) where
    write_frequency-Keeps :
        (q : FilePath) (value : F)
        → p ≢ q
        → Keeps (IsSame p r) (write_and_verify_frequency sys q value)
    unfolding write_and_verify_frequency write_then
    write_frequency-Keeps q value d s h =
        elim (Bool-cases (not (f.is_finite value) || f.le value (f.of_ℕ 0))) [
          | inl e ↦ rw (e, write_and_verify_frequency) h
          | inr e ↦ rw (e, write_and_verify_frequency) (laws.read-write p q _ s d ∙ h)
        ]

    apply_change-Keeps : (c : RestChange F) → Keeps (IsSame p r) (apply_change sys root c)
    unfolding apply_change
    apply_change-Keeps (RestChange.cpu_governor current target) =
        after-Keeps p r (verify_text sys (cpufreq_path root governor_file) current) _
          (write_text-Keeps p (cpufreq_path root governor_file) r target foreign.0)
    apply_change-Keeps (RestChange.cpu_max_frequency_mhz current target) =
        after-Keeps p r (verify_frequency sys (cpufreq_path root max_freq_file) current) _
          (write_frequency-Keeps (cpufreq_path root max_freq_file) target foreign.2)

    undo_change-Keeps :
        (o : OriginalPowerState F) (c : RestChange F)
        → Keeps (IsSame p r) (undo_change sys root o c)
    unfolding undo_change
    undo_change-Keeps o (RestChange.cpu_governor current target) =
        write_text-Keeps p (cpufreq_path root governor_file) r o.governor foreign.0
    undo_change-Keeps o (RestChange.cpu_max_frequency_mhz current target) =
        write_frequency-Keeps (cpufreq_path root max_freq_file) o.scaling_max_mhz foreign.2

    apply_status-Keeps :
        (o : OriginalPowerState F) (status : RestPlanStatus) (plan : RestChangePlan F)
        → Keeps (IsSame p r) (apply_status sys root o status plan)
    unfolding apply_status apply_changes
    apply_status-Keeps o RestPlanStatus.blocked plan s h = h
    apply_status-Keeps o RestPlanStatus.no_changes plan s h = h
    apply_status-Keeps o RestPlanStatus.ready plan s h =
        elim (Result-cases (check_plan sys root o plan s)) [
          | inl (_, e) ↦
              rw (e, continue)
                (run-Keeps (apply_steps sys root o) (IsSame p r) apply_change-Keeps
                  (undo_change-Keeps o) plan.changes [] s h)
          | inr (_, e) ↦ rw (e, continue) h
        ]

    pub apply-Keeps :
        (o : OriginalPowerState F) (plan : RestChangePlan F)
        → Keeps (IsSame p r) (apply sys root o plan)
    unfolding apply
    apply-Keeps o plan = apply_status-Keeps o plan.status plan

    restore_setting-Keeps :
        (o : OriginalPowerState F) (i : RestoredSetting)
        → Keeps (IsSame p r) (restore_setting sys root o i)
    unfolding restore_setting
    restore_setting-Keeps o RestoredSetting.cpu_maximum_frequency =
        write_frequency-Keeps (cpufreq_path root max_freq_file) o.scaling_max_mhz foreign.2
    restore_setting-Keeps o RestoredSetting.cpu_minimum_frequency =
        write_frequency-Keeps (cpufreq_path root min_freq_file) o.scaling_min_mhz foreign.1
    restore_setting-Keeps o RestoredSetting.cpu_governor =
        write_text-Keeps p (cpufreq_path root governor_file) r o.governor foreign.0

    undo_setting-Keeps :
        (live : LivePowerState F) (i : RestoredSetting)
        → Keeps (IsSame p r) (undo_setting sys root live i)
    unfolding undo_setting
    undo_setting-Keeps live RestoredSetting.cpu_maximum_frequency =
        write_frequency-Keeps (cpufreq_path root max_freq_file) live.scaling_max_mhz foreign.2
    undo_setting-Keeps live RestoredSetting.cpu_minimum_frequency =
        write_frequency-Keeps (cpufreq_path root min_freq_file) live.scaling_min_mhz foreign.1
    undo_setting-Keeps live RestoredSetting.cpu_governor =
        write_text-Keeps p (cpufreq_path root governor_file) r live.governor foreign.0

    pub restore_active-Keeps :
        (o : OriginalPowerState F) (c : PowerCapabilities F)
        → Keeps (IsSame p r) (restore_active sys root o c)
    unfolding restore_active restore_from
    restore_active-Keeps o c s h =
        elim (Result-cases (validate_restore_target o c >> read_live_state {F = F} sys root s)) [
          | inl (live, e) ↦
              rw (e, continue)
                (run-Keeps (restore_steps sys root o live) (IsSame p r) (restore_setting-Keeps o)
                  (undo_setting-Keeps live) restore_order [] s h)
          | inr (_, e) ↦ rw (e, continue) h
        ]
