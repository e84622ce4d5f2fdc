-- ===== src/Drivers/LinuxRest/Apply.antt =====
-- linux_rest.rs, `apply`, `apply_change` and `rollback`.
pub mod Accepted
pub mod Outcomes
use nordfir.Base.{
  ◌≡◌, Bool, true, false, List, [], ◌∷◌, Text, str, ◌++◌, Result, ok, err, ◌>>=◌, ◌>>◌, map_ok,
}
use nordfir.Base.Io.{Io, continue, lift, fail, pure}
use nordfir.Float.{F32}
use nordfir.Format.{FilePath}
use nordfir.State.OriginalPower.{OriginalPowerState}
use nordfir.Energy.RestPlan.{RestChange, RestChangePlan, RestPlanStatus}
use nordfir.Drivers.Transaction.{Steps, run}
use nordfir.Drivers.LinuxRest.{
  Sysfs, RestApplyReport, cpufreq_path, governor_file, max_freq_file, verify_text, verify_frequency,
  write_and_verify_text, write_and_verify_frequency,
}
use nordfir.Drivers.LinuxRest.Checks.{
  validate_plan, verify_original_matches_plan, verify_live_matches_plan,
}

-- A check of the files in front of a write.
unfoldable pub after : {S : Type 0} → (S → Result (Unit {0})) → Io S (Unit {0}) → Io S (Unit {0})
after check op s = continue (check s) (λ _. op) s

abbrev pub apply_report : {F : Type 0} → List (RestChange F) → RestApplyReport F
apply_report changes = record { applied = changes }

module _ {S F : Type 0} ⦃f : F32 F⦄ (sys : Sysfs S) (root : FilePath) where
  unfoldable pub apply_change : RestChange F → Io S (Unit {0})
  apply_change (RestChange.cpu_governor current target) =
      after (verify_text sys (cpufreq_path root governor_file) current)
        (write_and_verify_text sys (cpufreq_path root governor_file) target)
  apply_change (RestChange.cpu_max_frequency_mhz current target) =
      after (verify_frequency sys (cpufreq_path root max_freq_file) current)
        (write_and_verify_frequency sys (cpufreq_path root max_freq_file) target)

  module _ (original : OriginalPowerState F) where
    -- The body of the loop of `rollback`.
    unfoldable pub undo_change : RestChange F → Io S (Unit {0})
    undo_change (RestChange.cpu_governor current target) =
        write_and_verify_text sys (cpufreq_path root governor_file) original.governor
    undo_change (RestChange.cpu_max_frequency_mhz current target) =
        write_and_verify_frequency sys (cpufreq_path root max_freq_file) original.scaling_max_mhz

    abbrev pub apply_steps : Steps S (RestChange F)
    apply_steps = record {
      skip = λ _. false;
      act = apply_change;
      undo = undo_change;
      rolled_back = λ e. str "REST apply failed and was rolled back: " ++ e;
      stuck = λ e e'. str "REST apply failed: " ++ e ++ str "; rollback also failed: " ++ e';
    }

    -- The three checks in front of the loop.
    unfoldable pub check_plan : RestChangePlan F → S → Result (Unit {0})
    check_plan plan s = do
      validate_plan original plan
      verify_original_matches_plan original plan.changes
      verify_live_matches_plan sys root plan.changes s

    unfoldable pub apply_changes : List (RestChange F) → Io S (RestApplyReport F)
    apply_changes changes s =
        let (r, s') = run apply_steps changes [] s in (map_ok apply_report r, s')

    unfoldable pub apply_status : RestPlanStatus → RestChangePlan F → Io S (RestApplyReport F)
    apply_status RestPlanStatus.blocked plan s =
        fail (str "refusing to apply a blocked REST plan") s
    apply_status RestPlanStatus.no_changes plan s = pure (apply_report []) s
    apply_status RestPlanStatus.ready plan s =
        continue (check_plan plan s) (λ _. apply_changes plan.changes) s

    unfoldable pub apply : RestChangePlan F → Io S (RestApplyReport F)
    apply plan = apply_status plan.status plan
