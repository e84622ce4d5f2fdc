-- ===== src/Cli/Applied.antt =====
-- main.rs, the operation of apply-rest-local, when it succeeds.
use mathlib.Core.Option.{some-injective}
use mathlib.Core.Path.{subst}
use nordfir.Base.{
  ◌*◌, ◌≡◌, refl, sym, ap, ◌∙◌, ◌⊎◌, inl, inr, some, All, All-map, Text, Result, ok, err,
  Option-cases,
}
use nordfir.Base.Io.{>>=-eq-ok as after-success}
use nordfir.Base.Time.{from_secs}
use nordfir.Float.{F32}
use nordfir.Format.{FilePath}
use nordfir.Files.{FileSystem}
use nordfir.Files.Laws.{IsFileSystem}
use nordfir.Energy.Capabilities.{rest_default}
use nordfir.Energy.RestPlan.{RestChange, RestChangePlan, RestPlanStatus, default_planner, plan}
use nordfir.State.OriginalPower.{OriginalPowerState, decode}
use nordfir.State.Store.{state_path, load_fresh_for_write}
use nordfir.State.Store.Fresh.{IsRecent, load_fresh_safe}
use nordfir.State.Store.Saved.{Holds}
use nordfir.State.PowerProbe.{probe}
use nordfir.Drivers.LinuxRest.{RestApplyReport, cpufreq_path, governor_file, max_freq_file}
use nordfir.Drivers.LinuxRest.Files.{verify_text-eq, verify_frequency-eq}
use nordfir.Drivers.LinuxRest.Kept.{apply-Keeps}
use nordfir.Drivers.LinuxRest.Apply.{apply}
use nordfir.Drivers.LinuxRest.Apply.Accepted.{apply_cases}
use nordfir.Drivers.LinuxRest.Apply.Outcomes.{IsReached, apply_success}
use nordfir.Host.{Host, IsHost, print_lines, print_lines-leaves}
use nordfir.Cli.{audit_log, kernel, local_node, sysfs_root}
use nordfir.Cli.Printing.{rest_plan_lines, applied_lines}
use nordfir.Cli.Paths.{governor, maximum, audit_log-ne-setting}
use nordfir.Cli.Settings.{
  kernel-HasSeparateFiles, IsForeign-of, SettingsKept, verify_text-Holds, verify_frequency-Holds,
}
use nordfir.Cli.Writing.{
  returns, say, apply_planned, apply_if_planned, apply_loaded, apply_operation, is_ready_status,
}

module _ {S F : Type 0} ⦃f : F32 F⦄ (fs : FileSystem S) (laws : IsFileSystem fs) where
  pub IsReached-kept :
      (s s' : S)
      → SettingsKept fs laws s s'
      → (c : RestChange F) → IsReached (kernel fs) sysfs_root c s
      → IsReached (kernel fs) sysfs_root c s'
  IsReached-kept s s' kept (RestChange.cpu_governor current target) h =
      let path = cpufreq_path sysfs_root governor_file in
      let (t, held) = verify_text-Holds fs laws path target s h in
      verify_text-eq (kernel fs) sysfs_root path target s s'
        (kept governor_file t (governor refl) held ∙ sym held)
      ∙ h
  IsReached-kept s s' kept (RestChange.cpu_max_frequency_mhz current target) h =
      let path = cpufreq_path sysfs_root max_freq_file in
      let (t, held) = verify_frequency-Holds fs laws path target s h in
      verify_frequency-eq (kernel fs) sysfs_root path target s s'
        (kept max_freq_file t (maximum refl) held ∙ sym held)
      ∙ h

  -- The plan was carried out, or there was nothing to do and every file is as it was.
  abbrev pub IsCarriedOut : RestChangePlan F → S → S → Type 0
  IsCarriedOut p s s' =
      ((p.status ≡ RestPlanStatus.ready)
        × All (λ c. IsReached (kernel fs) sysfs_root c s') p.changes)
      ⊎ ((p.status ≡ RestPlanStatus.no_changes)
          × ((q : FilePath) (t : Text) → Holds fs laws q t s → Holds fs laws q t s'))

  apply-IsCarriedOut :
      (o : OriginalPowerState F) (p : RestChangePlan F) (s : S) {report : RestApplyReport F}
      → (apply (kernel fs) sysfs_root o p s).0 ≡ ok report
      → IsCarriedOut p s (apply (kernel fs) sysfs_root o p s).1
  apply-IsCarriedOut o p s h = elim (apply_cases (kernel fs) sysfs_root o p s) [
    | inl (e, x) ↦ let failed = sym (ap (λ y. y.0) x) ∙ h in cc
    | inr (inl (idle, x)) ↦ inr (idle, λ q t held. subst (λ y. Holds fs laws q t y.1) (sym x) held)
    | inr (inr (accepted, x)) ↦ inl (
      accepted.0,
      (apply_success (kernel fs) sysfs_root (kernel-HasSeparateFiles fs laws) o p s accepted.0 h).1,
    )
  ]

  -- What happens before and after that leaves the files does not matter.
  IsCarriedOut-between :
      (p : RestChangePlan F) (s printed after end : S)
      → ((q : FilePath) → fs.read_to_string q printed ≡ fs.read_to_string q s)
      → ((q : FilePath) → fs.read_to_string q end ≡ fs.read_to_string q after)
      → IsCarriedOut p printed after
      → IsCarriedOut p s end
  IsCarriedOut-between p s printed after end before leaves (inl (ready, reached)) = inl (
    ready,
    All-map p.changes (IsReached-kept after end (λ name t _ held. leaves _ ∙ held)) reached,
  )
  IsCarriedOut-between p s printed after end before leaves (inr (idle, kept)) =
      inr (idle, λ q t held. leaves q ∙ kept q t (before q ∙ held))

module _ {S : Type 0} (F : Type 0) ⦃f : F32 F⦄ (host : Host S) (laws : IsFileSystem host.files)
    (quiet : IsHost host) (directory : FilePath) where
  planned-ok :
      (o : OriginalPowerState F) (p : RestChangePlan F) (s : S)
      → (apply_planned F host directory o p s).0 ≡ ok tt
      → IsCarriedOut host.files laws p s (apply_planned F host directory o p s).1
        × ((t : Text)
            → Holds host.files laws (audit_log directory) t s
            → Holds host.files laws
                (audit_log directory)
                t
                (apply_planned F host directory o p s).1)
  unfolding apply_planned
  planned-ok o p s h =
      let fs = host.files in
      let shown = rest_plan_lines p (is_ready_status p.status) in
      let printed = print_lines host shown s in
      let run = apply (kernel fs) sysfs_root o p in
      let (report, good, step) =
        after-success run (λ report. say host (applied_lines report)) printed h in
      let after = (run printed).1 in
      let end = print_lines host (applied_lines report) after in
      let before = print_lines-leaves host quiet shown in
      let leaves = λ (q : FilePath). print_lines-leaves host quiet (applied_lines report) q after in
      subst
        (λ x.
          IsCarriedOut fs laws p s x.1
          × ((t : Text)
              → Holds fs laws (audit_log directory) t s
              → Holds fs laws (audit_log directory) t x.1))
        (sym step)
        (
          IsCarriedOut-between fs laws p s printed after end (λ q. before q s) leaves
              (apply-IsCarriedOut fs laws o p printed good),
          λ t held.
              leaves (audit_log directory)
              ∙ apply-Keeps (kernel fs) sysfs_root (kernel-HasSeparateFiles fs laws)
                  (audit_log directory) (ok t)
                  (IsForeign-of fs laws (audit_log directory)
                    (audit_log-ne-setting directory sysfs_root))
                  o p printed (before (audit_log directory) s ∙ held),
        )

  -- A fresh snapshot was loaded, the default plan for what is seen was made from the profile for REST,
  -- and it was carried out. The log stays.
  abbrev pub IsApplied : Text → S → S → Type 0
  IsApplied v s s' =
      (o : OriginalPowerState F) × (c : Text) × (p : RestChangePlan F) × Holds host.files laws
        (state_path directory local_node) c s
      × (decode c ≡ ok o)
      × IsRecent host.files directory o (host.now s).0 (from_secs (15 * 60))
      × (plan default_planner (probe host.files sysfs_root (host.now s).1) rest_default ≡ some p)
      × IsCarriedOut host.files laws p (host.now s).1 s'
      × Holds host.files laws (audit_log directory) v s'

  -- After a success there was a snapshot and a plan, and the plan was carried out.
  apply_loaded-ok :
      (r : Result (OriginalPowerState F)) (seen : S)
      → (apply_loaded F host directory r seen).0 ≡ some (ok tt)
      → (o : OriginalPowerState F) × (p : RestChangePlan F) × (r ≡ ok o)
        × (plan default_planner (probe host.files sysfs_root seen) rest_default ≡ some p)
        × (apply_loaded F host directory r seen ≡ returns (apply_planned F host directory o p) seen)
        × ((apply_planned F host directory o p seen).0 ≡ ok tt)
  unfolding apply_loaded apply_if_planned
  apply_loaded-ok (err e) seen h = cc
  apply_loaded-ok (ok o) seen h =
      elim (Option-cases
        (plan {F = F} default_planner (probe host.files sysfs_root seen) rest_default)) [
          | inl panic ↦
              let failed =
                sym (ap (λ r. (apply_if_planned F host directory o r seen).0) panic) ∙ h in
              cc
          | inr (p, made) ↦
              let step = ap (λ r. apply_if_planned F host directory o r seen) made in
              (o, p, refl, made, step, some-injective _ _ (sym (ap (λ x. x.0) step) ∙ h))
        ]

  pub apply_operation-ok :
      (v : Text) (s : S)
      → Holds host.files laws (audit_log directory) v s
      → (apply_operation F host directory s).0 ≡ some (ok tt)
      → IsApplied v s (apply_operation F host directory s).1
  unfolding apply_operation
  apply_operation-ok v s log h =
      let fs = host.files in
      let seen = (host.now s).1 in
      let load =
        load_fresh_for_write {F = F} fs directory local_node (host.now s).0 (from_secs (15 * 60))
          seen in
      let (o, p, loaded, made, step, good) = apply_loaded-ok load seen h in
      let ((_, (c, held, decoded), _, _), _, recent) =
        load_fresh_safe fs directory local_node (host.now s).0 (from_secs (15 * 60)) seen loaded in
      let (carried, kept) = planned-ok o p seen good in
      subst (λ x. IsApplied v s x.1) (sym step)
        (
          o,
          c,
          p,
          sym (quiet.now_leaves _ s) ∙ held,
          decoded,
          recent,
          made,
          carried,
          kept v (quiet.now_leaves _ s ∙ log),
        )
