-- ===== src/Drivers/LinuxRest/Apply/Outcomes.antt =====
-- linux_rest.rs: what `apply` leaves when it succeeds, and when it says that it rolled back.
use mathlib.Core.Path.{subst}
use nordfir.Base.{
  ◌≡◌, refl, sym, ap, ◌∙◌, ◌≢◌, ◌⊎◌, inl, inr, true, false, List, [], ◌∷◌, ◌++◌, Text, str, clash,
  append-ne, Result, ok, err, Result-cases, ok-injective, err-injective, All, All-map, map_ok,
}
use nordfir.Base.Io.{Io, continue}
use nordfir.Float.{F32}
use nordfir.Format.{FilePath}
use nordfir.State.OriginalPower.{OriginalPowerState}
use nordfir.Energy.RestPlan.{RestChange, RestChangePlan, RestPlanStatus}
use nordfir.Drivers.Transaction.{run}
use nordfir.Drivers.Transaction.Success.{NoRepeat, KeepsOthers, chosen, run-Holds}
use nordfir.Drivers.Transaction.Rollback.{AreApart-nil, run-Back}
use nordfir.Drivers.LinuxRest.{
  Sysfs, RestApplyReport, cpufreq_path, governor_file, max_freq_file, verify_text, verify_frequency,
}
use nordfir.Drivers.LinuxRest.Files.{
  HasSeparateFiles, contents, contents-write_text, contents-write_frequency, write_text-verified,
  write_frequency-verified, verify_text-eq, verify_frequency-eq,
}
use nordfir.Drivers.LinuxRest.Apply.{
  after, apply, apply_change, undo_change, apply_steps, apply_changes, apply_report,
}
use nordfir.Drivers.LinuxRest.Apply.Accepted.{file_of, IsCurrent, IsAccepted, apply_cases}

module _ {S : Type 0} (check : S → Result (Unit {0})) (op : Io S (Unit {0})) where
  -- A check does not change the state.
  after-cases : (s : S) → ((e : Text) × (after check op s ≡ (err e, s))) ⊎ (after check op s ≡ op s)
  unfolding after
  after-cases s = elim (Result-cases (check s)) [
    | inl (u, good) ↦ inr (ap (λ (x : Result (Unit {0})). continue x (λ _. op) s) good)
    | inr (e, bad) ↦ inl (e, ap (λ (x : Result (Unit {0})). continue x (λ _. op) s) bad)
  ]

  after-keeps : (Q : S → Type 0) (s : S) → Q s → Q (op s).1 → Q (after check op s).1
  after-keeps Q s h h' = elim (after-cases s) [
    | inl (e, x) ↦ subst (λ y. Q y.1) (sym x) h
    | inr x ↦ subst (λ y. Q y.1) (sym x) h'
  ]

  after-achieves :
      (Q : S → Type 0) (s : S)
      → ((op s).0 ≡ ok tt → Q (op s).1)
      → (after check op s).0 ≡ ok tt
      → Q (after check op s).1
  after-achieves Q s h e = elim (after-cases s) [
    | inl (t, x) ↦ let bad = sym (ap (λ y. y.0) x) ∙ e in cc
    | inr x ↦ subst (λ y. Q y.1) (sym x) (h (sym (ap (λ y. y.0) x) ∙ e))
  ]

module _ {S F : Type 0} ⦃f : F32 F⦄ (sys : Sysfs S) (root : FilePath) where
  -- The file reads back as the change's target.
  abbrev pub IsReached : RestChange F → S → Type 0
  IsReached (RestChange.cpu_governor current target) s =
      verify_text sys (cpufreq_path root governor_file) target s ≡ ok tt
  IsReached (RestChange.cpu_max_frequency_mhz current target) s =
      verify_frequency sys (cpufreq_path root max_freq_file) target s ≡ ok tt

  apply_change-achieves :
      (c : RestChange F) (s : S)
      → (apply_change sys root c s).0 ≡ ok tt
      → IsReached c (apply_change sys root c s).1
  unfolding apply_change
  apply_change-achieves (RestChange.cpu_governor current target) s h =
      after-achieves _ _ (IsReached (RestChange.cpu_governor current target)) s
        (write_text-verified sys root _ target s) h
  apply_change-achieves (RestChange.cpu_max_frequency_mhz current target) s h =
      after-achieves _ _ (IsReached (RestChange.cpu_max_frequency_mhz current target)) s
        (write_frequency-verified sys root _ target s) h

  -- A property of a change that depends on its file only.
  abbrev IsLocal : (RestChange F → S → Type 0) → Type 0
  IsLocal Q =
      (c : RestChange F) (s s' : S)
      → contents sys root (file_of c) s' ≡ contents sys root (file_of c) s
      → Q c s
      → Q c s'

  IsReached-IsLocal : IsLocal IsReached
  IsReached-IsLocal (RestChange.cpu_governor current target) s s' e h =
      verify_text-eq sys root _ target s s' e ∙ h
  IsReached-IsLocal (RestChange.cpu_max_frequency_mhz current target) s s' e h =
      verify_frequency-eq sys root _ target s s' e ∙ h

  IsCurrent-IsLocal : IsLocal (IsCurrent sys root)
  IsCurrent-IsLocal (RestChange.cpu_governor current target) s s' e h =
      verify_text-eq sys root _ current s s' e ∙ h
  IsCurrent-IsLocal (RestChange.cpu_max_frequency_mhz current target) s s' e h =
      verify_frequency-eq sys root _ current s s' e ∙ h

  module _ (laws : HasSeparateFiles sys) (original : OriginalPowerState F) where
    apply_change-KeepsOthers :
        (Q : RestChange F → S → Type 0) → IsLocal Q → KeepsOthers file_of Q (apply_change sys root)
    unfolding apply_change
    apply_change-KeepsOthers Q locality c (RestChange.cpu_governor current target) s d h =
        after-keeps _ _ (Q c) s h (
          locality c s _ (contents-write_text sys root laws (file_of c) governor_file target s d) h)
    apply_change-KeepsOthers Q locality c (RestChange.cpu_max_frequency_mhz current target) s d h =
        after-keeps _ _ (Q c) s h (
          locality c s _
            (contents-write_frequency sys root laws (file_of c) max_freq_file target s d) h)

    undo_change-KeepsOthers :
        (Q : RestChange F → S → Type 0)
        → IsLocal Q
        → KeepsOthers file_of Q (undo_change sys root original)
    unfolding undo_change
    undo_change-KeepsOthers Q locality c (RestChange.cpu_governor current target) s d h =
        locality c s _ (contents-write_text sys root laws (file_of c) governor_file _ s d) h
    undo_change-KeepsOthers Q locality c (RestChange.cpu_max_frequency_mhz current target) s d h =
        locality c s _ (contents-write_frequency sys root laws (file_of c) max_freq_file _ s d) h

    -- The file reads as the saved setting.
    abbrev pub IsOriginal : RestChange F → S → Type 0
    IsOriginal (RestChange.cpu_governor current target) s =
        verify_text sys (cpufreq_path root governor_file) original.governor s ≡ ok tt
    IsOriginal (RestChange.cpu_max_frequency_mhz current target) s =
        verify_frequency sys (cpufreq_path root max_freq_file) original.scaling_max_mhz s ≡ ok tt

    IsOriginal-IsLocal : IsLocal IsOriginal
    IsOriginal-IsLocal (RestChange.cpu_governor current target) s s' e h =
        verify_text-eq sys root _ _ s s' e ∙ h
    IsOriginal-IsLocal (RestChange.cpu_max_frequency_mhz current target) s s' e h =
        verify_frequency-eq sys root _ _ s s' e ∙ h

    undo_change-achieves :
        (c : RestChange F) (s : S)
        → (undo_change sys root original c s).0 ≡ ok tt
        → IsOriginal c (undo_change sys root original c s).1
    unfolding undo_change
    undo_change-achieves (RestChange.cpu_governor current target) s h =
        write_text-verified sys root _ _ s h
    undo_change-achieves (RestChange.cpu_max_frequency_mhz current target) s h =
        write_frequency-verified sys root _ _ s h

    chosen-apply :
        (changes : List (RestChange F)) → chosen (apply_steps sys root original) changes ≡ changes
    chosen-apply [] = refl
    chosen-apply (c ∷ more) = ap (◌∷◌ c) (chosen-apply more)

    not_skipped :
        (P : RestChange F → Type 0) (changes : List (RestChange F))
        → All (λ c. false ≡ true → P c) changes
    not_skipped P [] = tt
    not_skipped P (c ∷ more) = ((λ e. cc), not_skipped P more)

    -- What a successful application leaves.
    abbrev pub IsApplied : List (RestChange F) → Result (RestApplyReport F) × S → Type 0
    IsApplied changes (r, s) = (r ≡ ok (apply_report changes)) × All (λ c. IsReached c s) changes

    apply_changes-IsApplied :
        (changes : List (RestChange F)) (s : S) {report : RestApplyReport F}
        → NoRepeat file_of changes
        → (apply_changes sys root original changes s).0 ≡ ok report
        → IsApplied changes (apply_changes sys root original changes s)
    unfolding apply_changes
    apply_changes-IsApplied changes s apart h =
        elim (Result-cases (run (apply_steps sys root original) changes [] s).0) [
          | inl (out, good) ↦
              let (reached, same) =
                run-Holds file_of (apply_steps sys root original) IsReached
                  (apply_change-KeepsOthers IsReached IsReached-IsLocal) apply_change-achieves
                  changes [] s apart (not_skipped _ changes) good in
              (
                ap (map_ok apply_report)
                    (good ∙ ap (λ (x : List (RestChange F)). ok x) (same ∙ chosen-apply changes)),
                reached,
              )
          | inr (e, bad) ↦ let failed = sym (ap (map_ok apply_report) bad) ∙ h in cc
        ]

    apply-IsApplied :
        (plan : RestChangePlan F) (s : S) {report : RestApplyReport F}
        → plan.status ≡ RestPlanStatus.ready
        → (apply sys root original plan s).0 ≡ ok report
        → IsApplied plan.changes (apply sys root original plan s)
    apply-IsApplied plan s ready h = elim (apply_cases sys root original plan s) [
      | inl (e, x) ↦ let failed = sym (ap (λ y. y.0) x) ∙ h in cc
      | inr (inl (idle, x)) ↦ let other = sym ready ∙ idle in cc
      | inr (inr ((_, _, _, apart, _, _, _), x)) ↦
          subst (IsApplied plan.changes) (sym x)
            (apply_changes-IsApplied plan.changes s apart (sym (ap (λ y. y.0) x) ∙ h))
    ]

    -- When `apply` of a ready plan succeeds, it reports all changes of the plan, and each file that
    -- the plan changes reads, in the state that is left, as its target. The files must not affect
    -- each other.
    pub apply_success :
        (plan : RestChangePlan F) (s : S) {report : RestApplyReport F}
        → plan.status ≡ RestPlanStatus.ready
        → (apply sys root original plan s).0 ≡ ok report
        → (report ≡ apply_report plan.changes)
          × All (λ c. IsReached c (apply sys root original plan s).1) plan.changes
    apply_success plan s ready h =
        let (reported, reached) = apply-IsApplied plan s ready h in
        (ok-injective (sym h ∙ reported), reached)

    differ :
        (a b c : Text)
        → (apply_steps sys root original).rolled_back a ≢ (apply_steps sys root original).stuck b c
    unfolding str clash
    differ a b c =
        append-ne (str "REST apply failed and was rolled back: ") (str "REST apply failed: ") a _
          refl

    -- The file was written back, or it never was written.
    abbrev pub IsUndone : S → RestChange F → Type 0
    IsUndone s c = IsCurrent sys root c s ⊎ IsOriginal c s

    apply_changes-IsUndone :
        (changes : List (RestChange F)) (s : S) (e : Text)
        → NoRepeat file_of changes
        → All (λ c. IsCurrent sys root c s) changes
        → (apply_changes sys root original changes s).0
          ≡ err (str "REST apply failed and was rolled back: " ++ e)
        → All (IsUndone (apply_changes sys root original changes s).1) changes
    unfolding apply_changes
    apply_changes-IsUndone changes s e apart current h =
        elim (Result-cases (run (apply_steps sys root original) changes [] s).0) [
          | inl (out, good) ↦ let failed = sym (ap (map_ok apply_report) good) ∙ h in cc
          | inr (t, bad) ↦
              let same = err-injective (sym (ap (map_ok apply_report) bad) ∙ h) in
              (run-Back file_of (apply_steps sys root original) (IsCurrent sys root)
                (apply_change-KeepsOthers (IsCurrent sys root) IsCurrent-IsLocal)
                (undo_change-KeepsOthers (IsCurrent sys root) IsCurrent-IsLocal) IsOriginal
                (undo_change-KeepsOthers IsOriginal IsOriginal-IsLocal) undo_change-achieves differ
                changes [] s e apart tt (AreApart-nil file_of changes) current
                (bad ∙ ap (λ (x : Text). err x) same)).1
        ]

    -- When `apply` of a plan that it accepts fails and says that it rolled back, each file that the
    -- plan changes reads as the saved setting, or still as the setting that the plan started from.
    -- The files must not affect each other.
    pub apply_rolled_back :
        (plan : RestChangePlan F) (s : S) (e : Text)
        → IsAccepted sys root original plan s
        → (apply sys root original plan s).0
          ≡ err (str "REST apply failed and was rolled back: " ++ e)
        → All (IsUndone (apply sys root original plan s).1) plan.changes
    apply_rolled_back plan s e (_, _, _, _, _, _, current) h =
        elim (apply_cases sys root original plan s) [
          | inl (t, x) ↦
              subst (λ y. All (IsUndone y.1) plan.changes) (sym x)
                (All-map plan.changes (λ _. inl) current)
          | inr (inl (idle, x)) ↦ let failed = sym (ap (λ y. y.0) x) ∙ h in cc
          | inr (inr ((_, _, _, apart, _, _, _), x)) ↦
              subst (λ y. All (IsUndone y.1) plan.changes) (sym x)
                (apply_changes-IsUndone plan.changes s e apart current (sym (ap (λ y. y.0) x) ∙ h))
        ]
