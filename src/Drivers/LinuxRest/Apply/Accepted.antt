-- ===== src/Drivers/LinuxRest/Apply/Accepted.antt =====
-- linux_rest.rs: which plans pass the checks of `apply`, in terms of the plan, the saved state and
-- the files.
use nordfir.Base.{
  ◌≡◌, refl, sym, ap, ◌∙◌, ◌≢◌, ◌⊎◌, inl, inr, Bool, true, false, List, [], ◌∷◌, Text, str,
  text_eq_iff, Result, ok, err, ◌>>◌, refuse-eq-ok, Result-cases, >>=-eq-ok, arith, All, is_empty,
}
use nordfir.Base.Io.{continue}
use nordfir.Float.{F32}
use nordfir.Format.{FilePath}
use nordfir.State.OriginalPower.{OriginalPowerState}
use nordfir.Energy.RestPlan.{RestChange, RestChangePlan, RestPlanStatus}
use nordfir.Drivers.Transaction.Success.{NoRepeat}
use nordfir.Drivers.LinuxRest.{
  Sysfs, cpufreq_path, governor_file, max_freq_file, verify_text, verify_frequency,
  approximately_equal,
}
use nordfir.Drivers.LinuxRest.Files.{governor_file-ne-max_freq_file}
use nordfir.Drivers.LinuxRest.Checks.{
  validate_changes, validate_plan, verify_original_matches_plan, verify_live_matches_plan,
}
use nordfir.Drivers.LinuxRest.Apply.{apply, apply_status, check_plan, apply_changes, apply_report}

-- The file that a change writes.
abbrev pub file_of : {F : Type 0} → RestChange F → Text
file_of (RestChange.cpu_governor current target) = governor_file
file_of (RestChange.cpu_max_frequency_mhz current target) = max_freq_file

module _ {F : Type 0} ⦃f : F32 F⦄ (original : OriginalPowerState F) where
  -- A change to the `powersave` governor, or one that lowers the ceiling and leaves it at the saved
  -- minimum or above.
  abbrev pub IsBounded : RestChange F → Type 0
  IsBounded (RestChange.cpu_governor current target) = target ≡ str "powersave"
  IsBounded (RestChange.cpu_max_frequency_mhz current target) =
      (f.is_finite current ≡ true)
      × (f.is_finite target ≡ true)
      × (f.lt target original.scaling_min_mhz ≡ false)
      × (f.lt current target ≡ false)

  -- The change starts from the saved setting.
  abbrev pub IsFromOriginal : RestChange F → Type 0
  IsFromOriginal (RestChange.cpu_governor current target) = current ≡ original.governor
  IsFromOriginal (RestChange.cpu_max_frequency_mhz current target) =
      approximately_equal current original.scaling_max_mhz ≡ true

  -- A file that was seen is not written again.
  abbrev IsFresh : Bool → Text → List (RestChange F) → Type 0
  IsFresh seen name changes = seen ≡ true → All (λ c. name ≢ file_of c) changes

  IsFresh-cons :
      (seen : Bool) (name : Text) (c : RestChange F) (changes : List (RestChange F))
      → name ≢ file_of c
      → IsFresh seen name changes
      → IsFresh seen name (c ∷ changes)
  IsFresh-cons seen name c changes d fresh h = (d, fresh h)

  IsFresh-seen :
      (seen : Bool) (name : Text) (changes : List (RestChange F))
      → seen ≡ false
      → IsFresh seen name changes
  IsFresh-seen seen name changes e h = cc

  validate_changes-NoRepeat :
      (changes : List (RestChange F)) (g q : Bool)
      → validate_changes original changes g q ≡ ok tt
      → NoRepeat file_of changes
        × All IsBounded changes
        × IsFresh g governor_file changes
        × IsFresh q max_freq_file changes
  unfolding validate_changes
  validate_changes-NoRepeat [] g q h = (tt, tt, (λ _. tt), (λ _. tt))
  validate_changes-NoRepeat (RestChange.cpu_governor current target ∷ more) g q h =
      let (_, good, rest) = >>=-eq-ok _ (λ _. validate_changes original more true q) h in
      let guard = refuse-eq-ok _ _ good in
      let (apart, bounded, fresh, others) = validate_changes-NoRepeat more true q rest in
      (
        (fresh refl, apart),
        (ground (arith, (text_eq_iff target (str "powersave")).0), bounded),
        IsFresh-seen g governor_file (RestChange.cpu_governor current target ∷ more) (ground arith),
        IsFresh-cons q max_freq_file (RestChange.cpu_governor current target) more
            (λ e. governor_file-ne-max_freq_file (sym e)) others,
      )
  validate_changes-NoRepeat (RestChange.cpu_max_frequency_mhz current target ∷ more) g q h =
      let (_, good, rest) = >>=-eq-ok _ (λ _. validate_changes original more g true) h in
      let guard = refuse-eq-ok _ _ good in
      let (apart, bounded, fresh, others) = validate_changes-NoRepeat more g true rest in
      (
        (others refl, apart),
        (ground arith, bounded),
        IsFresh-cons g governor_file (RestChange.cpu_max_frequency_mhz current target) more
            governor_file-ne-max_freq_file fresh,
        IsFresh-seen q max_freq_file (RestChange.cpu_max_frequency_mhz current target ∷ more)
            (ground arith),
      )

  verify_original-IsFromOriginal :
      (changes : List (RestChange F))
      → verify_original_matches_plan original changes ≡ ok tt
      → All IsFromOriginal changes
  unfolding verify_original_matches_plan
  verify_original-IsFromOriginal [] h = tt
  verify_original-IsFromOriginal (RestChange.cpu_governor current target ∷ more) h =
      let (_, good, rest) = >>=-eq-ok _ (λ _. verify_original_matches_plan original more) h in
      let guard = refuse-eq-ok _ _ good in
      let same = (text_eq_iff current original.governor).0 in
      (ground arith, verify_original-IsFromOriginal more rest)
  verify_original-IsFromOriginal (RestChange.cpu_max_frequency_mhz current target ∷ more) h =
      let (_, good, rest) = >>=-eq-ok _ (λ _. verify_original_matches_plan original more) h in
      let guard = refuse-eq-ok _ _ good in (ground arith, verify_original-IsFromOriginal more rest)

module _ {S F : Type 0} ⦃f : F32 F⦄ (sys : Sysfs S) (root : FilePath) where
  -- The change starts from what the file holds.
  abbrev pub IsCurrent : RestChange F → S → Type 0
  IsCurrent (RestChange.cpu_governor current target) s =
      verify_text sys (cpufreq_path root governor_file) current s ≡ ok tt
  IsCurrent (RestChange.cpu_max_frequency_mhz current target) s =
      verify_frequency sys (cpufreq_path root max_freq_file) current s ≡ ok tt

  verify_live-IsCurrent :
      (changes : List (RestChange F)) (s : S)
      → verify_live_matches_plan sys root changes s ≡ ok tt
      → All (λ c. IsCurrent c s) changes
  unfolding verify_live_matches_plan
  verify_live-IsCurrent [] s h = tt
  verify_live-IsCurrent (RestChange.cpu_governor current target ∷ more) s h =
      let (_, good, rest) =
        >>=-eq-ok (verify_text sys (cpufreq_path root governor_file) current s)
          (λ _. verify_live_matches_plan sys root more s) h in
      (good, verify_live-IsCurrent more s rest)
  verify_live-IsCurrent (RestChange.cpu_max_frequency_mhz current target ∷ more) s h =
      let (_, good, rest) =
        >>=-eq-ok (verify_frequency sys (cpufreq_path root max_freq_file) current s)
          (λ _. verify_live_matches_plan sys root more s) h in
      (good, verify_live-IsCurrent more s rest)

  module _ (original : OriginalPowerState F) where
    -- A ready plan without blockers, of bounded changes to different files, each from the setting
    -- that was saved and that the file still holds.
    abbrev pub IsAccepted : RestChangePlan F → S → Type 0
    IsAccepted plan s =
        (plan.status ≡ RestPlanStatus.ready)
        × (plan.blockers ≡ [])
        × (plan.changes ≢ [])
        × NoRepeat file_of plan.changes
        × All (IsBounded original) plan.changes
        × All (IsFromOriginal original) plan.changes
        × All (λ c. IsCurrent c s) plan.changes

    is_empty-eq-true {ℓ} : {A : Type ℓ} (xs : List A) → is_empty xs ≡ true → xs ≡ []
    is_empty-eq-true [] h = refl
    is_empty-eq-true (x ∷ xs) h = cc

    is_empty-eq-false {ℓ} : {A : Type ℓ} (xs : List A) → is_empty xs ≡ false → xs ≢ []
    is_empty-eq-false [] h e = cc
    is_empty-eq-false (x ∷ xs) h e = cc

    check_plan-IsAccepted :
        (plan : RestChangePlan F) (s : S)
        → plan.status ≡ RestPlanStatus.ready
        → check_plan sys root original plan s ≡ ok tt
        → IsAccepted plan s
    unfolding check_plan validate_plan
    check_plan-IsAccepted plan s status h =
        let (_, valid, more) =
          >>=-eq-ok (validate_plan original plan)
            (λ _.
              verify_original_matches_plan original plan.changes
              >> verify_live_matches_plan sys root plan.changes s)
            h in
        let (_, from, current) =
          >>=-eq-ok (verify_original_matches_plan original plan.changes)
            (λ _. verify_live_matches_plan sys root plan.changes s) more in
        let (_, shape, changes) =
          >>=-eq-ok _ (λ _. validate_changes original plan.changes false false) valid in
        let guard = refuse-eq-ok _ _ shape in
        let (apart, bounded, _, _) =
          validate_changes-NoRepeat original plan.changes false false changes in
        (
          status,
          is_empty-eq-true plan.blockers (ground arith),
          is_empty-eq-false plan.changes (ground arith),
          apart,
          bounded,
          verify_original-IsFromOriginal original plan.changes from,
          verify_live-IsCurrent plan.changes s current,
        )

    -- The two ways to leave the files alone.
    abbrev pub IsRefused : RestChangePlan F → S → Type 0
    IsRefused plan s = (e : Text) × (apply sys root original plan s ≡ (err e, s))

    abbrev pub IsIdle : RestChangePlan F → S → Type 0
    IsIdle plan s =
        (plan.status ≡ RestPlanStatus.no_changes)
        × (apply sys root original plan s ≡ (ok (apply_report []), s))

    apply-status :
        (plan : RestChangePlan F) (s : S) {status : RestPlanStatus}
        → plan.status ≡ status
        → apply sys root original plan s ≡ apply_status sys root original status plan s
    unfolding apply
    apply-status plan s e = ap (λ (x : RestPlanStatus). apply_status sys root original x plan s) e

    apply_ready :
        (plan : RestChangePlan F) (s : S)
        → (plan.status ≡ RestPlanStatus.ready)
        → IsRefused plan s
          ⊎ (IsAccepted plan s
              × (apply sys root original plan s ≡ apply_changes sys root original plan.changes s))
    unfolding apply_status
    apply_ready plan s ready = elim (Result-cases (check_plan sys root original plan s)) [
      | inl (u, good) ↦ inr (
        check_plan-IsAccepted plan s ready good,
        apply-status plan s ready
            ∙ ap
                (λ (x : Result (Unit {0})).
                  continue x (λ _. apply_changes sys root original plan.changes) s)
                good,
      )
      | inr (e, bad) ↦ inl (
        e,
        apply-status plan s ready
            ∙ ap
                (λ (x : Result (Unit {0})).
                  continue x (λ _. apply_changes sys root original plan.changes) s)
                bad,
      )
    ]

    status-cases :
        (status : RestPlanStatus)
        → (status ≡ RestPlanStatus.ready)
          ⊎ (status ≡ RestPlanStatus.no_changes)
          ⊎ (status ≡ RestPlanStatus.blocked)
    status-cases RestPlanStatus.ready = inl refl
    status-cases RestPlanStatus.no_changes = inr (inl refl)
    status-cases RestPlanStatus.blocked = inr (inr refl)

    -- `apply` writes for an accepted plan only: any other plan is refused with an error, or has the
    -- status `no_changes` and an empty report, and in both cases every file is left as it was. An
    -- accepted plan has the status `ready`, no blockers, at least one change, at most one change to
    -- each file, only changes to `powersave` or to a ceiling between the saved minimum and the
    -- current one, and each change starts from the saved setting, which the file still holds.
    pub apply_cases :
        (plan : RestChangePlan F) (s : S)
        → IsRefused plan s
          ⊎ IsIdle plan s
          ⊎ (IsAccepted plan s
              × (apply sys root original plan s ≡ apply_changes sys root original plan.changes s))
    unfolding apply_status
    apply_cases plan s = elim (status-cases plan.status) [
      | inl ready ↦ elim (apply_ready plan s ready) [ inl x ↦ inl x | inr y ↦ inr (inr y) ]
      | inr (inl idle) ↦ inr (inl (idle, apply-status plan s idle))
      | inr (inr blocked) ↦ inl (_, apply-status plan s blocked)
    ]
