-- ===== src/Drivers/LinuxRest/Restore/Outcomes.antt =====
-- linux_rest.rs: what `restore_active` leaves when it succeeds, and when it says that it rolled back.
use mathlib.Core.Path.{subst}
use nordfir.Base.{
  ◌≡◌, refl, sym, ap, ◌∙◌, ◌≢◌, ◌⊎◌, inl, inr, true, List, [], ◌∷◌, ◌++◌, Text, str, clash,
  append-ne, Result, ok, err, ◌>>◌, Result-cases, >>=-eq-ok, ok-injective, err-injective, All,
  All-map, map_ok,
}
use nordfir.Base.Io.{continue}
use nordfir.Float.{F32}
use nordfir.Format.{FilePath}
use nordfir.State.OriginalPower.{OriginalPowerState}
use nordfir.Energy.Capabilities.{PowerCapabilities}
use nordfir.Drivers.Transaction.{run}
use nordfir.Drivers.Transaction.Success.{chosen, run-Holds, run-skip}
use nordfir.Drivers.Transaction.Rollback.{AreApart-nil, run-Back}
use nordfir.Drivers.LinuxRest.{Sysfs, RestoredSetting, ActiveRestoreReport, LivePowerState}
use nordfir.Drivers.LinuxRest.Files.{
  HasSeparateFiles, contents, contents-write_text, contents-write_frequency,
}
use nordfir.Drivers.LinuxRest.Restore.{
  restore_order, restore_active, restore_from, restore_setting, undo_setting, restore_steps,
  restore_report, setting_matches, read_live_state, validate_restore_target,
}
use nordfir.Drivers.LinuxRest.Restore.Settings.{
  file_of, IsOriginal, IsLive, IsRead, restore_order-NoRepeat, restore_setting-achieves,
  undo_setting-achieves, restore_setting-KeepsOthers, undo_setting-KeepsOthers, setting_matches_iff,
  read_live_state_iff, IsOriginal-IsRead,
}

module _ {S F : Type 0} ⦃f : F32 F⦄ (sys : Sysfs S) (root : FilePath) (o : OriginalPowerState F)
    (c : PowerCapabilities F) where
  abbrev target : S → Result (LivePowerState F)
  target s = validate_restore_target o c >> read_live_state sys root s

  restore_active-cases :
      (s : S)
      → ((e : Text) × (restore_active sys root o c s ≡ (err e, s)))
        ⊎ ((live : LivePowerState F) × (validate_restore_target o c ≡ ok tt)
            × (read_live_state sys root s ≡ ok live)
            × (restore_active sys root o c s ≡ restore_from sys root o live s))
  unfolding restore_active
  restore_active-cases s = elim (Result-cases (target s)) [
    | inl (live, good) ↦
        let (_, valid, read) =
          >>=-eq-ok (validate_restore_target o c) (λ _. read_live_state sys root s) good in
        inr (
          live,
          valid,
          read,
          ap (λ (x : Result (LivePowerState F)). continue x (restore_from sys root o) s) good,
        )
    | inr (e, bad) ↦
        inl (e, ap (λ (x : Result (LivePowerState F)). continue x (restore_from sys root o) s) bad)
  ]

  All-ready :
      (live : LivePowerState F) (s : S)
      → IsRead sys root live s
      → (rs : List RestoredSetting)
      → All (λ r. setting_matches o live r ≡ true → IsOriginal sys root o r s) rs
  All-ready live s read [] = tt
  All-ready live s read (r ∷ rs) =
      ((setting_matches_iff sys root o live r s read).0, All-ready live s read rs)

  -- A restore that writes the settings that do not match, and leaves every setting as it was saved.
  abbrev pub IsRestored : S → Result ActiveRestoreReport × S → Type 0
  IsRestored s (r, s') =
      ((live : LivePowerState F) × (read_live_state sys root s ≡ ok live)
        × (r ≡ ok (restore_report (chosen (restore_steps sys root o live) restore_order))))
      × All (λ x. IsOriginal sys root o x s') restore_order

  module _ (laws : HasSeparateFiles sys) where
    restore_setting-contents :
        (i j : RestoredSetting) (s : S)
        → file_of i ≢ file_of j
        → contents sys root (file_of i) (restore_setting sys root o j s).1
          ≡ contents sys root (file_of i) s
    unfolding restore_setting
    restore_setting-contents i RestoredSetting.cpu_maximum_frequency s d =
        contents-write_frequency sys root laws _ _ _ s d
    restore_setting-contents i RestoredSetting.cpu_minimum_frequency s d =
        contents-write_frequency sys root laws _ _ _ s d
    restore_setting-contents i RestoredSetting.cpu_governor s d =
        contents-write_text sys root laws _ _ _ s d

    undo_setting-contents :
        (live : LivePowerState F) (i j : RestoredSetting) (s : S)
        → file_of i ≢ file_of j
        → contents sys root (file_of i) (undo_setting sys root live j s).1
          ≡ contents sys root (file_of i) s
    unfolding undo_setting
    undo_setting-contents live i RestoredSetting.cpu_maximum_frequency s d =
        contents-write_frequency sys root laws _ _ _ s d
    undo_setting-contents live i RestoredSetting.cpu_minimum_frequency s d =
        contents-write_frequency sys root laws _ _ _ s d
    undo_setting-contents live i RestoredSetting.cpu_governor s d =
        contents-write_text sys root laws _ _ _ s d

    restore_from-IsRestored :
        (live : LivePowerState F) (s : S) {report : ActiveRestoreReport}
        → read_live_state sys root s ≡ ok live
        → (restore_from sys root o live s).0 ≡ ok report
        → IsRestored s (restore_from sys root o live s)
    unfolding restore_from
    restore_from-IsRestored live s read h =
        elim (Result-cases (run (restore_steps sys root o live) restore_order [] s).0) [
          | inl (out, good) ↦
              let (restored, same) =
                run-Holds file_of (restore_steps sys root o live) (IsOriginal sys root o)
                  (restore_setting-KeepsOthers sys root laws o _ _ _)
                  (restore_setting-achieves sys root o) restore_order [] s restore_order-NoRepeat
                  (All-ready live s ((read_live_state_iff sys root live s).0 read) restore_order)
                  good in
              (
                (
                  live,
                  read,
                  ap (map_ok restore_report) (good ∙ ap (λ (x : List RestoredSetting). ok x) same),
                ),
                restored,
              )
          | inr (e, bad) ↦ let failed = sym (ap (map_ok restore_report) bad) ∙ h in cc
        ]

    restore_active-IsRestored :
        (s : S) {report : ActiveRestoreReport}
        → (restore_active sys root o c s).0 ≡ ok report
        → IsRestored s (restore_active sys root o c s)
    restore_active-IsRestored s h = elim (restore_active-cases s) [
      | inl (e, x) ↦ let failed = sym (ap (λ y. y.0) x) ∙ h in cc
      | inr (live, _, read, x) ↦
          subst (IsRestored s) (sym x)
            (restore_from-IsRestored live s read (sym (ap (λ y. y.0) x) ∙ h))
    ]

    -- When `restore_active` succeeds, its report lists the settings that did not match what the files
    -- held, in the order maximum, minimum, governor, and in the state that is left each of the three
    -- files reads as it was saved. The files must not affect each other.
    pub restore_success :
        (s : S) {report : ActiveRestoreReport}
        → (restore_active sys root o c s).0 ≡ ok report
        → ((live : LivePowerState F) × (read_live_state sys root s ≡ ok live)
            × (report ≡ restore_report (chosen (restore_steps sys root o live) restore_order)))
          × All (λ x. IsOriginal sys root o x (restore_active sys root o c s).1) restore_order
    restore_success s h =
        let ((live, read, reported), restored) = restore_active-IsRestored s h in
        ((live, read, ok-injective (sym h ∙ reported)), restored)

    run-skips :
        (live : LivePowerState F) (s : S)
        → IsRead sys root live s
        → (rs done : List RestoredSetting) → All (λ r. IsOriginal sys root o r s) rs
        → run (restore_steps sys root o live) rs done s ≡ (ok done, s)
    unfolding run
    run-skips live s read [] done _ = refl
    run-skips live s read (r ∷ rs) done (h, hs) =
        run-skip (restore_steps sys root o live) r rs done s
          ((setting_matches_iff sys root o live r s read).1 h)
        ∙ run-skips live s read rs done hs

    restore_active-skips :
        (s : S)
        → validate_restore_target o c ≡ ok tt
        → All (λ r. IsOriginal sys root o r s) restore_order
        → restore_active sys root o c s ≡ (ok (restore_report []), s)
    unfolding restore_active restore_from
    restore_active-skips s valid restored =
        let (live, read) = IsOriginal-IsRead sys root o s restored in
        ap
          (λ (x : Result (Unit {0})).
            continue (x >> read_live_state sys root s) (restore_from sys root o) s)
          valid
        ∙ ap (λ (x : Result (LivePowerState F)). continue x (restore_from sys root o) s)
            ((read_live_state_iff sys root live s).1 read)
        ∙ ap (λ (x : Result (List RestoredSetting) × S). (map_ok restore_report x.0, x.1))
            (run-skips live s read restore_order [] restored)

    restore_active-valid :
        (s : S) {report : ActiveRestoreReport}
        → (restore_active sys root o c s).0 ≡ ok report
        → validate_restore_target o c ≡ ok tt
    restore_active-valid s h = elim (restore_active-cases s) [
      | inl (e, x) ↦ let failed = sym (ap (λ y. y.0) x) ∙ h in cc
      | inr (live, valid, _, _) ↦ valid
    ]

    -- After `restore_active` has succeeded, doing it again succeeds, reports nothing and leaves every
    -- file as it is. The files must not affect each other.
    pub restore_again :
        (s : S) {report : ActiveRestoreReport}
        → (restore_active sys root o c s).0 ≡ ok report
        → restore_active sys root o c (restore_active sys root o c s).1
          ≡ (ok (restore_report []), (restore_active sys root o c s).1)
    restore_again s h = restore_active-skips _ (restore_active-valid s h) (restore_success s h).1

    differ :
        (live : LivePowerState F) (x y z : Text)
        → (restore_steps sys root o live).rolled_back x ≢ (restore_steps sys root o live).stuck y z
    unfolding str clash
    differ live x y z =
        append-ne (str "ACTIVE restore failed and was rolled back: ")
          (str "ACTIVE restore failed: ") x _ refl

    -- The file of the setting holds what it held.
    abbrev pub Untouched : S → RestoredSetting → S → Type 0
    Untouched s r s' = contents sys root (file_of r) s' ≡ contents sys root (file_of r) s

    -- The setting was never written, or it was written back to what was read at first.
    abbrev pub IsUndone : S → S → RestoredSetting → Type 0
    IsUndone s s' r =
        Untouched s r s'
        ⊎ ((live : LivePowerState F) × (read_live_state sys root s ≡ ok live)
            × IsLive sys root live r s')

    known :
        (live : LivePowerState F) (s s' : S)
        → read_live_state sys root s ≡ ok live
        → (r : RestoredSetting) → Untouched s r s' ⊎ IsLive sys root live r s'
        → IsUndone s s' r
    known live s s' read r (inl x) = inl x
    known live s s' read r (inr y) = inr (live, read, y)

    restore_from-IsUndone :
        (live : LivePowerState F) (s : S) (e : Text)
        → read_live_state sys root s ≡ ok live
        → (restore_from sys root o live s).0
          ≡ err (str "ACTIVE restore failed and was rolled back: " ++ e)
        → All (IsUndone s (restore_from sys root o live s).1) restore_order
    unfolding restore_from
    restore_from-IsUndone live s e read h =
        elim (Result-cases (run (restore_steps sys root o live) restore_order [] s).0) [
          | inl (out, good) ↦ let failed = sym (ap (map_ok restore_report) good) ∙ h in cc
          | inr (t, bad) ↦
              let same = err-injective (sym (ap (map_ok restore_report) bad) ∙ h) in
              let outcome =
                run-Back file_of (restore_steps sys root o live) (Untouched s)
                  (λ i j s' d x. restore_setting-contents i j s' d ∙ x)
                  (λ i j s' d x. undo_setting-contents live i j s' d ∙ x) (IsLive sys root live)
                  (undo_setting-KeepsOthers sys root laws live _ _ _)
                  (undo_setting-achieves sys root live) (differ live) restore_order [] s e
                  restore_order-NoRepeat tt (AreApart-nil file_of restore_order)
                  (refl, (refl, (refl, tt))) (bad ∙ ap (λ (x : Text). err x) same) in
              All-map restore_order (known live s _ read) outcome.1
        ]

    -- When `restore_active` fails and says that it rolled back, the file of each setting holds what it
    -- held before, or reads as the driver read it before it began to write. The files must not affect
    -- each other.
    pub restore_rolled_back :
        (s : S) (e : Text)
        → (restore_active sys root o c s).0
          ≡ err (str "ACTIVE restore failed and was rolled back: " ++ e)
        → All (IsUndone s (restore_active sys root o c s).1) restore_order
    restore_rolled_back s e h = elim (restore_active-cases s) [
      | inl (t, x) ↦
          subst (λ y. All (IsUndone s y.1) restore_order) (sym x)
            (inl refl, (inl refl, (inl refl, tt)))
      | inr (live, _, read, x) ↦
          subst (λ y. All (IsUndone s y.1) restore_order) (sym x)
            (restore_from-IsUndone live s e read (sym (ap (λ y. y.0) x) ∙ h))
    ]
