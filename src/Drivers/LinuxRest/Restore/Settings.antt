-- ===== src/Drivers/LinuxRest/Restore/Settings.antt =====
-- linux_rest.rs: what `restore_setting` and `rollback_restore` do to one setting and to the others.
use mathlib.Core.Path.{subst}
use nordfir.Base.{
  ◌≡◌, sym, ap, ◌∙◌, ◌↔◌, true, Text, text_eq_iff, Result, ok, ◌>>=◌, >>=-eq-ok, ok-injective, All,
}
use nordfir.Float.{F32}
use nordfir.Format.{FilePath}
use nordfir.State.OriginalPower.{OriginalPowerState}
use nordfir.Drivers.Transaction.Success.{NoRepeat, KeepsOthers}
use nordfir.Drivers.LinuxRest.{
  Sysfs, RestoredSetting, LivePowerState, cpufreq_path, governor_file, min_freq_file, max_freq_file,
  read_trimmed, read_frequency, verify_text, verify_frequency, approximately_equal,
}
use nordfir.Drivers.LinuxRest.Files.{
  HasSeparateFiles, contents, contents-write_text, contents-write_frequency, write_text-verified,
  write_frequency-verified, verify_text_iff, verify_frequency_iff, verify_text-eq,
  verify_frequency-eq, governor_file-ne-max_freq_file, governor_file-ne-min_freq_file,
  min_freq_file-ne-max_freq_file,
}
use nordfir.Drivers.LinuxRest.Restore.{
  restore_order, restore_setting, undo_setting, setting_matches, read_live_state,
}

-- The file of a setting.
abbrev pub file_of : RestoredSetting → Text
file_of RestoredSetting.cpu_maximum_frequency = max_freq_file
file_of RestoredSetting.cpu_minimum_frequency = min_freq_file
file_of RestoredSetting.cpu_governor = governor_file

pub restore_order-NoRepeat : NoRepeat file_of restore_order
restore_order-NoRepeat = (
  (
    (λ e. min_freq_file-ne-max_freq_file (sym e)),
    ((λ e. governor_file-ne-max_freq_file (sym e)), tt),
  ),
  (((λ e. governor_file-ne-min_freq_file (sym e)), tt), (tt, tt)),
)

module _ {S F : Type 0} ⦃f : F32 F⦄ (sys : Sysfs S) (root : FilePath) where
  -- The file of the setting reads as the given settings say.
  abbrev pub ReadsAs : Text → F → F → RestoredSetting → S → Type 0
  ReadsAs governor lo hi RestoredSetting.cpu_maximum_frequency s =
      verify_frequency sys (cpufreq_path root max_freq_file) hi s ≡ ok tt
  ReadsAs governor lo hi RestoredSetting.cpu_minimum_frequency s =
      verify_frequency sys (cpufreq_path root min_freq_file) lo s ≡ ok tt
  ReadsAs governor lo hi RestoredSetting.cpu_governor s =
      verify_text sys (cpufreq_path root governor_file) governor s ≡ ok tt

  pub ReadsAs-eq :
      (governor : Text) (lo hi : F) (r : RestoredSetting) (s s' : S)
      → contents sys root (file_of r) s' ≡ contents sys root (file_of r) s
      → ReadsAs governor lo hi r s
      → ReadsAs governor lo hi r s'
  ReadsAs-eq governor lo hi RestoredSetting.cpu_maximum_frequency s s' e h =
      verify_frequency-eq sys root _ _ s s' e ∙ h
  ReadsAs-eq governor lo hi RestoredSetting.cpu_minimum_frequency s s' e h =
      verify_frequency-eq sys root _ _ s s' e ∙ h
  ReadsAs-eq governor lo hi RestoredSetting.cpu_governor s s' e h =
      verify_text-eq sys root _ _ s s' e ∙ h

  -- It reads as it was saved, or as it was when the driver looked at it.
  abbrev pub IsOriginal : OriginalPowerState F → RestoredSetting → S → Type 0
  IsOriginal o = ReadsAs o.governor o.scaling_min_mhz o.scaling_max_mhz

  abbrev pub IsLive : LivePowerState F → RestoredSetting → S → Type 0
  IsLive live = ReadsAs live.governor live.scaling_min_mhz live.scaling_max_mhz

  pub restore_setting-achieves :
      (o : OriginalPowerState F) (r : RestoredSetting) (s : S)
      → (restore_setting sys root o r s).0 ≡ ok tt
      → IsOriginal o r (restore_setting sys root o r s).1
  unfolding restore_setting
  restore_setting-achieves o RestoredSetting.cpu_maximum_frequency s h =
      write_frequency-verified sys root _ _ s h
  restore_setting-achieves o RestoredSetting.cpu_minimum_frequency s h =
      write_frequency-verified sys root _ _ s h
  restore_setting-achieves o RestoredSetting.cpu_governor s h = write_text-verified sys root _ _ s h

  pub undo_setting-achieves :
      (live : LivePowerState F) (r : RestoredSetting) (s : S)
      → (undo_setting sys root live r s).0 ≡ ok tt
      → IsLive live r (undo_setting sys root live r s).1
  unfolding undo_setting
  undo_setting-achieves live RestoredSetting.cpu_maximum_frequency s h =
      write_frequency-verified sys root _ _ s h
  undo_setting-achieves live RestoredSetting.cpu_minimum_frequency s h =
      write_frequency-verified sys root _ _ s h
  undo_setting-achieves live RestoredSetting.cpu_governor s h = write_text-verified sys root _ _ s h

  module _ (laws : HasSeparateFiles sys) where
    pub restore_setting-KeepsOthers :
        (o : OriginalPowerState F) (governor : Text) (lo hi : F)
        → KeepsOthers file_of (ReadsAs governor lo hi) (restore_setting sys root o)
    unfolding restore_setting
    restore_setting-KeepsOthers o governor lo hi r RestoredSetting.cpu_maximum_frequency s d h =
        ReadsAs-eq governor lo hi r s _
          (contents-write_frequency sys root laws (file_of r) max_freq_file _ s d) h
    restore_setting-KeepsOthers o governor lo hi r RestoredSetting.cpu_minimum_frequency s d h =
        ReadsAs-eq governor lo hi r s _
          (contents-write_frequency sys root laws (file_of r) min_freq_file _ s d) h
    restore_setting-KeepsOthers o governor lo hi r RestoredSetting.cpu_governor s d h =
        ReadsAs-eq governor lo hi r s _
          (contents-write_text sys root laws (file_of r) governor_file _ s d) h

    pub undo_setting-KeepsOthers :
        (live : LivePowerState F) (governor : Text) (lo hi : F)
        → KeepsOthers file_of (ReadsAs governor lo hi) (undo_setting sys root live)
    unfolding undo_setting
    undo_setting-KeepsOthers live governor lo hi r RestoredSetting.cpu_maximum_frequency s d h =
        ReadsAs-eq governor lo hi r s _
          (contents-write_frequency sys root laws (file_of r) max_freq_file _ s d) h
    undo_setting-KeepsOthers live governor lo hi r RestoredSetting.cpu_minimum_frequency s d h =
        ReadsAs-eq governor lo hi r s _
          (contents-write_frequency sys root laws (file_of r) min_freq_file _ s d) h
    undo_setting-KeepsOthers live governor lo hi r RestoredSetting.cpu_governor s d h =
        ReadsAs-eq governor lo hi r s _
          (contents-write_text sys root laws (file_of r) governor_file _ s d) h

  -- What the driver reads before it restores.
  abbrev pub IsRead : LivePowerState F → S → Type 0
  IsRead live s =
      (read_trimmed sys (cpufreq_path root governor_file) s ≡ ok live.governor)
      × (read_frequency sys (cpufreq_path root min_freq_file) s ≡ ok live.scaling_min_mhz)
      × (read_frequency sys (cpufreq_path root max_freq_file) s ≡ ok live.scaling_max_mhz)

  abbrev read_lo : Text → S → Result (LivePowerState F)
  read_lo governor s = do
    lo ← read_frequency sys (cpufreq_path root min_freq_file) s
    hi ← read_frequency sys (cpufreq_path root max_freq_file) s
    ok (record { governor = governor; scaling_min_mhz = lo; scaling_max_mhz = hi })

  pub read_live_state_iff :
      (live : LivePowerState F) (s : S) → (read_live_state sys root s ≡ ok live) ↔ IsRead live s
  unfolding read_live_state
  read_live_state_iff live s = (
    (λ h.
        let (governor, g, rest) =
          >>=-eq-ok (read_trimmed sys (cpufreq_path root governor_file) s) (λ x. read_lo x s) h in
        let (lo, l, more) =
          >>=-eq-ok (read_frequency sys (cpufreq_path root min_freq_file) s) _ rest in
        let (hi, u, last) =
          >>=-eq-ok (read_frequency sys (cpufreq_path root max_freq_file) s) _ more in
        let same = ok-injective last in
        (
          g ∙ ap (λ x. ok x.governor) same,
          l ∙ ap (λ x. ok x.scaling_min_mhz) same,
          u ∙ ap (λ x. ok x.scaling_max_mhz) same,
        )),
    (λ (g, l, u). rw (g, l, u)),
  )

  -- A setting matches what was read exactly when its file reads as it was saved.
  pub setting_matches_iff :
      (o : OriginalPowerState F) (live : LivePowerState F) (r : RestoredSetting) (s : S)
      → IsRead live s
      → (setting_matches o live r ≡ true) ↔ IsOriginal o r s
  unfolding setting_matches
  setting_matches_iff o live RestoredSetting.cpu_maximum_frequency s (g, l, u) = (
    (λ m. (verify_frequency_iff sys root _ _ s).1 (_, u, m)),
    (λ h.
        let (actual, r, m) = (verify_frequency_iff sys root _ _ s).0 h in
        subst (λ x. approximately_equal x o.scaling_max_mhz ≡ true) (ok-injective (sym r ∙ u)) m),
  )
  setting_matches_iff o live RestoredSetting.cpu_minimum_frequency s (g, l, u) = (
    (λ m. (verify_frequency_iff sys root _ _ s).1 (_, l, m)),
    (λ h.
        let (actual, r, m) = (verify_frequency_iff sys root _ _ s).0 h in
        subst (λ x. approximately_equal x o.scaling_min_mhz ≡ true) (ok-injective (sym r ∙ l)) m),
  )
  setting_matches_iff o live RestoredSetting.cpu_governor s (g, l, u) = (
    (λ m. (verify_text_iff sys root _ _ s).1 (g ∙ ap (λ (x : Text). ok x) ((text_eq_iff _ _).0 m))),
    (λ h. (text_eq_iff _ _).1 (ok-injective (sym g ∙ (verify_text_iff sys root _ _ s).0 h))),
  )

  -- What can be compared with the saved settings can be read.
  pub IsOriginal-IsRead :
      (o : OriginalPowerState F) (s : S)
      → All (λ r. IsOriginal o r s) restore_order
      → (live : LivePowerState F) × IsRead live s
  IsOriginal-IsRead o s (u, (l, (g, _))) =
      let (hi, u', _) = (verify_frequency_iff sys root _ _ s).0 u in
      let (lo, l', _) = (verify_frequency_iff sys root _ _ s).0 l in
      (
        record { governor = o.governor; scaling_min_mhz = lo; scaling_max_mhz = hi },
        ((verify_text_iff sys root _ _ s).0 g, l', u'),
      )
