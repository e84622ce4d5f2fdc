-- ===== src/Cli/Settings.antt =====
-- main.rs: what the files of the settings hold while the commands go on, and what printing leaves.
use nordfir.Base.{◌≡◌, refl, sym, ◌∙◌, ◌≢◌, Text, ok, context, >>=-eq-ok}
use nordfir.Float.{F32}
use nordfir.Format.{FilePath}
use nordfir.Files.{FileSystem}
use nordfir.Files.Laws.{IsFileSystem}
use nordfir.State.OriginalPower.{OriginalPowerState}
use nordfir.State.Store.Fresh.{context-eq-ok}
use nordfir.State.Store.Saved.{Holds}
use nordfir.Drivers.LinuxRest.{
  RestoredSetting, cpufreq_path, read_trimmed, read_frequency, verify_text, verify_frequency,
  governor_file, min_freq_file, max_freq_file,
}
use nordfir.Drivers.LinuxRest.Files.{HasSeparateFiles}
use nordfir.Drivers.LinuxRest.Kept.{IsForeign}
use nordfir.Drivers.LinuxRest.Restore.Settings.{file_of, IsOriginal, ReadsAs-eq}
use nordfir.Cli.{kernel, sysfs_root}
use nordfir.Cli.Paths.{IsSettingFile, governor, minimum, maximum}

file_of-IsSettingFile : (r : RestoredSetting) → IsSettingFile (file_of r)
file_of-IsSettingFile RestoredSetting.cpu_maximum_frequency = maximum refl
file_of-IsSettingFile RestoredSetting.cpu_minimum_frequency = minimum refl
file_of-IsSettingFile RestoredSetting.cpu_governor = governor refl

pub kernel-HasSeparateFiles :
    {S : Type 0} (fs : FileSystem S) → IsFileSystem fs → HasSeparateFiles (kernel fs)
kernel-HasSeparateFiles fs laws = record { read-write = laws.read-write }

-- A path that differs from every setting's file is none of the driver's.
pub IsForeign-of :
    {S : Type 0} (fs : FileSystem S) (laws : IsFileSystem fs) (p : FilePath)
    → ((name : Text) → IsSettingFile name → p ≢ cpufreq_path sysfs_root name)
    → IsForeign (kernel fs) sysfs_root (kernel-HasSeparateFiles fs laws) p
IsForeign-of fs laws p d = (
  d governor_file (governor refl),
  d min_freq_file (minimum refl),
  d max_freq_file (maximum refl),
)

module _ {S : Type 0} (fs : FileSystem S) (laws : IsFileSystem fs) where
  -- What was read from a setting's file is still there.
  abbrev pub SettingsKept : S → S → Type 0
  SettingsKept s s' =
      (name : Text) (t : Text)
      → IsSettingFile name
      → Holds fs laws (cpufreq_path sysfs_root name) t s
      → Holds fs laws (cpufreq_path sysfs_root name) t s'

  read_trimmed-Holds :
      (p : FilePath) (s : S) {value : Text}
      → read_trimmed (kernel fs) p s ≡ ok value
      → (t : Text) × Holds fs laws p t s
  unfolding read_trimmed
  read_trimmed-Holds p s h =
      let (t, read, _) = >>=-eq-ok (context _ (fs.read_to_string p s)) _ h in
      (t, context-eq-ok _ _ read)

  pub verify_text-Holds :
      (p : FilePath) (value : Text) (s : S)
      → verify_text (kernel fs) p value s ≡ ok tt
      → (t : Text) × Holds fs laws p t s
  unfolding verify_text
  verify_text-Holds p value s h =
      let (_, read, _) = >>=-eq-ok (read_trimmed (kernel fs) p s) _ h in read_trimmed-Holds p s read

module _ {S F : Type 0} ⦃f : F32 F⦄ (fs : FileSystem S) (laws : IsFileSystem fs) where
  pub verify_frequency-Holds :
      (p : FilePath) (value : F) (s : S)
      → verify_frequency (kernel fs) p value s ≡ ok tt
      → (t : Text) × Holds fs laws p t s
  unfolding verify_frequency read_frequency
  verify_frequency-Holds p value s h =
      let (_, read, _) = >>=-eq-ok (read_frequency {F = F} (kernel fs) p s) _ h in
      let (_, trimmed, _) = >>=-eq-ok (read_trimmed (kernel fs) p s) _ read in
      read_trimmed-Holds fs laws p s trimmed

  module _ (o : OriginalPowerState F) where
    IsOriginal-Holds :
        (r : RestoredSetting) (s : S)
        → IsOriginal (kernel fs) sysfs_root o r s
        → (t : Text) × Holds fs laws (cpufreq_path sysfs_root (file_of r)) t s
    IsOriginal-Holds RestoredSetting.cpu_maximum_frequency s h = verify_frequency-Holds _ _ s h
    IsOriginal-Holds RestoredSetting.cpu_minimum_frequency s h = verify_frequency-Holds _ _ s h
    IsOriginal-Holds RestoredSetting.cpu_governor s h = verify_text-Holds fs laws _ _ s h

    pub IsOriginal-kept :
        (s s' : S)
        → SettingsKept fs laws s s'
        → (r : RestoredSetting) → IsOriginal (kernel fs) sysfs_root o r s
        → IsOriginal (kernel fs) sysfs_root o r s'
    IsOriginal-kept s s' kept r h =
        let (t, held) = IsOriginal-Holds r s h in
        ReadsAs-eq (kernel fs) sysfs_root o.governor o.scaling_min_mhz o.scaling_max_mhz r s s'
          (kept (file_of r) t (file_of-IsSettingFile r) held ∙ sym held) h
