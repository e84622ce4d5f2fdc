-- ===== src/State/PowerProbe.antt =====
-- archive/rust/src/state/linux_power.rs: `LinuxPowerProbe`.
use nordfir.Base.{
  Bool, true, false, not, ◌||◌, Option, none, some, List, [], ◌∷◌, Text, str, any, is_empty, Result,
  ok, err, to_option,
}
use nordfir.Float.{F32}
use nordfir.Format.{FilePath, join, trim, split_whitespace, strip_prefix}
use nordfir.Files.{FileSystem}
use nordfir.Energy.Capabilities.{PowerCapabilities}
use nordfir.Drivers.LinuxRest.{cpufreq}

abbrev is_some : Option Text → Bool
is_some none = false
is_some (some t) = true

-- `str::contains`
unfoldable pub contains_text : Text → Text → Bool
contains_text needle [] = is_empty needle
contains_text needle (c ∷ t) = is_some (strip_prefix needle (c ∷ t)) || contains_text needle t

-- `(!value.is_empty()).then(|| value.to_owned())`
abbrev non_empty : Text → Option Text
non_empty [] = none
non_empty (c ∷ t) = some (c ∷ t)

abbrev trimmed : Option Text → Option Text
trimmed none = none
trimmed (some value) = non_empty (trim value)

abbrev words_of : Option Text → List Text
words_of none = []
words_of (some value) = split_whitespace value

-- `filter_map(Result::ok).any(|entry| entry.file_name()...contains("rapl"))`
abbrev names_rapl : Result Text → Bool
names_rapl (ok name) = contains_text (str "rapl") name
names_rapl (err e) = false

abbrev any_rapl : Result (List (Result Text)) → Bool
any_rapl (ok entries) = any names_rapl entries
any_rapl (err e) = false

abbrev is_writable : Result Bool → Bool
is_writable (ok readonly) = not readonly
is_writable (err e) = false

module _ {S : Type 0} (fs : FileSystem S) where
  unfoldable pub read_trimmed : FilePath → S → Option Text
  read_trimmed path s = trimmed (to_option (fs.read_to_string path s))

  unfoldable pub rapl_available : FilePath → S → Bool
  rapl_available sysfs_root s = any_rapl (fs.read_dir (join sysfs_root (str "class/powercap")) s)

module _ {S F : Type 0} ⦃f : F32 F⦄ (fs : FileSystem S) where
  abbrev to_mhz : Result F → Option F
  to_mhz (ok khz) = some (f.div khz (f.of_ℕ 1000))
  to_mhz (err e) = none

  abbrev parsed_mhz : Option Text → Option F
  parsed_mhz none = none
  parsed_mhz (some text) = to_mhz (f.parse text)

  unfoldable pub read_frequency_mhz : FilePath → S → Option F
  read_frequency_mhz path s = parsed_mhz (read_trimmed fs path s)

  -- `LinuxPowerProbe::probe`
  unfoldable pub probe : FilePath → S → PowerCapabilities F
  probe sysfs_root s =
      let directory = join sysfs_root cpufreq in
      let governor_path = join directory (str "scaling_governor") in
      record {
        cpufreq_available = fs.is_dir directory s;
        current_governor = read_trimmed fs governor_path s;
        available_governors =
            words_of (read_trimmed fs (join directory (str "scaling_available_governors")) s);
        hardware_min_mhz = read_frequency_mhz (join directory (str "cpuinfo_min_freq")) s;
        hardware_max_mhz = read_frequency_mhz (join directory (str "cpuinfo_max_freq")) s;
        scaling_min_mhz = read_frequency_mhz (join directory (str "scaling_min_freq")) s;
        scaling_max_mhz = read_frequency_mhz (join directory (str "scaling_max_freq")) s;
        rapl_available = rapl_available fs sysfs_root s;
        control_writable = is_writable (fs.readonly governor_path s);
      }
