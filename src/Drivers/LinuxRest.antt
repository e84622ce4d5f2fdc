-- ===== src/Drivers/LinuxRest.antt =====
-- archive/rust/src/drivers/linux_rest.rs: the types, the files and what is read from and written to
-- them (lines 11 to 42 and 348 to 405).
pub mod Files
pub mod Checks
pub mod Apply
pub mod Restore
pub mod Kept
use nordfir.Base.{
  ℕ, Bool, true, false, not, ◌||◌, List, Text, str, text_eq, ◌++◌, Result, ok, err, ◌>>=◌, ◌>>◌,
  refuse, context,
}
use nordfir.Base.Io.{Io, continue, context as context_io, unless}
use nordfir.Float.{F32}
use nordfir.Format.{FilePath, join, trim, decimal}
use nordfir.Energy.RestPlan.{RestChange}

-- `fs::read_to_string` and `fs::write` over a state `S` of the kernel's files.
pub record Sysfs (S : Type 0) : Type 0 where
  pub read : FilePath → S → Result Text
  pub write : FilePath → Text → Io S (Unit {0})

unfoldable pub cpufreq : Text
cpufreq = str "devices/system/cpu/cpu0/cpufreq"

unfoldable pub governor_file : Text
governor_file = str "scaling_governor"

unfoldable pub min_freq_file : Text
min_freq_file = str "scaling_min_freq"

unfoldable pub max_freq_file : Text
max_freq_file = str "scaling_max_freq"

unfoldable pub cpufreq_path : FilePath → Text → FilePath
cpufreq_path root name = join (join root cpufreq) name

pub record RestApplyReport (F : Type 0) : Type 0 where
  pub applied : List (RestChange F)

pub data RestoredSetting : Type 0 where
  cpu_maximum_frequency cpu_minimum_frequency cpu_governor : RestoredSetting

pub record ActiveRestoreReport : Type 0 where
  pub restored : List RestoredSetting

pub record LivePowerState (F : Type 0) : Type 0 where
  pub governor : Text
  pub scaling_min_mhz : F
  pub scaling_max_mhz : F

unfoldable pub approximately_equal : {F : Type 0} ⦃f : F32 F⦄ → F → F → Bool
approximately_equal {F} ⦃f⦄ left right =
    f.lt (f.abs (f.sub left right)) (f.div (f.of_ℕ 1) (f.of_ℕ 2))

module _ {S : Type 0} (sys : Sysfs S) where
  unfoldable pub read_trimmed : FilePath → S → Result Text
  read_trimmed path s = do
    value ← context (str "read " ++ path ++ str ": ") (sys.read path s)
    ok (trim value)

  unfoldable pub verify_text : FilePath → Text → S → Result (Unit {0})
  verify_text path expected s = do
    actual ← read_trimmed path s
    refuse (not (text_eq actual expected)) (
        path
        ++ str " changed since planning: expected '"
        ++ expected
        ++ str "', found '"
        ++ actual
        ++ str "'")

  -- `fs::write` with the error that the driver makes of its failure, and then a check.
  unfoldable pub write_then : FilePath → Text → (S → Result (Unit {0})) → Io S (Unit {0})
  write_then path value verify s =
      let (r, s') = sys.write path value s in
      (context (str "write " ++ path ++ str ": ") r >> verify s', s')

  unfoldable pub write_and_verify_text : FilePath → Text → Io S (Unit {0})
  write_and_verify_text path value = write_then path value (verify_text path value)

module _ {S F : Type 0} ⦃f : F32 F⦄ (sys : Sysfs S) where
  unfoldable pub read_frequency : FilePath → S → Result F
  read_frequency path s = do
    text ← read_trimmed sys path s
    actual_khz ← context (str "parse " ++ path ++ str ": ") (f.parse text)
    ok (f.div actual_khz (f.of_ℕ 1000))

  unfoldable pub verify_frequency : FilePath → F → S → Result (Unit {0})
  verify_frequency path expected_mhz s = do
    actual_mhz ← read_frequency path s
    refuse (not (approximately_equal actual_mhz expected_mhz)) (
        path
        ++ str " changed since planning: expected "
        ++ f.display_fixed 0 expected_mhz
        ++ str " MHz, found "
        ++ f.display_fixed 0 actual_mhz
        ++ str " MHz")

  unfoldable pub write_and_verify_frequency : FilePath → F → Io S (Unit {0})
  write_and_verify_frequency path value_mhz =
      unless (not (f.is_finite value_mhz) || f.le value_mhz (f.of_ℕ 0))
        (str "refusing to write an invalid CPU frequency")
        (write_then sys path (decimal (f.to_u64 (f.round (f.mul value_mhz (f.of_ℕ 1000)))))
          (verify_frequency path value_mhz))
