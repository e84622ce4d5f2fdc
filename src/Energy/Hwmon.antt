-- ===== src/Energy/Hwmon.antt =====
-- archive/rust/src/energy/hwmon.rs: a sensor of the kernel, read from one file in microwatts.
use nordfir.Base.{none, Text, str, ◌++◌, Result, ok, err, ◌⊎◌, inl, inr}
use nordfir.Base.Time.{SystemTime}
use nordfir.Float.{F32}
use nordfir.Format.{FilePath, trim}
use nordfir.Files.{FileSystem}
use nordfir.Energy.Measurement.{PowerSourceKind, PowerScope, Confidence, PowerReading}
use nordfir.Energy.Provider.{PowerReadError, PowerProvider}

pub record HwmonPowerProvider (F : Type 0) : Type 0 where
  pub path : FilePath
  pub provider_name : Text
  pub source : PowerSourceKind
  pub scope : PowerScope
  pub confidence : Confidence F

module _ {F : Type 0} ⦃f : F32 F⦄ (sensor : HwmonPowerProvider F) where
  unfoldable pub parsed_reading : SystemTime → Result F → PowerReading F ⊎ PowerReadError
  parsed_reading now (err e) =
      inr (PowerReadError.failed (str "parse " ++ sensor.path ++ str ": " ++ e))
  parsed_reading now (ok microwatts) = inl (record {
    watts = f.div microwatts (f.of_ℕ 1_000_000);
    source = sensor.source;
    scope = sensor.scope;
    confidence = sensor.confidence;
    observed_at = now;
    uncertainty_watts = none;
    provider = sensor.provider_name;
  })

  unfoldable pub sensor_reading : SystemTime → Result Text → PowerReading F ⊎ PowerReadError
  sensor_reading now (err e) = inr (PowerReadError.unavailable (sensor.path ++ str ": " ++ e))
  sensor_reading now (ok raw) = parsed_reading now (f.parse (trim raw))

  -- The provider in a state of the files, which reading does not change.
  unfoldable pub hwmon_provider : {S : Type 0} → FileSystem S → S → PowerProvider F
  hwmon_provider fs s = record {
    name = sensor.provider_name;
    read_power = λ now snapshot. sensor_reading now (fs.read_to_string sensor.path s);
  }
