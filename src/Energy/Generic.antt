-- ===== src/Energy/Generic.antt =====
-- archive/rust/src/energy/{calibration,generic}.rs
use nordfir.Base.{◌⊎◌, inl, inr, Option, none, some, str}
use nordfir.Base.Time.{SystemTime}
use nordfir.Float.{F32, clamp_unit}
use nordfir.Core.{Observation, ObservationValue, known}
use nordfir.Energy.Measurement.{PowerReading, PowerSourceKind, PowerScope, new_confidence}
use nordfir.Energy.Provider.{PowerProvider, PowerReadError}

pub record LinearPowerModel (F : Type 0) : Type 0 where
  pub baseline_watts : F
  pub cpu_watts_per_unit : F
  pub memory_watts_per_unit : F
  pub disk_watts_per_unit : F
  pub network_watts_per_unit : F
  pub typical_error_watts : Option F

pub record UtilizationSample (F : Type 0) : Type 0 where
  pub cpu : F
  pub memory : F
  pub disk : F
  pub network : F

module _ {F : Type 0} ⦃f : F32 F⦄ where
  unfoldable pub estimate_watts : LinearPowerModel F → UtilizationSample F → F
  estimate_watts m u =
      f.add
        (f.add
          (f.add (f.add m.baseline_watts (f.mul m.cpu_watts_per_unit (clamp_unit u.cpu)))
            (f.mul m.memory_watts_per_unit (clamp_unit u.memory)))
          (f.mul m.disk_watts_per_unit (clamp_unit u.disk)))
        (f.mul m.network_watts_per_unit (clamp_unit u.network))

  percent_of : ObservationValue F → Option F
  percent_of (known value) = some (clamp_unit (f.div value (f.of_ℕ 100)))
  percent_of _ = none

  unfoldable pub percent : Option (Observation F) → Option F
  unfolding percent_of
  percent none = none
  percent (some o) = percent_of o.value

  -- `Option::or`
  abbrev or_else : Option F → F → F
  or_else (some x) y = x
  or_else none y = y

  estimate : LinearPowerModel F → SystemTime → Option F → Option F → PowerReading F ⊎ PowerReadError
  estimate m now none memory = inr (PowerReadError.unavailable (str "CPU utilization unavailable"))
  estimate m now (some cpu) none =
      inr (PowerReadError.unavailable (str "memory utilization unavailable"))
  estimate m now (some cpu) (some memory) = inl (record {
    watts =
        estimate_watts m
          (record { cpu = cpu; memory = memory; disk = f.of_ℕ 0; network = f.of_ℕ 0 });
    source = PowerSourceKind.generic_estimate;
    scope = PowerScope.whole_system;
    confidence = new_confidence (f.div (f.of_ℕ 35) (f.of_ℕ 100));
    observed_at = now;
    uncertainty_watts = some (or_else m.typical_error_watts (f.of_ℕ 25));
    provider = str "nordfir-generic-estimate";
  })

  unfoldable pub generic_estimate_provider : LinearPowerModel F → PowerProvider F
  unfolding estimate
  generic_estimate_provider m = record {
    name = str "nordfir-generic-estimate";
    read_power = λ now s.
        estimate m now (percent s.cpu_utilization_percent) (percent s.memory_utilization_percent);
  }
