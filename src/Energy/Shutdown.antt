-- ===== src/Energy/Shutdown.antt =====
-- archive/rust/src/energy/estimate.rs, energy/model.rs: what shutting a node down would save.
use nordfir.Base.{◌&&◌, Option, none, some, if◌then◌else◌}
use nordfir.Base.Time.{Duration}
use nordfir.Float.{F32}

pub record EnergyModel (F : Type 0) : Type 0 where
  pub active_idle_watts : Option F
  pub rest_watts : Option F
  pub off_watts : Option F
  pub electricity_price_per_kwh : Option F
  pub estimated_cycle_cost : Option F
  pub minimum_off_time : Duration

pub data EstimateConfidence : Type 0 where
  low medium high : EstimateConfidence

pub record EnergyEstimate (F : Type 0) : Type 0 where
  pub expected_idle : Duration
  pub estimated_saving : Option F
  pub break_even : Option Duration
  pub confidence : EstimateConfidence

-- `Some(Duration::from_secs_f32(seconds))`; the outer `none` is its panic.
abbrev some_duration : Option Duration → Option (Option Duration)
some_duration none = none
some_duration (some d) = some (some d)

module _ {F : Type 0} ⦃f : F32 F⦄ where
  unfoldable pub saving_of : Duration → Option F → Option F → Option F → Option F
  saving_of idle (some rest) (some off) (some price) =
      if f.lt off rest
      then some (
          f.mul
            (f.mul (f.div (f.sub rest off) (f.of_ℕ 1000))
              (f.div (f.as_secs_f32 idle) (f.of_ℕ 3600)))
            price)
      else none
  saving_of idle _ _ _ = none

  unfoldable pub break_even_of :
      Option F → Option F → Option F → Option F → Option (Option Duration)
  break_even_of (some rest) (some off) (some price) (some cycle) =
      if f.lt off rest && f.lt (f.of_ℕ 0) price
      then some_duration (
          f.from_secs_f32 (
            f.mul (f.div cycle (f.mul (f.div (f.sub rest off) (f.of_ℕ 1000)) price)) (f.of_ℕ 3600)))
      else some none
  break_even_of _ _ _ _ = some none

  unfoldable pub estimated :
      Duration → Option F → Option (Option Duration) → Option (EnergyEstimate F)
  estimated idle saving none = none
  estimated idle saving (some break_even) = some (record {
    expected_idle = idle;
    estimated_saving = saving;
    break_even = break_even;
    confidence = EstimateConfidence.low;
  })

  -- `none` is the panic of `Duration::from_secs_f32`.
  unfoldable pub estimate_shutdown : EnergyModel F → Duration → Option (EnergyEstimate F)
  estimate_shutdown model idle =
      estimated idle
        (saving_of idle model.rest_watts model.off_watts model.electricity_price_per_kwh)
        (break_even_of model.rest_watts model.off_watts model.electricity_price_per_kwh
          model.estimated_cycle_cost)
