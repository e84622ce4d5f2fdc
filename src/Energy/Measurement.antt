-- ===== src/Energy/Measurement.antt =====
-- archive/rust/src/energy/measurement.rs
use nordfir.Base.{Bool, false, Option, none, some, Text, leb}
use nordfir.Base.Time.{SystemTime, Duration, duration_since}
use nordfir.Float.{F32, clamp_unit}

pub data PowerSourceKind : Type 0 where
  external_meter : PowerSourceKind
  system_sensor : PowerSourceKind
  component_sensor : PowerSourceKind
  calibrated_estimate : PowerSourceKind
  generic_estimate : PowerSourceKind

pub data PowerScope : Type 0 where
  whole_system component : PowerScope

-- The newtype over `f32`.
pub record Confidence (F : Type 0) : Type 0 where
  pub value : F

pub record PowerReading (F : Type 0) : Type 0 where
  pub watts : F
  pub source : PowerSourceKind
  pub scope : PowerScope
  pub confidence : Confidence F
  pub observed_at : SystemTime
  pub uncertainty_watts : Option F
  pub provider : Text

module _ {F : Type 0} where
  -- `Confidence::new`
  pub new_confidence : ⦃f : F32 F⦄ → F → Confidence F
  new_confidence v = record { value = clamp_unit v }

  pub age : PowerReading F → SystemTime → Option Duration
  age r now = duration_since now r.observed_at

  pub is_fresh : PowerReading F → SystemTime → Duration → Bool
  unfolding age
  is_fresh r now max_age = elim (age r now) [ none ↦ false | some d ↦ leb d max_age ]
