-- ===== src/Core/Observations.antt =====
-- archive/rust/src/core/observation.rs. The time of the call is an argument where the source reads
-- the clock.
use nordfir.Base.{Bool, false, Option, none, some, Text, leb}
use nordfir.Base.Time.{SystemTime, Duration, duration_since}

pub data ObservationValue {ℓ} (A : Type ℓ) : Type ℓ where
  known : A → ObservationValue A
  unknown : Text → ObservationValue A
  unavailable : Text → ObservationValue A

pub record Observation {ℓ} (A : Type ℓ) : Type ℓ where
  pub value : ObservationValue A
  pub observed_at : SystemTime
  pub source : Text

module _ {ℓ} {A : Type ℓ} where
  abbrev pub known_at : A → Text → SystemTime → Observation A
  known_at a source at = record {
    value = ObservationValue.known a;
    observed_at = at;
    source = source;
  }

  abbrev pub unknown_at : Text → Text → SystemTime → Observation A
  unknown_at reason source at = record {
    value = ObservationValue.unknown reason;
    observed_at = at;
    source = source;
  }

  abbrev pub unavailable_at : Text → Text → SystemTime → Observation A
  unavailable_at reason source at = record {
    value = ObservationValue.unavailable reason;
    observed_at = at;
    source = source;
  }

  unfoldable pub age : Observation A → SystemTime → Option Duration
  unfolding duration_since
  age o now = duration_since now o.observed_at

  unfoldable pub is_fresh : Observation A → SystemTime → Duration → Bool
  unfolding age
  is_fresh o now max_age = elim (age o now) [ none ↦ false | some d ↦ leb d max_age ]
