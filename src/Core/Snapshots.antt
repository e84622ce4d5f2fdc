-- ===== src/Core/Snapshots.antt =====
-- archive/rust/src/core/snapshot.rs, over a type for `f32`. A `BTreeSet` is the list of its members
-- in order, a `BTreeMap` the list of its entries.
use nordfir.Base.{ℕ, Bool, Option, none, some, List, [], ◌∷◌, Text, text_eq, if◌then◌else◌}
use nordfir.Core.Intents.{NodeId, ServiceId, PowerMode, ServiceActivity}
use nordfir.Core.Observations.{Observation}
use nordfir.Energy.Measurement.{PowerReading}

-- `BTreeMap::get`
unfoldable pub get {ℓ} : {V : Type ℓ} → Text → List (Text × V) → Option V
get k [] = none
get k ((j, v) ∷ m) = if text_eq j k then some v else get k m

pub record NodeSnapshot (F : Type 0) : Type 0 where
  pub node : NodeId
  pub power_mode : Observation PowerMode
  pub reachable : Observation Bool
  pub active_ssh_sessions : Observation ℕ
  pub protected_services : List ServiceId
  pub services : List (ServiceId × Observation ServiceActivity)
  pub cpu_utilization_percent : Option (Observation F)
  pub memory_utilization_percent : Option (Observation F)
  pub load_average_1m : Option (Observation F)
  pub uptime_seconds : Option (Observation ℕ)
  pub cpu_frequency_mhz : Option (Observation F)
  pub power : Option (PowerReading F)
