-- ===== src/Energy.antt =====
-- archive/rust/src/energy: measurements, capabilities, profiles and the REST plan.
pub mod Measurement
pub mod Capabilities
pub mod RestPlan
pub mod Provider
pub mod Generic
pub mod Hwmon
pub mod Shutdown
