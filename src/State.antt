-- ===== src/State.antt =====
-- archive/rust/src/state: the saved original power state, and the store that keeps it.
pub mod OriginalPower
pub mod Store
pub mod PowerProbe
pub mod Collector
