-- ===== src/Drivers.antt =====
-- archive/rust/src/drivers: the executors.
pub mod Transaction
pub mod LinuxRest
pub mod DryRun
