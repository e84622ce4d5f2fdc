-- ===== src/Tests.antt =====
-- The theorems at concrete inputs.
mod Milli
mod Engine
mod Energy
mod Services
mod Disk
mod Store
mod Driver
mod Host
mod Commands
mod Reports
