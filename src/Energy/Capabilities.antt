-- ===== src/Energy/Capabilities.antt =====
-- archive/rust/src/energy/{capabilities,profile}.rs
use nordfir.Base.{ℕ, Bool, true, false, Option, none, some, List, [], Text}
use nordfir.Core.{PowerMode}

pub record PowerCapabilities (F : Type 0) : Type 0 where
  pub cpufreq_available : Bool
  pub current_governor : Option Text
  pub available_governors : List Text
  pub hardware_min_mhz : Option F
  pub hardware_max_mhz : Option F
  pub scaling_min_mhz : Option F
  pub scaling_max_mhz : Option F
  pub rapl_available : Bool
  pub control_writable : Bool

-- `PowerCapabilities::unavailable`
abbrev pub no_capabilities : {F : Type 0} → PowerCapabilities F
no_capabilities = record {
  cpufreq_available = false;
  current_governor = none;
  available_governors = [];
  hardware_min_mhz = none;
  hardware_max_mhz = none;
  scaling_min_mhz = none;
  scaling_max_mhz = none;
  rapl_available = false;
  control_writable = false;
}

pub record PowerProfile : Type 0 where
  pub mode : PowerMode
  pub cpu_max_percent : Option ℕ
  pub preserve_network : Bool
  pub preserve_ssh : Bool

abbrev pub rest_default : PowerProfile
rest_default = record {
  mode = PowerMode.rest;
  cpu_max_percent = some 40;
  preserve_network = true;
  preserve_ssh = true;
}
