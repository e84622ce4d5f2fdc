-- ===== src/Guards.antt =====
-- archive/rust/src/guards/mod.rs: what a guard answers, and the trait. The four guards are in the
-- modules below. A guard is given the reading of the clock that it may take.
pub mod SshSession
pub mod ActiveService
pub mod RestActivity
pub mod Freshness
pub mod Outcomes
use nordfir.Base.{Text}
use nordfir.Base.Time.{SystemTime}
use nordfir.Core.{NodeSnapshot}
use nordfir.Action.{Action}

pub data GuardSeverity : Type 0 where
  soft hard critical : GuardSeverity

pub data GuardOutcome : Type 0 where
  allow defer block : GuardOutcome

pub record GuardVerdict : Type 0 where
  pub guard : Text
  pub severity : GuardSeverity
  pub outcome : GuardOutcome
  pub reason : Text

pub record Guard (F : Type 0) : Type 0 where
  pub name : Text
  pub evaluate : SystemTime → NodeSnapshot F → Action → GuardVerdict

-- The functions `verdict` and `allow` of the guards' files.
abbrev pub verdict : GuardSeverity → Text → GuardOutcome → Text → GuardVerdict
verdict severity name outcome reason = record {
  guard = name;
  severity = severity;
  outcome = outcome;
  reason = reason;
}
