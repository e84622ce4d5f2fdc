-- ===== src/Action.antt =====
-- archive/rust/src/action.rs
use nordfir.Base.{Text}
use nordfir.Core.{NodeId, ServiceId, PowerMode}

pub data ActionRisk : Type 0 where
  recoverable disruptive critical : ActionRisk

pub data ActionKind : Type 0 where
  set_power_mode : NodeId → PowerMode → ActionKind
  wake_node : NodeId → ActionKind
  shutdown_node : NodeId → ActionKind
  start_service : ServiceId → ActionKind
  stop_service : ServiceId → ActionKind
  wait : ActionKind

pub record Action : Type 0 where
  pub kind : ActionKind
  pub risk : ActionRisk
  pub reason : Text
