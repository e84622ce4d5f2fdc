-- ===== src/Core/Intents.antt =====
-- archive/rust/src/core/{mod,intent,node}.rs
use nordfir.Base.{Text}

-- The newtype over `String`.
abbrev pub NodeId : Type 0
NodeId = Text

abbrev pub ServiceId : Type 0
ServiceId = Text

pub data PowerMode : Type 0 where
  active rest off : PowerMode

pub data ServiceActivity : Type 0 where
  idle : ServiceActivity
  active : Text → ServiceActivity
  unknown : Text → ServiceActivity

pub data AvailabilityIntent : Type 0 where
  available economize release maintenance : AvailabilityIntent

pub data IntentTarget : Type 0 where
  node : NodeId → IntentTarget
  service : ServiceId → IntentTarget

pub record Intent : Type 0 where
  pub target : IntentTarget
  pub availability : AvailabilityIntent
  pub reason : Text
