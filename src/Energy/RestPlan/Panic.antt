-- ===== src/Energy/RestPlan/Panic.antt =====
-- When the planner panics.
use nordfir.Base.{◌≡◌, false, Option, some}
use nordfir.Float.{F32}

module _ {F : Type 0} ⦃f : F32 F⦄ where
  -- The limits are known, and cannot be compared: one of them is NaN.
  abbrev pub AreUnordered : Option F → Option F → Option F → Type 0
  AreUnordered minimum maximum now =
      (lo : F) × (hi : F) × (current : F) × (minimum ≡ some lo)
      × (maximum ≡ some hi)
      × (now ≡ some current)
      × (f.lt hi lo ≡ false)
      × (f.le lo hi ≡ false)
