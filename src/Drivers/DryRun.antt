-- ===== src/Drivers/DryRun.antt =====
-- archive/rust/src/drivers/dry_run.rs: `DryRunDriver`. A mutex is what it guards and whether it is poisoned.
use nordfir.Base.{Bool, true, false, List, [], ◌∷◌, ◌++◌, str, Result, ok, err, if◌then◌else◌}
use nordfir.Action.{Action}

pub record DryRunDriver : Type 0 where
  pub actions : List Action
  pub poisoned : Bool

-- `DryRunDriver::default`
abbrev pub new_dry_run : DryRunDriver
new_dry_run = record { actions = []; poisoned = false }

unfoldable pub recorded_actions : DryRunDriver → List Action
recorded_actions d = if d.poisoned then [] else d.actions

unfoldable pub supports : DryRunDriver → Action → Bool
supports d action = true

unfoldable pub execute : DryRunDriver → Action → Result (Unit {0}) × DryRunDriver
execute d action =
    if d.poisoned
    then (err (str "dry-run action log lock poisoned"), d)
    else (ok tt, record d { actions = d.actions ++ action ∷ [] })
