-- ===== src/Drivers/Transaction.antt =====
-- The loop that `apply` and `restore_active` of archive/rust/src/drivers/linux_rest.rs share: act on
-- the items one by one, and at the first failure undo, in reverse, all that may have been done.
pub mod Success
pub mod Rollback
pub mod Kept
use nordfir.Base.{Bool, true, false, List, [], ◌∷◌, ◌++◌, Text, str, join_texts, Result, ok, err}
use nordfir.Base.Io.{Io}

-- The operations of a loop. An item that `skip` finds is left alone.
pub record Steps (S I : Type 0) : Type 0 where
  pub skip : I → Bool
  pub act : I → Io S (Unit {0})
  pub undo : I → Io S (Unit {0})
  pub rolled_back : Text → Text
  pub stuck : Text → Text → Text

abbrev pub error_of : Result (Unit {0}) → List Text
error_of (ok _) = []
error_of (err e) = e ∷ []

-- `if errors.is_empty() { Ok(()) } else { Err(errors.join("; ")) }`
unfoldable pub finish : List Text → Result (Unit {0})
finish [] = ok tt
finish (e ∷ es) = err (join_texts (str "; ") (e ∷ es))

module _ {S I : Type 0} (steps : Steps S I) where
  open steps use {skip, act, undo, rolled_back, stuck}

  -- `for item in done.iter().rev()`, with the errors met.
  unfoldable pub undo_all : List I → S → List Text × S
  undo_all [] s = ([], s)
  undo_all (i ∷ is) s =
      let (errors, s') = undo_all is s in let (r, s'') = undo i s' in (errors ++ error_of r, s'')

  unfoldable pub rollback : List I → Io S (Unit {0})
  rollback is s = let (errors, s') = undo_all is s in (finish errors, s')

  abbrev pub report_rollback : Text → Result (Unit {0}) → Text
  report_rollback e (ok _) = rolled_back e
  report_rollback e (err e') = stuck e e'

  unfoldable pub abandon : Text → List I → Io S (List I)
  abandon e is s = let (r, s') = rollback is s in (err (report_rollback e r), s')

  unfoldable pub run : List I → List I → Io S (List I)
  run [] done s = (ok done, s)
  run (i ∷ is) done s = elim (skip i) [
    | true ↦ run is done s
    | false ↦ elim (act i s).0 [
      | ok _ ↦ run is (done ++ i ∷ []) (act i s).1
      | err e ↦ abandon e (done ++ i ∷ []) (act i s).1
    ]
  ]
