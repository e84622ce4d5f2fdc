-- ===== src/Drivers/Transaction/Kept.antt =====
-- The loop of Drivers.Transaction: what each act and each undoing keeps, the whole loop keeps.
use mathlib.Core.Path.{subst}
use nordfir.Base.{sym, inl, inr, List, [], ◌∷◌, ◌++◌, Text}
use nordfir.Base.Io.{Keeps}
use nordfir.Drivers.Transaction.{Steps, undo_all, rollback, abandon, run}
use nordfir.Drivers.Transaction.Success.{run-skip, run-act, run-fail, run-cases}

module _ {S I : Type 0} (steps : Steps S I) (Q : S → Type 0)
    (act_keeps : (i : I) → Keeps Q (steps.act i))
    (undo_keeps : (i : I) → Keeps Q (steps.undo i)) where
  undo_all-keeps : (is : List I) (s : S) → Q s → Q (undo_all steps is s).1
  unfolding undo_all
  undo_all-keeps [] s h = h
  undo_all-keeps (i ∷ is) s h = undo_keeps i (undo_all steps is s).1 (undo_all-keeps is s h)

  abandon-Keeps : (e : Text) (is : List I) → Keeps Q (abandon steps e is)
  unfolding abandon rollback
  abandon-Keeps e is s h = undo_all-keeps is s h

  pub run-Keeps : (is done : List I) → Keeps Q (run steps is done)
  unfolding run
  run-Keeps [] done s h = h
  run-Keeps (i ∷ is) done s h = elim (run-cases steps i s) [
    | inl k ↦ subst (λ x. Q x.1) (sym (run-skip steps i is done s k)) (run-Keeps is done s h)
    | inr (inl (k, r)) ↦
        subst (λ x. Q x.1) (sym (run-act steps i is done s k r))
          (run-Keeps is (done ++ i ∷ []) (steps.act i s).1 (act_keeps i s h))
    | inr (inr (k, (e, r))) ↦
        subst (λ x. Q x.1) (sym (run-fail steps i is done s e k r))
          (abandon-Keeps e (done ++ i ∷ []) (steps.act i s).1 (act_keeps i s h))
  ]
