-- ===== src/Drivers/Transaction/Success.antt =====
-- A loop that succeeds leaves every item as it should be.
use mathlib.Core.Path.{subst}
use nordfir.Base.{
  ◌≡◌, sym, ◌∙◌, ◌≢◌, ◌⊎◌, inl, inr, true, false, List, [], ◌∷◌, ◌++◌, append-nil, append_assoc,
  Text, Result, ok, err, ok-injective, All, Bool-cases, Result-cases,
}
use nordfir.Base.Io.{Io}
use nordfir.Drivers.Transaction.{Steps, run, abandon}

module _ {I P : Type 0} (place : I → P) where
  -- No two items are at one place.
  abbrev pub IsApart : I → List I → Type 0
  IsApart i = All λ j. place i ≢ place j

  abbrev pub NoRepeat : List I → Type 0
  NoRepeat [] = Unit
  NoRepeat (i ∷ is) = IsApart i is × NoRepeat is

  -- What an operation does elsewhere leaves the property of an item alone.
  abbrev pub KeepsOthers : {S : Type 0} → (I → S → Type 0) → (I → Io S (Unit {0})) → Type 0
  KeepsOthers {S} Q op = (i j : I) (s : S) → place i ≢ place j → Q i s → Q i (op j s).1

module _ {S I : Type 0} (steps : Steps S I) where
  open steps use {skip, act}

  -- The items that are not skipped.
  abbrev pub chosen : List I → List I
  chosen [] = []
  chosen (i ∷ is) = elim (skip i) [ true ↦ chosen is | false ↦ i ∷ chosen is ]

  abandon-ne-ok :
      (e : Text) (is : List I) (s : S) {out : List I} → (abandon steps e is s).0 ≢ ok out
  unfolding abandon
  abandon-ne-ok e is s h = cc

  pub run-skip :
      (i : I) (is done : List I) (s : S)
      → skip i ≡ true
      → run steps (i ∷ is) done s ≡ run steps is done s
  unfolding run
  run-skip i is done s k = rw (k, run)

  pub run-act :
      (i : I) (is done : List I) (s : S)
      → skip i ≡ false
      → (act i s).0 ≡ ok tt
      → run steps (i ∷ is) done s ≡ run steps is (done ++ i ∷ []) (act i s).1
  unfolding run
  run-act i is done s k r = rw (k, r, run)

  pub run-fail :
      (i : I) (is done : List I) (s : S) (e : Text)
      → skip i ≡ false
      → (act i s).0 ≡ err e
      → run steps (i ∷ is) done s ≡ abandon steps e (done ++ i ∷ []) (act i s).1
  unfolding run
  run-fail i is done s e k r = rw (k, r, run)

  -- The three ways to go on from an item.
  pub run-cases :
      (i : I) (s : S)
      → (skip i ≡ true)
        ⊎ ((skip i ≡ false) × ((act i s).0 ≡ ok tt))
        ⊎ ((skip i ≡ false) × ((e : Text) × ((act i s).0 ≡ err e)))
  run-cases i s = elim (Bool-cases (skip i)) [
    | inl k ↦ inl k
    | inr k ↦ elim (Result-cases (act i s).0) [
      | inl (u, r) ↦ inr (inl (k, r))
      | inr (e, r) ↦ inr (inr (k, (e, r)))
    ]
  ]

module _ {S I P : Type 0} (place : I → P) (steps : Steps S I) (Holds : I → S → Type 0)
    (keeps : KeepsOthers place Holds steps.act) where
  open steps use {skip, act}

  run-Holds_other :
      (i : I) (is done : List I) (s : S) {out : List I}
      → IsApart place i is
      → Holds i s
      → (run steps is done s).0 ≡ ok out
      → Holds i (run steps is done s).1
  unfolding run
  run-Holds_other i [] done s _ h e = h
  run-Holds_other i (j ∷ is) done s (a, others) h e = elim (run-cases steps j s) [
    | inl k ↦
        rw (run-skip steps j is done s k)
          (run-Holds_other i is done s others h (rw (run-skip steps j is done s k) at e))
    | inr (inl (k, r)) ↦ rw (run-act steps j is done s k r) (
        run-Holds_other i is _ _ others (keeps i j s a h) (rw (run-act steps j is done s k r) at e))
    | inr (inr (k, (t, r))) ↦
        absurd (abandon-ne-ok steps t _ _ (rw (run-fail steps j is done s t k r) at e))
  ]

  -- An item of which the property holds already if it is skipped.
  abbrev pub IsReady : S → I → Type 0
  IsReady s i = skip i ≡ true → Holds i s

  act-IsReady :
      (i : I) (is : List I) (s : S)
      → IsApart place i is
      → All (IsReady s) is
      → All (IsReady (act i s).1) is
  act-IsReady i [] s _ _ = tt
  act-IsReady i (j ∷ is) s (a, apart) (r, ready) =
      (λ k. keeps j i s (λ e. a (sym e)) (r k), act-IsReady i is s apart ready)

  module _ (achieves : (i : I) (s : S) → (act i s).0 ≡ ok tt → Holds i (act i s).1) where
    -- The property holds of every item in the state that is left, and `out` is what was done before
    -- and what was not to be skipped.
    abbrev pub Achieved : List I → List I → List I → Result (List I) × S → Type 0
    Achieved is done out (r, s) = All (λ i. Holds i s) is × (out ≡ done ++ chosen steps is)

    -- After a successful loop over different places the property holds of every item, and what was
    -- done is what was not to be skipped.
    pub run-Holds :
        (is done : List I) (s : S) {out : List I}
        → NoRepeat place is
        → All (IsReady s) is
        → (run steps is done s).0 ≡ ok out
        → Achieved is done out (run steps is done s)
    unfolding run
    run-Holds [] done s _ _ e = (tt, sym (ok-injective e) ∙ sym (append-nil done))
    run-Holds (i ∷ is) done s {out} (a, apart) (r, ready) e = elim (run-cases steps i s) [
      | inl k ↦
          let step = run-skip steps i is done s k in
          let e' = rw step at e in
          let (held, same) = run-Holds is done s apart ready e' in
          subst (Achieved (i ∷ is) done out) (sym step)
            ((run-Holds_other i is done s a (r k) e', held), rw (k, chosen) same)
      | inr (inl (k, act_ok)) ↦
          let step = run-act steps i is done s k act_ok in
          let e' = rw step at e in
          let (held, same) = run-Holds is _ _ apart (act-IsReady i is s a ready) e' in
          subst (Achieved (i ∷ is) done out) (sym step) (
            (run-Holds_other i is _ _ a (achieves i s act_ok) e', held),
            rw (k, chosen) (same ∙ append_assoc done (i ∷ []) (chosen steps is)),
          )
      | inr (inr (k, (t, failed))) ↦
          absurd (abandon-ne-ok steps t _ _ (rw (run-fail steps i is done s t k failed) at e))
    ]
