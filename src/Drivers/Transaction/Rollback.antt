-- ===== src/Drivers/Transaction/Rollback.antt =====
-- A loop that fails and says that it rolled back has left every item as it was.
use mathlib.Core.Path.{subst}
use nordfir.Base.{
  ◌≡◌, refl, sym, ap, ◌∙◌, ◌≢◌, ◌⊎◌, inl, inr, List, [], ◌∷◌, ◌++◌, Text, Result, ok, err,
  err-injective, All, All-map, All-append, Result-cases,
}
use nordfir.Drivers.Transaction.{
  Steps, run, abandon, rollback, undo_all, error_of, finish, report_rollback,
}
use nordfir.Drivers.Transaction.Success.{
  IsApart, NoRepeat, KeepsOthers, run-skip, run-act, run-fail, run-cases,
}

append-eq-nil {ℓ} : {A : Type ℓ} (xs ys : List A) → xs ++ ys ≡ [] → (xs ≡ []) × (ys ≡ [])
append-eq-nil [] ys h = (refl, h)
append-eq-nil (x ∷ xs) ys h = cc

error_of-eq-nil : (r : Result (Unit {0})) → error_of r ≡ [] → r ≡ ok tt
error_of-eq-nil (ok tt) h = refl
error_of-eq-nil (err e) h = cc

finish-eq-ok : (es : List Text) → finish es ≡ ok tt → es ≡ []
unfolding finish
finish-eq-ok [] h = refl
finish-eq-ok (e ∷ es) h = cc

All-init {ℓ} :
    {A : Type ℓ} (P : A → Type ℓ) (xs : List A) (x : A) → All P (xs ++ x ∷ []) → All P xs × P x
All-init P [] x (p, _) = (tt, p)
All-init P (y ∷ xs) x (p, ps) = let (qs, q) = All-init P xs x ps in ((p, qs), q)

module _ {I P : Type 0} (place : I → P) where
  NoRepeat-append :
      (is : List I) (i : I) → NoRepeat place is → IsApart place i is → NoRepeat place (is ++ i ∷ [])
  NoRepeat-append [] i _ _ = (tt, tt)
  NoRepeat-append (j ∷ is) i (a, as') (b, bs) =
      (All-append _ is (i ∷ []) a ((λ e. b (sym e), tt)), NoRepeat-append is i as' bs)

  -- Each of `is` is apart from each of `done`.
  abbrev pub AreApart : List I → List I → Type 0
  AreApart is done = All (λ i. IsApart place i done) is

  pub AreApart-nil : (is : List I) → AreApart is []
  AreApart-nil [] = tt
  AreApart-nil (i ∷ is) = (tt, AreApart-nil is)

  AreApart-append :
      (is done : List I) (i : I)
      → AreApart is done
      → IsApart place i is
      → AreApart is (done ++ i ∷ [])
  AreApart-append [] done i _ _ = tt
  AreApart-append (j ∷ is) done i (a, more) (b, others) =
      (All-append _ done (i ∷ []) a ((λ e. b (sym e), tt)), AreApart-append is done i more others)

module _ {S I P : Type 0} (place : I → P) (steps : Steps S I) (Start : I → S → Type 0)
    (act_keeps : KeepsOthers place Start steps.act)
    (undo_keeps : KeepsOthers place Start steps.undo) where
  open steps use {act, undo}

  undo_all-Start :
      (i : I) (is : List I) (s : S)
      → IsApart place i is
      → Start i s
      → Start i (undo_all steps is s).1
  unfolding undo_all
  undo_all-Start i [] s _ h = h
  undo_all-Start i (j ∷ is) s (a, others) h =
      undo_keeps i j (undo_all steps is s).1 a (undo_all-Start i is s others h)

  abandon-Start :
      (i : I) (e : Text) (is : List I) (s : S)
      → IsApart place i is
      → Start i s
      → Start i (abandon steps e is s).1
  unfolding abandon rollback
  abandon-Start i e is s a h = undo_all-Start i is s a h

  -- Whatever the outcome, an item that the loop never comes to is left alone.
  run-Start :
      (i : I) (is done : List I) (s : S)
      → IsApart place i is
      → IsApart place i done
      → Start i s
      → Start i (run steps is done s).1
  unfolding run
  run-Start i [] done s _ _ h = h
  run-Start i (j ∷ is) done s (a, others) b h = elim (run-cases steps j s) [
    | inl k ↦ rw (run-skip steps j is done s k) (run-Start i is done s others b h)
    | inr (inl (k, r)) ↦ rw (run-act steps j is done s k r) (
        run-Start i is (done ++ j ∷ []) (act j s).1 others (All-append _ done (j ∷ []) b (a, tt))
          (act_keeps i j s a h))
    | inr (inr (k, (e, r))) ↦ rw (run-fail steps j is done s e k r) (
        abandon-Start i e (done ++ j ∷ []) (act j s).1 (All-append _ done (j ∷ []) b (a, tt))
          (act_keeps i j s a h))
  ]

  act-Starts :
      (i : I) (is : List I) (s : S)
      → IsApart place i is
      → All (λ j. Start j s) is
      → All (λ j. Start j (act i s).1) is
  act-Starts i [] s _ _ = tt
  act-Starts i (j ∷ is) s (a, others) (h, hs) =
      (act_keeps j i s (λ e. a (sym e)) h, act-Starts i is s others hs)

  abandon-Starts :
      (e : Text) (is done : List I) (s : S)
      → AreApart place is done
      → All (λ j. Start j s) is
      → All (λ j. Start j (abandon steps e done s).1) is
  abandon-Starts e [] done s _ _ = tt
  abandon-Starts e (j ∷ is) done s (a, others) (h, hs) =
      (abandon-Start j e done s a h, abandon-Starts e is done s others hs)

  module _ (Back : I → S → Type 0) (back_keeps : KeepsOthers place Back undo)
      (undoes : (i : I) (s : S) → (undo i s).0 ≡ ok tt → Back i (undo i s).1)
      (differ : (a b c : Text) → steps.rolled_back a ≢ steps.stuck b c) where
    undo-Back :
        (i : I) (is : List I) (s : S)
        → IsApart place i is
        → All (λ j. Back j s) is
        → All (λ j. Back j (undo i s).1) is
    undo-Back i [] s _ _ = tt
    undo-Back i (j ∷ is) s (a, others) (h, hs) =
        (back_keeps j i s (λ e. a (sym e)) h, undo-Back i is s others hs)

    undo_all-Back :
        (is : List I) (s : S)
        → NoRepeat place is
        → (undo_all steps is s).0 ≡ []
        → All (λ i. Back i (undo_all steps is s).1) is
    unfolding undo_all
    undo_all-Back [] s _ _ = tt
    undo_all-Back (i ∷ is) s (a, apart) h =
        let (earlier, last) = append-eq-nil (undo_all steps is s).0 _ h in
        (
          undoes i (undo_all steps is s).1 (error_of-eq-nil _ last),
          undo-Back i is (undo_all steps is s).1 a (undo_all-Back is s apart earlier),
        )

    -- A rollback without errors has undone every item.
    rollback-Back :
        (is : List I) (s : S)
        → NoRepeat place is
        → (rollback steps is s).0 ≡ ok tt
        → All (λ i. Back i (rollback steps is s).1) is
    unfolding rollback
    rollback-Back is s apart h = undo_all-Back is s apart (finish-eq-ok (undo_all steps is s).0 h)

    abandon-Back :
        (e e' : Text) (is : List I) (s : S)
        → NoRepeat place is
        → (abandon steps e is s).0 ≡ err (steps.rolled_back e')
        → All (λ i. Back i (abandon steps e is s).1) is
    unfolding abandon
    abandon-Back e e' is s apart h = elim (Result-cases (rollback steps is s).0) [
      | inl (u, r) ↦ rollback-Back is s apart r
      | inr (t, r) ↦ absurd (
          differ e' e t (
            err-injective
              (sym h ∙ ap (λ (x : Result (Unit {0})). err (report_rollback steps e x)) r)))
    ]

    -- What a failed loop leaves: `done` undone, and each of `is` undone or never touched.
    abbrev pub LeftAsBefore : List I → List I → S → Type 0
    LeftAsBefore is done s = All (λ i. Back i s) done × All (λ i. Start i s ⊎ Back i s) is

    -- A loop over different places that says that it rolled back has undone all that it did before
    -- and each item it came to, and left the others as they were.
    pub run-Back :
        (is done : List I) (s : S) (e : Text)
        → NoRepeat place is
        → NoRepeat place done
        → AreApart place is done
        → All (λ i. Start i s) is
        → (run steps is done s).0 ≡ err (steps.rolled_back e)
        → LeftAsBefore is done (run steps is done s).1
    unfolding run
    run-Back [] done s e _ _ _ _ h = cc
    run-Back (i ∷ is) done s e (a, apart) before (b, others) (start, starts) h =
        elim (run-cases steps i s) [
          | inl k ↦
              let step = run-skip steps i is done s k in
              let (undone, rest) = run-Back is done s e apart before others starts (rw step at h) in
              subst (λ x. LeftAsBefore (i ∷ is) done x.1) (sym step)
                (undone, (inl (run-Start i is done s a b start), rest))
          | inr (inl (k, r)) ↦
              let step = run-act steps i is done s k r in
              let (undone, rest) =
                run-Back is (done ++ i ∷ []) (act i s).1 e apart
                  (NoRepeat-append place done i before b) (AreApart-append place is done i others a)
                  (act-Starts i is s a starts) (rw step at h) in
              let (earlier, this) = All-init _ done i undone in
              subst (λ x. LeftAsBefore (i ∷ is) done x.1) (sym step) (earlier, (inr this, rest))
          | inr (inr (k, (t, r))) ↦
              let step = run-fail steps i is done s t k r in
              let undone =
                abandon-Back t e (done ++ i ∷ []) (act i s).1
                  (NoRepeat-append place done i before b) (rw step at h) in
              let (earlier, this) = All-init _ done i undone in
              let later =
                abandon-Starts t is (done ++ i ∷ []) (act i s).1
                  (AreApart-append place is done i others a) (act-Starts i is s a starts) in
              subst (λ x. LeftAsBefore (i ∷ is) done x.1) (sym step)
                (earlier, (inr this, All-map is (λ _. inl) later))
        ]
