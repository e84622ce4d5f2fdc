-- ===== src/Energy/Provider/Best.antt =====
-- `read_best` takes the first provider that works.
use nordfir.Base.{
  Sum-cases, ◌≡◌, refl, sym, append-nil, ◌∙◌, ap, ◌⊎◌, inl, inr, List, [], ◌∷◌, ◌++◌, append_assoc,
}
use nordfir.Base.Time.{SystemTime}
use nordfir.Core.{NodeSnapshot}
use nordfir.Energy.Measurement.{PowerReading}
use nordfir.Energy.Provider.{
  PowerProvider, PowerReadError, Failing, none_left, one_more, read_loop, read_best,
}

module _ {F : Type 0} (now : SystemTime) (s : NodeSnapshot F) where
  abbrev pub Best :
      List (PowerProvider F) → List PowerReadError → PowerReading F ⊎ List PowerReadError → Type 0
  Best ps errors (inl reading) =
      (before : List (PowerProvider F)) × (p : PowerProvider F) × (after : List (PowerProvider F))
      × (es : List PowerReadError) × (ps ≡ before ++ p ∷ after)
      × Failing now s before es
      × (p.read_power now s ≡ inl reading)
  Best ps errors (inr all) = (es : List PowerReadError) × (all ≡ errors ++ es) × Failing now s ps es

  Best-cons :
      (p : PowerProvider F) (ps : List (PowerProvider F)) (e : PowerReadError)
      (errors : List PowerReadError) (r : PowerReading F ⊎ List PowerReadError)
      → p.read_power now s ≡ inr e
      → Best ps (errors ++ e ∷ []) r
      → Best (p ∷ ps) errors r
  Best-cons p ps e errors (inl reading) h (before, q, after, es, split, fails, reads) =
      (p ∷ before, q, after, e ∷ es, ap (◌∷◌ p) split, one_more h fails, reads)
  Best-cons p ps e errors (inr all) h (es, split, fails) =
      (e ∷ es, split ∙ append_assoc errors (e ∷ []) es, one_more h fails)

  read_loop-Best :
      (ps : List (PowerProvider F)) (errors : List PowerReadError)
      → Best ps errors (read_loop now s ps errors)
  unfolding read_loop
  read_loop-Best [] errors = ([], sym (append-nil errors), none_left)
  read_loop-Best (p ∷ ps) errors = elim (Sum-cases (p.read_power now s)) [
    | inl (reading, h) ↦ rw (h, read_loop) ([], p, ps, [], refl, none_left, h)
    | inr (e, h) ↦
        rw (h, read_loop) (Best-cons p ps e errors _ h (read_loop-Best ps (errors ++ e ∷ [])))
  ]

  -- `read_best` returns the reading of the first provider that gives one, all before it having
  -- failed; it returns errors only if every provider fails, and then all of them, in order.
  read_best_first : (ps : List (PowerProvider F)) → Best ps [] (read_best now s ps)
  unfolding read_best
  read_best_first ps = read_loop-Best ps []
