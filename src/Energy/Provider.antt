-- ===== src/Energy/Provider.antt =====
-- archive/rust/src/energy/provider.rs
pub mod Best
use nordfir.Base.{◌≡◌, ◌⊎◌, inl, inr, List, [], ◌∷◌, ◌++◌, Text}
use nordfir.Base.Time.{SystemTime}
use nordfir.Core.{NodeSnapshot}
use nordfir.Energy.Measurement.{PowerReading}

pub data PowerReadError : Type 0 where
  unavailable : Text → PowerReadError
  failed : Text → PowerReadError

-- The trait. A provider is given the reading of the clock that it may take.
pub record PowerProvider (F : Type 0) : Type 0 where
  pub name : Text
  pub read_power : SystemTime → NodeSnapshot F → PowerReading F ⊎ PowerReadError

module _ {F : Type 0} (now : SystemTime) (s : NodeSnapshot F) where
  -- The loop of `read_best`, with the errors so far.
  read_loop : List (PowerProvider F) → List PowerReadError → PowerReading F ⊎ List PowerReadError
  read_loop [] errors = inr errors
  read_loop (p ∷ ps) errors = elim (p.read_power now s) [
    | inl reading ↦ inl reading
    | inr e ↦ read_loop ps (errors ++ e ∷ [])
  ]

  -- `PowerReader::read_best`
  unfoldable pub read_best : List (PowerProvider F) → PowerReading F ⊎ List PowerReadError
  unfolding read_loop
  read_best providers = read_loop providers []

  -- `Failing ps es`: the providers fail, one by one, with those errors.
  pub data Failing : List (PowerProvider F) → List PowerReadError → Type 0 where
    none_left : Failing [] []
    one_more :
        {p : PowerProvider F} {e : PowerReadError} {ps : List (PowerProvider F)}
        {es : List PowerReadError}
        → p.read_power now s ≡ inr e
        → Failing ps es
        → Failing (p ∷ ps) (e ∷ es)
