-- ===== src/Base/Io.antt =====
-- Fallible operations on an outside world `S`. What was done before an error stays done.
use nordfir.Base.Texts.{Text}
use mathlib.Core.Path.{◌≡◌, sym, ap, ◌∙◌, subst}
use mathlib.Core.Logic.{◌⊎◌, inl, inr}
use nordfir.Base.Results.{Result, ok, err, context as context_result, Result-cases}
use mathlib.Core.Bool.{Bool, true, false}

abbrev pub Io {ℓ} : Type ℓ → Type ℓ → Type ℓ
Io S A = S → Result A × S

module _ {ℓ} {S A : Type ℓ} where
  abbrev pub pure : A → Io S A
  pure a s = (ok a, s)

  abbrev pub fail : Text → Io S A
  fail e s = (err e, s)

  abbrev pub lift : Result A → Io S A
  lift r s = (r, s)

  -- `map_err(|error| format!("{prefix}{error}"))`
  abbrev pub context : Text → Io S A → Io S A
  context prefix m s = let (r, s') = m s in (context_result prefix r, s')

  -- `if bad { return Err(e) }` in front of the rest
  abbrev pub unless : Bool → Text → Io S A → Io S A
  unless true e m = fail e
  unless false e m = m

module _ {ℓ} {S A B : Type ℓ} where
  abbrev pub continue : Result A → (A → Io S B) → Io S B
  continue (ok a) f s = f a s
  continue (err e) f s = (err e, s)

  infixl 5 ◌>>=◌ ◌>>◌
  abbrev pub ◌>>=◌ : Io S A → (A → Io S B) → Io S B
  ◌>>=◌ m f s = let (r, s') = m s in continue r f s'

  abbrev pub ◌>>◌ : Io S A → Io S B → Io S B
  m >> k = m >>= λ _. k

  -- The rest runs only when the first operation succeeds.
  pub >>=-cases :
      (m : Io S A) (k : A → Io S B) (s : S)
      → ((a : A) × ((m s).0 ≡ ok a) × ((m >>= k) s ≡ k a (m s).1))
        ⊎ ((e : Text) × ((m s).0 ≡ err e) × ((m >>= k) s ≡ (err e, (m s).1)))
  >>=-cases m k s = elim (Result-cases (m s).0) [
    | inl (a, h) ↦ inl (a, h, ap (λ r. continue r k (m s).1) h)
    | inr (e, h) ↦ inr (e, h, ap (λ r. continue r k (m s).1) h)
  ]

  pub >>=-eq-ok :
      (m : Io S A) (k : A → Io S B) (s : S) {b : B}
      → ((m >>= k) s).0 ≡ ok b
      → (a : A) × ((m s).0 ≡ ok a) × ((m >>= k) s ≡ k a (m s).1)
  >>=-eq-ok m k s h = elim (>>=-cases m k s) [
    | inl x ↦ x
    | inr (e, _, step) ↦ let bad = sym (ap (λ x. x.0) step) ∙ h in cc
  ]

-- The operation keeps a property of the state, whether or not it fails.
abbrev pub Keeps {ℓ} : {S A : Type ℓ} → (S → Type ℓ) → Io S A → Type ℓ
Keeps {S} Q m = (s : S) → Q s → Q (m s).1

pub Keeps->>= {ℓ} :
    {S A B : Type ℓ} (Q : S → Type ℓ) (m : Io S A) (k : A → Io S B)
    → Keeps Q m
    → ((a : A) → Keeps Q (k a))
    → Keeps Q (m >>= k)
Keeps->>= Q m k keep rest s h = elim (>>=-cases m k s) [
  | inl (a, _, step) ↦ subst (λ x. Q x.1) (sym step) (rest a (m s).1 (keep s h))
  | inr (e, _, step) ↦ subst (λ x. Q x.1) (sym step) (keep s h)
]

-- What an operation that succeeds was.
pub context-eq-ok {ℓ} :
    {S A : Type ℓ} (prefix : Text) (m : Io S A) (s : S) {a : A}
    → (context prefix m s).0 ≡ ok a
    → (m s).0 ≡ ok a
context-eq-ok prefix m s h = elim (Result-cases (m s).0) [
  | inl (b, e) ↦ let same = sym (ap (context_result prefix) e) ∙ h in e ∙ same
  | inr (t, e) ↦ let bad = sym (ap (context_result prefix) e) ∙ h in cc
]
