-- ===== src/Base/Texts.antt =====
-- A Rust `String` as the list of its code points.
use Prim.Native.Char.{code}
use Prim.Native.String.{String}
use Prim.Native.Nat.{ℕ}
use mathlib.Core.Path.{◌≡◌, refl}
use mathlib.Core.Logic.{◌↔◌, ◌≢◌, inl, inr}
use mathlib.Core.Bool.{Bool, true, false, not, ◌&&◌, ◌||◌}
use mathlib.Core.List.{List, [], ◌∷◌, ◌++◌}
use native.Mathlib.Omega.{arith}
use nordfir.Base.Bools.{◌==◌, ==_iff, Bool-cases}
use nordfir.Base.Lists.{All, all}

abbrev pub Text : Type 0
Text = List ℕ

-- A literal. It stays shut in proofs, so that a message is one unknown.
unfoldable pub str : String → Text
str String.[] = []
str (String.◌∷◌ c s) = code c ∷ str s

unfoldable pub text_eq : Text → Text → Bool
text_eq [] [] = true
text_eq [] (c ∷ t) = false
text_eq (b ∷ s) [] = false
text_eq (b ∷ s) (c ∷ t) = b == c && text_eq s t

pub text_eq_iff : (s t : Text) → (text_eq s t ≡ true) ↔ (s ≡ t)
unfolding text_eq
text_eq_iff [] [] = (λ _. refl, λ _. refl)
text_eq_iff [] (c ∷ t) = (λ h. cc, λ h. cc)
text_eq_iff (b ∷ s) [] = (λ h. cc, λ h. cc)
text_eq_iff (b ∷ s) (c ∷ t) =
    (λ h. ground (arith, text_eq_iff s t), λ h. ground (arith, text_eq_iff s t))

-- No character of the text is `c`.
abbrev pub Lacks : ℕ → Text → Type 0
Lacks c = All λ d. d ≢ c

-- `[..].join(separator)`
pub join_texts : Text → List Text → Text
join_texts separator [] = []
join_texts separator (t ∷ []) = t
join_texts separator (t ∷ u ∷ ts) = t ++ separator ++ join_texts separator (u ∷ ts)

pub text-ne : (s t : Text) → text_eq s t ≡ false → s ≢ t
text-ne s t h e = let same = (text_eq_iff s t).1 e in cc

-- Some position holds different characters.
unfoldable pub clash : Text → Text → Bool
clash [] t = false
clash (b ∷ s) [] = false
clash (b ∷ s) (c ∷ t) = not (b == c) || clash s t

pub append-ne : (p q s t : Text) → clash p q ≡ true → (p ++ s) ≢ (q ++ t)
unfolding clash
append-ne [] q s t h e = cc
append-ne (b ∷ p) [] s t h e = cc
append-ne (b ∷ p) (c ∷ q) s t h e = elim (Bool-cases (b == c)) [
  | inl same ↦ append-ne p q s t (rw same at h) cc
  | inr apart ↦ let back = (==_iff b c).1 in ground arith
]

pub append_cancel_left {ℓ} : {A : Type ℓ} (p : List A) {s t : List A} → p ++ s ≡ p ++ t → s ≡ t
append_cancel_left [] h = h
append_cancel_left (c ∷ p) h = append_cancel_left p cc

-- A literal's characters can be tested.
pub Lacks-of_all : (c : ℕ) (t : Text) → all (λ d. not (d == c)) t ≡ true → Lacks c t
Lacks-of_all c [] h = tt
Lacks-of_all c (d ∷ t) h =
    ((λ same. let e = (==_iff d c).1 same in ground arith), Lacks-of_all c t (ground arith))
