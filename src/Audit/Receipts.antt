-- ===== src/Audit/Receipts.antt =====
-- audit/mod.rs, `parse_receipt`: which answers of a collector are receipts.
use mathlib.Core.Path.{subst}
use mathlib.Core.Option.{some-injective}
use nordfir.Base.{
  ℕ, ◌≤◌, ◌≡◌, refl, sym, ap, ◌∙◌, ◌≢◌, ◌↔◌, inl, inr, Bool, true, false, not, ◌||◌, Option, none,
  some, [], ◌∷◌, ◌++◌, Text, str, is_empty, all, all_iff, All, ltb, ◌==◌, ==_iff, Result, ok, ◌>>=◌,
  ◌>>◌, >>=-eq-ok, ok-injective, refuse, refuse-eq-ok, refuse-not-eq-ok, ok_or, Bool-cases,
  Option-cases, arith, append_assoc,
}
use nordfir.Format.{strip_prefix}
use nordfir.Audit.{strip_suffix, strip_accepted, byte_length, is_receipt_char, parse_receipt}

strip_prefix-append : (p t : Text) → strip_prefix p (p ++ t) ≡ some t
unfolding strip_prefix
strip_prefix-append [] t = refl
strip_prefix-append (c ∷ p) t = rw ((==_iff c c).1 refl) (strip_prefix-append p t)

strip_prefix-eq-some : (p t : Text) {u : Text} → strip_prefix p t ≡ some u → t ≡ p ++ u
unfolding strip_prefix
strip_prefix-eq-some [] t h = some-injective _ _ h
strip_prefix-eq-some (c ∷ p) [] h = cc
strip_prefix-eq-some (c ∷ p) (d ∷ t) {u} h = elim (Bool-cases (c == d)) [
  | inl e ↦
      let same = (==_iff c d).0 e in
      let rest = strip_prefix-eq-some p t {u = u} (rw (e, strip_prefix) at h) in cc
  | inr e ↦ let bad = (rw (e, strip_prefix) at h) in cc
]

strip_suffix-append : (c : ℕ) (t : Text) → strip_suffix c (t ++ c ∷ []) ≡ some t
unfolding strip_suffix
strip_suffix-append c [] = rw ((==_iff c c).1 refl) refl
strip_suffix-append c (d ∷ []) = rw (strip_suffix, (==_iff c c).1 refl) refl
strip_suffix-append c (d ∷ e ∷ t) = rw (strip_suffix, strip_suffix-append c (e ∷ t)) refl

strip_suffix-eq-some : (c : ℕ) (t : Text) {u : Text} → strip_suffix c t ≡ some u → t ≡ u ++ c ∷ []
unfolding strip_suffix
strip_suffix-eq-some c [] h = cc
strip_suffix-eq-some c (d ∷ []) h = elim (Bool-cases (d == c)) [
  | inl e ↦
      let same = (==_iff d c).0 e in
      rw (← some-injective _ _ (rw (e, strip_suffix) at h)) (rw same refl)
  | inr e ↦ let bad = (rw (e, strip_suffix) at h) in cc
]
strip_suffix-eq-some c (d ∷ e ∷ t) h = elim (Option-cases (strip_suffix c (e ∷ t))) [
  | inl k ↦ let bad = (rw (k, strip_suffix) at h) in cc
  | inr (v, k) ↦
      rw (← some-injective _ _ (rw (k, strip_suffix) at h))
        (ap (◌∷◌ d) (strip_suffix-eq-some c (e ∷ t) k))
]

-- An id of 1 to 256 bytes, of receipt characters.
abbrev pub IsReceiptId : Text → Type 0
IsReceiptId t = (t ≢ []) × (byte_length t ≤ 256) × All (λ c. is_receipt_char c ≡ true) t

ok_or-eq-ok {ℓ} : {A : Type ℓ} (o : Option A) (e : Text) {a : A} → ok_or o e ≡ ok a → o ≡ some a
ok_or-eq-ok none e h = cc
ok_or-eq-ok (some b) e h = ap (λ x. some x) (ok-injective h)

strip_accepted-eq-some :
    (line : Option Text) {u : Text}
    → strip_accepted line ≡ some u
    → line ≡ some (str "accepted" ++ 9 ∷ u)
unfolding strip_accepted
strip_accepted-eq-some none h = cc
strip_accepted-eq-some (some line) {u} h =
    ap (λ (x : Text). some x)
      (strip_prefix-eq-some (str "accepted" ++ 9 ∷ []) line h
        ∙ append_assoc (str "accepted") (9 ∷ []) u)

strip_accepted-append : (id : Text) → strip_accepted (some (str "accepted" ++ 9 ∷ id)) ≡ some id
unfolding strip_accepted
strip_accepted-append id =
    ap (strip_prefix (str "accepted" ++ 9 ∷ [])) (sym (append_assoc (str "accepted") (9 ∷ []) id))
    ∙ strip_prefix-append (str "accepted" ++ 9 ∷ []) id

abbrev bad_length : Text → Bool
bad_length id = is_empty id || ltb 256 (byte_length id)

bad_length_iff : (id : Text) → (bad_length id ≡ false) ↔ ((id ≢ []) × (byte_length id ≤ 256))
bad_length_iff [] = (λ h. cc, λ (d, _). absurd (d refl))
bad_length_iff (c ∷ t) = (λ h. ((λ e. cc), ground arith), λ (_, s). ground arith)

-- The checks of the id.
abbrev checked_id : Text → Result Text
checked_id id = do
  refuse (bad_length id) (str "audit receipt id must contain 1 to 256 bytes")
  refuse (not (all is_receipt_char id)) (str "audit receipt id contains invalid characters")
  ok id

checked_id-IsReceiptId : (t : Text) {id : Text} → checked_id t ≡ ok id → (t ≡ id) × IsReceiptId t
checked_id-IsReceiptId t h =
    let (_, size, more) =
      >>=-eq-ok (refuse (bad_length t) _) (λ _. refuse (not (all is_receipt_char t)) _ >> ok t) h in
    let (_, chars, last) = >>=-eq-ok (refuse (not (all is_receipt_char t)) _) (λ _. ok t) more in
    let (d, s) = (bad_length_iff t).0 (refuse-eq-ok _ _ size) in
    (ok-injective last, (d, s, (all_iff is_receipt_char t).0 (refuse-not-eq-ok _ _ chars)))

checked_id-eq-ok : (id : Text) → IsReceiptId id → checked_id id ≡ ok id
checked_id-eq-ok id (d, s, r) =
    let size = (bad_length_iff id).1 (d, s) in
    let chars = (all_iff is_receipt_char id).1 r in rw (size, chars) refl

-- An answer is a receipt exactly when it is `accepted`, a tab, an id of 1 to 256 bytes of letters,
-- digits, `-`, `_`, `.` and `:`, and a line break; the receipt is the id.
pub parse_receipt_iff :
    (response id : Text)
    → (parse_receipt response ≡ ok id)
      ↔ ((response ≡ (str "accepted" ++ 9 ∷ id) ++ 10 ∷ []) × IsReceiptId id)
unfolding parse_receipt
parse_receipt_iff response id = (
  λ h.
      let (t, line, more) =
        >>=-eq-ok (ok_or (strip_accepted (strip_suffix 10 response)) _) checked_id h in
      let whole =
        strip_suffix-eq-some 10 response
          (strip_accepted-eq-some (strip_suffix 10 response) (ok_or-eq-ok _ _ line)) in
      let (same, valid) = checked_id-IsReceiptId t more in
      (
        whole ∙ ap (λ (x : Text). (str "accepted" ++ 9 ∷ x) ++ 10 ∷ []) same,
        subst IsReceiptId same valid,
      ),
  λ (e, valid).
      ap parse_receipt e
      ∙ ap
          (λ (x : Option Text).
            ok_or (strip_accepted x) (str "audit collector returned an invalid receipt")
            >>= checked_id)
          (strip_suffix-append 10 (str "accepted" ++ 9 ∷ id))
      ∙ ap
          (λ (x : Option Text).
            ok_or x (str "audit collector returned an invalid receipt") >>= checked_id)
          (strip_accepted-append id)
      ∙ checked_id-eq-ok id valid,
)
