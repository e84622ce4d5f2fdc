-- ===== src/State/OriginalPower/Validity.antt =====
-- What a valid state is, and that reading and capturing give only valid ones.
use mathlib.Core.Path.{subst}
use nordfir.Base.{
  ℕ, ◌≡◌, refl, ap, ◌∙◌, sym, ok-injective, ◌≢◌, ◌↔◌, inl, inr, true, false, some, List, [], ◌∷◌,
  Text, str, text_eq, text_eq_iff, All, all_iff, All-map, Lacks, ok, >>=-eq-ok, arith, Bool-cases,
}
use nordfir.Base.Time.{SystemTime, Duration, duration_since, unix_epoch, as_secs}
use nordfir.Format.{lines, is_token, is_token_char}
use nordfir.Float.{F32}
use nordfir.Core.{NodeId}
use nordfir.Energy.Capabilities.{PowerCapabilities}
use nordfir.State.OriginalPower.{
  OriginalPowerState, state_header, encode, state_text, state_version, validate_token, validate,
  checked, capture, current_state, decode, decode_lines, decode_fields, counted_fields, read_fields,
  saved_state, Fields, from_fields,
}

-- A name that can stand in a file name: it is not empty and neither `.` nor `..`, and holds only
-- letters, digits, `-`, `_` and `.`.
pub record IsToken (t : Text) : Type 0 where
  pub nonempty : t ≢ []
  pub not_dot : t ≢ str "."
  pub not_dots : t ≢ str ".."
  pub chars : All (λ c. is_token_char c ≡ true) t

token_char-ne : (c d : ℕ) → is_token_char c ≡ false → is_token_char d ≡ true → d ≢ c
token_char-ne c d h k = ground arith

pub is_token_iff : (t : Text) → (is_token t ≡ true) ↔ IsToken t
unfolding is_token
is_token_iff [] = (λ h. cc, λ h. absurd (h.nonempty refl))
is_token_iff (c ∷ t) = (
  λ h. record {
    nonempty = λ e. cc;
    not_dot = λ e. ground (arith, text_eq_iff (c ∷ t) (str "."));
    not_dots = λ e. ground (arith, text_eq_iff (c ∷ t) (str ".."));
    chars = (all_iff is_token_char (c ∷ t)).0 (ground arith);
  },
  λ h. ground (
    arith,
    text_eq_iff (c ∷ t) (str "."),
    text_eq_iff (c ∷ t) (str ".."),
    (all_iff is_token_char (c ∷ t)).1 h.chars,
    h.not_dot,
    h.not_dots,
  ),
)

pub token-Lacks : (c : ℕ) {t : Text} → is_token_char c ≡ false → IsToken t → Lacks c t
token-Lacks c {t} h v = All-map t (λ d e. token_char-ne c d h e) v.chars

module _ {F : Type 0} ⦃f : F32 F⦄ where
  pub record IsValid (s : OriginalPowerState F) : Type 0 where
    pub version_eq : s.version ≡ state_version
    pub node_token : IsToken s.node
    pub governor_token : IsToken s.governor
    pub min_finite : f.is_finite s.scaling_min_mhz ≡ true
    pub max_finite : f.is_finite s.scaling_max_mhz ≡ true
    min_pos : f.le s.scaling_min_mhz (f.of_ℕ 0) ≡ false
    max_pos : f.le s.scaling_max_mhz (f.of_ℕ 0) ≡ false
    pub ordered : f.lt s.scaling_max_mhz s.scaling_min_mhz ≡ false

  pub validate_ok : (s : OriginalPowerState F) → validate s ≡ ok tt → IsValid s
  unfolding validate validate_token
  validate_ok s h = record {
    version_eq = ground arith;
    node_token = (is_token_iff s.node).0 (ground arith);
    governor_token = (is_token_iff s.governor).0 (ground arith);
    min_finite = ground arith;
    max_finite = ground arith;
    min_pos = ground arith;
    max_pos = ground arith;
    ordered = ground arith;
  }

  validate-IsValid : (s : OriginalPowerState F) → IsValid s → validate s ≡ ok tt
  unfolding validate validate_token
  validate-IsValid s v =
      let node = (is_token_iff s.node).1 v.node_token in
      let governor = (is_token_iff s.governor).1 v.governor_token in ground arith

  -- Checking a state returns it unchanged if it is valid, and fails if it is not.
  checked_ok :
      (s : OriginalPowerState F) {t : OriginalPowerState F} → checked s ≡ ok t → (t ≡ s) × IsValid s
  unfolding checked
  checked_ok s h =
      let (u, e, same) = >>=-eq-ok (validate s) (λ _. ok s) h in
      (sym (ok-injective same), validate_ok s e)

  pub checked-IsValid : (s : OriginalPowerState F) → IsValid s → checked s ≡ ok s
  unfolding checked
  checked-IsValid s v = rw (validate-IsValid s v, checked)

  from_fields-IsValid :
      (fields : Fields) {s : OriginalPowerState F} → from_fields fields ≡ ok s → IsValid s
  unfolding from_fields
  from_fields-IsValid fields h =
      let (s', _, k) = >>=-eq-ok (saved_state fields) checked h in
      let (same, v) = checked_ok s' k in subst IsValid (sym same) v

  decode_fields-IsValid :
      (more : List Text) {s : OriginalPowerState F} → decode_fields more ≡ ok s → IsValid s
  unfolding decode_fields
  decode_fields-IsValid more h =
      let (fields, _, k) = >>=-eq-ok (read_fields more []) _ h in
      let (six, _, last) = >>=-eq-ok (counted_fields fields) from_fields k in
      from_fields-IsValid six last

  decode_lines-IsValid :
      (ls : List Text) {s : OriginalPowerState F} → decode_lines ls ≡ ok s → IsValid s
  unfolding decode_lines
  decode_lines-IsValid [] h = cc
  decode_lines-IsValid (first ∷ more) h = elim (Bool-cases (text_eq first state_header)) [
    | inl e ↦ decode_fields-IsValid more (rw (e, decode_lines) at h)
    | inr e ↦ cc (rw (e, decode_lines) at h)
  ]

  -- Whatever text is decoded, the state that comes out is valid.
  pub decode-IsValid : (t : Text) {s : OriginalPowerState F} → decode t ≡ ok s → IsValid s
  unfolding decode
  decode-IsValid t h = decode_lines-IsValid (lines t) h

  -- A state can be encoded exactly when it is valid.
  pub encode_iff : (s : OriginalPowerState F) → (encode s ≡ ok (state_text s)) ↔ IsValid s
  unfolding encode
  encode_iff s = (
    λ h. let (u, e, _) = >>=-eq-ok (validate s) (λ _. ok (state_text s)) h in validate_ok s e,
    λ v. rw (validate-IsValid s v, encode),
  )

  current_state_ok :
      (node : NodeId) (c : PowerCapabilities F) (at : SystemTime) {s : OriginalPowerState F}
      → current_state node c at ≡ ok s
      → (s.node ≡ node)
        × (c.current_governor ≡ some s.governor)
        × (c.scaling_min_mhz ≡ some s.scaling_min_mhz)
        × (c.scaling_max_mhz ≡ some s.scaling_max_mhz)
        × ((d : Duration) × (duration_since at unix_epoch ≡ some d)
            × (s.captured_at_unix_seconds ≡ as_secs d))
  unfolding current_state
  current_state_ok node c at h =
      (ground arith, ground arith, ground arith, ground arith, ground arith)

  -- A captured state is valid and holds the node, the current settings and the whole seconds since
  -- the epoch.
  pub capture_ok :
      (node : NodeId) (c : PowerCapabilities F) (at : SystemTime) {s : OriginalPowerState F}
      → capture node c at ≡ ok s
      → IsValid s
        × (s.node ≡ node)
        × (c.current_governor ≡ some s.governor)
        × (c.scaling_min_mhz ≡ some s.scaling_min_mhz)
        × (c.scaling_max_mhz ≡ some s.scaling_max_mhz)
        × ((d : Duration) × (duration_since at unix_epoch ≡ some d)
            × (s.captured_at_unix_seconds ≡ as_secs d))
  unfolding capture
  capture_ok node c at h =
      let (s', e, k) = >>=-eq-ok (current_state node c at) checked h in
      let (same, v) = checked_ok s' k in
      let (a, b, lo, hi, d) = current_state_ok node c at {s = _} (e ∙ ap ok (sym same)) in
      (subst IsValid (sym same) v, a, b, lo, hi, d)
