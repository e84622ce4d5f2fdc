-- ===== src/State/OriginalPower/RoundTrip.antt =====
-- A state that is encoded decodes to itself.
use nordfir.Base.{
  ℕ, ◌≤◌, ◌≡◌, refl, [], ◌∷◌, ◌++◌, Text, str, text_eq, text_eq_iff, Lacks, All-append, ok,
  ok-injective, >>=-eq-ok, arith,
}
use nordfir.Format.{decimal, max_u8, max_u64, lines, split_once, is_digit, is_token_char}
use nordfir.Format.Lines.{lines-cons}
use nordfir.Format.Decimal.RoundTrip.{decimal-Lacks, parse_unsigned-decimal}
use nordfir.Float.{F32, IsPrinted}
use nordfir.Core.{get}
use nordfir.State.OriginalPower.{
  OriginalPowerState, state_header, state_text, encode, entry, read_fields, read_line, insert_field,
  counted_fields, required_field, parse_field, saved_state, from_fields, decode_fields,
  decode_lines, decode, validate,
}
use nordfir.State.OriginalPower.Validity.{
  IsValid, IsToken, token-Lacks, checked-IsValid, validate_ok,
}

abbrev IsLine : Text → Type 0
IsLine t = Lacks 10 t × Lacks 13 t

lines-entry :
    (key value rest : Text)
    → IsLine key
    → IsLine value
    → lines (entry key value rest) ≡ (key ++ b'=' ∷ value) ∷ lines rest
unfolding entry
lines-entry key value rest (k, k') (v, v') =
    lines-cons (key ++ b'=' ∷ value) rest (All-append _ key (b'=' ∷ value) k (omega arith, v))
      (All-append _ key (b'=' ∷ value) k' (omega arith, v'))

line : Text → Text → Text
line key value = key ++ b'=' ∷ value

number-IsLine : (n : ℕ) → IsLine (decimal n)
unfolding is_digit
number-IsLine n = (decimal-Lacks 10 n refl, decimal-Lacks 13 n refl)

token-IsLine : {t : Text} → IsToken t → IsLine t
unfolding is_token_char is_digit
token-IsLine h = (token-Lacks 10 refl h, token-Lacks 13 refl h)

lines-nil : lines [] ≡ []
unfolding lines
lines-nil = refl

keys_lines :
    IsLine (str "version")
    × IsLine (str "node")
    × IsLine (str "captured_at_unix_seconds")
    × IsLine (str "governor")
    × IsLine (str "scaling_min_mhz")
    × IsLine (str "scaling_max_mhz")
    × IsLine state_header
unfolding str state_header
keys_lines = omega arith

-- The fields of the six lines.
read_six :
    (version node captured governor lo hi : Text)
    → read_fields
        (line (str "version") version
          ∷ line (str "node") node
          ∷ line (str "captured_at_unix_seconds") captured
          ∷ line (str "governor") governor
          ∷ line (str "scaling_min_mhz") lo
          ∷ line (str "scaling_max_mhz") hi
          ∷ [])
        []
      ≡ ok (
          (str "version", version)
          ∷ (str "node", node)
          ∷ (str "captured_at_unix_seconds", captured)
          ∷ (str "governor", governor)
          ∷ (str "scaling_min_mhz", lo)
          ∷ (str "scaling_max_mhz", hi)
          ∷ [])
unfolding read_fields read_line split_once insert_field get text_eq str line
read_six version node captured governor lo hi = refl

module _ {F : Type 0} ⦃f : F32 F⦄ (laws : IsPrinted F) where
  open laws use {display_line, parse-display}

  lines-state_text :
      (s : OriginalPowerState F)
      → IsValid s
      → lines (state_text s)
        ≡ state_header
          ∷ line (str "version") (decimal s.version)
          ∷ line (str "node") s.node
          ∷ line (str "captured_at_unix_seconds") (decimal s.captured_at_unix_seconds)
          ∷ line (str "governor") s.governor
          ∷ line (str "scaling_min_mhz") (f.display s.scaling_min_mhz)
          ∷ line (str "scaling_max_mhz") (f.display s.scaling_max_mhz)
          ∷ []
  unfolding state_text line
  lines-state_text s v =
      let (version, node, captured, governor, lo, hi, header) = keys_lines in
      rw (lines-cons state_header _ header.0 header.1) (
        rw (lines-entry (str "version") (decimal s.version) _ version (number-IsLine _)) (
          rw (lines-entry (str "node") s.node _ node (token-IsLine v.node_token)) (
            rw
              (lines-entry (str "captured_at_unix_seconds") (decimal s.captured_at_unix_seconds) _
                captured (number-IsLine _))
              (rw
                (lines-entry (str "governor") s.governor _ governor (token-IsLine v.governor_token))
                (rw
                  (lines-entry (str "scaling_min_mhz") (f.display s.scaling_min_mhz) _ lo
                    (display_line _ v.min_finite))
                  (rw
                    (lines-entry (str "scaling_max_mhz") (f.display s.scaling_max_mhz) _ hi
                      (display_line _ v.max_finite))
                    (rw lines-nil)))))))

  from_six :
      (s : OriginalPowerState F)
      → IsValid s
      → s.captured_at_unix_seconds ≤ max_u64
      → from_fields (
          (str "version", decimal s.version)
          ∷ (str "node", s.node)
          ∷ (str "captured_at_unix_seconds", decimal s.captured_at_unix_seconds)
          ∷ (str "governor", s.governor)
          ∷ (str "scaling_min_mhz", f.display s.scaling_min_mhz)
          ∷ (str "scaling_max_mhz", f.display s.scaling_max_mhz)
          ∷ [])
        ≡ ok s
  unfolding from_fields saved_state parse_field required_field get text_eq str
  from_six s v range = rw (parse_unsigned-decimal max_u8 s.version (omega (arith, v.version_eq))) (
      rw (parse_unsigned-decimal max_u64 s.captured_at_unix_seconds range) (
        rw (parse-display s.scaling_min_mhz v.min_finite)
          (rw (parse-display s.scaling_max_mhz v.max_finite) (checked-IsValid s v))))

  decode_fields-six :
      (s : OriginalPowerState F)
      → IsValid s
      → s.captured_at_unix_seconds ≤ max_u64
      → decode_fields (
          line (str "version") (decimal s.version)
          ∷ line (str "node") s.node
          ∷ line (str "captured_at_unix_seconds") (decimal s.captured_at_unix_seconds)
          ∷ line (str "governor") s.governor
          ∷ line (str "scaling_min_mhz") (f.display s.scaling_min_mhz)
          ∷ line (str "scaling_max_mhz") (f.display s.scaling_max_mhz)
          ∷ [])
        ≡ ok s
  unfolding decode_fields counted_fields
  decode_fields-six s v range =
      rw
        (read_six (decimal s.version) s.node (decimal s.captured_at_unix_seconds) s.governor
          (f.display s.scaling_min_mhz) (f.display s.scaling_max_mhz))
        (from_six s v range)

  decode-state_text :
      (s : OriginalPowerState F)
      → IsValid s
      → s.captured_at_unix_seconds ≤ max_u64
      → decode (state_text s) ≡ ok s
  unfolding decode decode_lines
  decode-state_text s v range =
      rw (lines-state_text s v)
        (rw ((text_eq_iff state_header state_header).1 refl) (decode_fields-six s v range))

  -- Text that was encoded from a state whose time fits a `u64` decodes to that state.
  pub decode-encode :
      (s : OriginalPowerState F) {t : Text}
      → s.captured_at_unix_seconds ≤ max_u64
      → encode s ≡ ok t
      → decode t ≡ ok s
  unfolding encode decode
  decode-encode s range h =
      let (u, valid, same) = >>=-eq-ok (validate s) (λ _. ok (state_text s)) h in
      rw (← ok-injective same) (decode-state_text s (validate_ok s valid) range)
