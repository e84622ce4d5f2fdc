-- ===== src/Format/Decimal/RoundTrip.antt =====
-- Printed numbers are digits, and parse back.
use nordfir.Base.{
  ℕ, zero, suc, ◌+◌, ◌*◌, ◌/◌, ◌%◌, ◌≤◌, ◌<◌, ◌≡◌, refl, ◌≢◌, ap, ◌∙◌, true, false, [], ◌∷◌, Text,
  ok, All, All-map, Lacks, arith, inl, inr, Bool-cases, ltb, ◌==◌,
}
use nordfir.Format.Decimal.{
  digits, decimal, is_digit, to_digit, push_digit, parse_digits, parse_radix, parse_unsigned,
}

abbrev Digits : Text → Type 0
Digits = All λ c. is_digit c ≡ true

is_digit-last : (n : ℕ) → is_digit (b'0' + n % 10) ≡ true
unfolding is_digit
is_digit-last n = ground arith

digits-Digits : (fuel n : ℕ) (out : Text) → Digits out → Digits (digits fuel n out)
unfolding digits
digits-Digits zero n out d = d
digits-Digits (suc fuel) n out d = elim (Bool-cases (ltb n 10)) [
  | inl e ↦ rw e (is_digit-last n, d)
  | inr e ↦ rw e (digits-Digits fuel (n / 10) _ (is_digit-last n, d))
]

decimal-Digits : (n : ℕ) → Digits (decimal n)
unfolding decimal
decimal-Digits n = digits-Digits (suc n) n [] tt

is_digit-ne : (c d : ℕ) → is_digit c ≡ false → is_digit d ≡ true → d ≢ c
is_digit-ne c d p q = ground arith

-- A printed number holds no character that is not a digit.
pub decimal-Lacks : (c n : ℕ) → is_digit c ≡ false → Lacks c (decimal n)
decimal-Lacks c n h = All-map (decimal n) (λ d e. is_digit-ne c d h e) (decimal-Digits n)

push_digit-last :
    (limit n m : ℕ)
    → n * 10 + m % 10 ≤ limit
    → push_digit 10 limit n (to_digit 10 (b'0' + m % 10)) ≡ ok (n * 10 + m % 10)
unfolding push_digit to_digit
push_digit-last limit n m h = ground arith

parse_digits-last :
    (limit n m : ℕ) (out : Text)
    → n * 10 + m % 10 ≤ limit
    → parse_digits 10 limit ((b'0' + m % 10) ∷ out) n ≡ parse_digits 10 limit out (n * 10 + m % 10)
unfolding parse_digits
parse_digits-last limit n m out h = rw (push_digit-last limit n m h, parse_digits)

-- Reading the digits of `n` from 0 is the same as going on from `n`.
parse_digits-digits :
    (limit fuel n : ℕ) (out : Text)
    → n < fuel
    → n ≤ limit
    → parse_digits 10 limit (digits fuel n out) 0 ≡ parse_digits 10 limit out n
unfolding digits
parse_digits-digits limit zero n out h _ = elim h [ ]
parse_digits-digits limit (suc fuel) n out h l = elim (Bool-cases (ltb n 10)) [
  | inl e ↦
      let same : 0 * 10 + n % 10 ≡ n = ground arith in
      rw e (parse_digits-last limit 0 n out (ground arith) ∙ ap (parse_digits 10 limit out) same)
  | inr e ↦
      let same : n / 10 * 10 + n % 10 ≡ n = omega arith in
      rw e (
        parse_digits-digits limit fuel (n / 10) _ (ground arith) (omega arith)
        ∙ parse_digits-last limit (n / 10) n out (omega arith)
        ∙ ap (parse_digits 10 limit out) same)
]

digits-cons : (fuel n : ℕ) (c : ℕ) (out : Text) → digits fuel n (c ∷ out) ≢ []
unfolding digits
digits-cons zero n c out = λ h. cc
digits-cons (suc fuel) n c out = elim (Bool-cases (ltb n 10)) [
  | inl e ↦ rw e (λ h. cc)
  | inr e ↦ rw e (digits-cons fuel (n / 10) _ _)
]

decimal-ne-nil : (n : ℕ) → decimal n ≢ []
unfolding decimal
decimal-ne-nil n = elim (Bool-cases (ltb n 10)) [
  | inl e ↦ rw e (λ h. cc)
  | inr e ↦ rw e (digits-cons n (n / 10) _ [])
]

is_digit-not_plus : (c : ℕ) → is_digit c ≡ true → (c == b'+') ≡ false
unfolding is_digit
is_digit-not_plus c h = ground arith

parse_decimal : (limit n : ℕ) → n ≤ limit → parse_digits 10 limit (decimal n) 0 ≡ ok n
unfolding decimal parse_digits
parse_decimal limit n h = parse_digits-digits limit (suc n) n [] (omega arith) h

-- A text of digits is read as it stands: it has no sign.
parse_radix-Digits :
    (limit : ℕ) (t : Text) → Digits t → t ≢ [] → parse_radix 10 limit t ≡ parse_digits 10 limit t 0
unfolding parse_radix
parse_radix-Digits limit [] d h = absurd (h refl)
parse_radix-Digits limit (c ∷ []) d h = refl
parse_radix-Digits limit (c ∷ b ∷ t) d h = rw (is_digit-not_plus c d.0)

-- A number in range, printed, parses back to itself.
pub parse_unsigned-decimal : (limit n : ℕ) → n ≤ limit → parse_unsigned limit (decimal n) ≡ ok n
unfolding parse_unsigned
parse_unsigned-decimal limit n h =
    parse_radix-Digits limit (decimal n) (decimal-Digits n) (decimal-ne-nil n)
    ∙ parse_decimal limit n h
