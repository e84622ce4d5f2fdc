-- ===== src/Format/Decimal/Bounds.antt =====
-- A number that was parsed fits its type.
use nordfir.Base.{
  ℕ, ◌≤◌, ◌≡◌, inl, inr, Option, none, some, [], ◌∷◌, Text, ok, ok-injective, Result-cases,
  Bool-cases, leb, ◌+◌, ◌*◌, arith,
}
use nordfir.Format.Decimal.{push_digit, parse_digits, parse_radix, to_digit}

push_digit_bound :
    (radix limit n : ℕ) (d : Option ℕ) {m : ℕ} → push_digit radix limit n d ≡ ok m → m ≤ limit
unfolding push_digit
push_digit_bound radix limit n none h = cc
push_digit_bound radix limit n (some d) {m} h = elim (Bool-cases (leb (n * radix + d) limit)) [
  | inl e ↦ let same = ok-injective (rw (e, push_digit) at h) in ground arith
  | inr e ↦ let bad = (rw (e, push_digit) at h) in cc
]

parse_digits_bound :
    (radix limit : ℕ) (t : Text) (n : ℕ) {m : ℕ}
    → n ≤ limit
    → parse_digits radix limit t n ≡ ok m
    → m ≤ limit
unfolding parse_digits
parse_digits_bound radix limit [] n b h = let same = ok-injective h in omega arith
parse_digits_bound radix limit (c ∷ t) n b h =
    elim (Result-cases (push_digit radix limit n (to_digit radix c))) [
      | inl (k, e) ↦
          parse_digits_bound radix limit t k (push_digit_bound radix limit n _ e)
            (rw (e, parse_digits) at h)
      | inr (x, e) ↦ let bad = (rw (e, parse_digits) at h) in cc
    ]

pub parse_radix_bound :
    (radix limit : ℕ) (t : Text) {m : ℕ} → parse_radix radix limit t ≡ ok m → m ≤ limit
unfolding parse_radix
parse_radix_bound radix limit [] h = cc
parse_radix_bound radix limit (c ∷ []) h = parse_digits_bound radix limit (c ∷ []) 0 (omega arith) h
parse_radix_bound radix limit (c ∷ d ∷ t) h = parse_digits_bound radix limit _ 0 (omega arith) h
