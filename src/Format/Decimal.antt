-- ===== src/Format/Decimal.antt =====
-- `{}` of an unsigned integer, `str::parse` and `from_str_radix`.
pub mod RoundTrip
pub mod Bounds
use nordfir.Base.{
  ℕ, zero, suc, ◌+◌, ◌-◌, ◌*◌, ◌/◌, ◌%◌, ◌^◌, Bool, ◌&&◌, Option, none, some, [], ◌∷◌, Text, str,
  Result, ok, err, ltb, leb, ◌==◌, if◌then◌else◌,
}

abbrev pub max_u8 : ℕ
max_u8 = 255

abbrev pub max_u32 : ℕ
max_u32 = 2 ^ 32 - 1

abbrev pub max_u64 : ℕ
max_u64 = 2 ^ 64 - 1

-- The digits of `n` in front of `out`; `n + 1` rounds are enough.
pub digits : ℕ → ℕ → Text → Text
digits zero n out = out
digits (suc fuel) n out =
    let last = (b'0' + n % 10) ∷ out in
    let more = digits fuel (n / 10) last in if ltb n 10 then last else more

unfoldable pub decimal : ℕ → Text
unfolding digits
decimal n = digits (suc n) n []

unfoldable pub is_digit : ℕ → Bool
is_digit c = leb b'0' c && leb c b'9'

-- `char::to_digit`
unfoldable pub to_digit : ℕ → ℕ → Option ℕ
unfolding is_digit
to_digit radix c =
    if is_digit c && ltb (c - b'0') radix
    then some (c - b'0')
    else if leb b'a' c && ltb (c - b'a' + 10) radix
    then some (c - b'a' + 10)
    else if leb b'A' c && leb c b'Z' && ltb (c - b'A' + 10) radix
    then some (c - b'A' + 10)
    else none

-- One digit: an invalid one is reported before an overflow.
unfoldable pub push_digit : ℕ → ℕ → ℕ → Option ℕ → Result ℕ
push_digit radix limit n none = err (str "invalid digit found in string")
push_digit radix limit n (some d) =
    if leb (n * radix + d) limit
    then ok (n * radix + d)
    else err (str "number too large to fit in target type")

unfoldable pub parse_digits : ℕ → ℕ → Text → ℕ → Result ℕ
parse_digits radix limit [] n = ok n
parse_digits radix limit (c ∷ t) n = elim (push_digit radix limit n (to_digit radix c)) [
  | ok m ↦ parse_digits radix limit t m
  | err e ↦ err e
]

-- A leading `+` is taken off, except from a lone sign.
unfoldable pub parse_radix : ℕ → ℕ → Text → Result ℕ
parse_radix radix limit [] = err (str "cannot parse integer from empty string")
parse_radix radix limit (c ∷ []) = parse_digits radix limit (c ∷ []) 0
parse_radix radix limit (c ∷ d ∷ t) =
    parse_digits radix limit (if c == b'+' then d ∷ t else c ∷ d ∷ t) 0

-- `str::parse` into an unsigned type whose largest value is `limit`.
unfoldable pub parse_unsigned : ℕ → Text → Result ℕ
parse_unsigned limit t = parse_radix 10 limit t
