-- ===== src/Tests/Milli.antt =====
-- An `f32` for the tests: whole thousandths, or no number.
use nordfir.Base.{
  ℕ, suc, ◌+◌, ◌-◌, ◌*◌, ◌/◌, ◌≡◌, refl, ap, Bool, true, false, [], ◌∷◌, Text, str, Lacks, Result,
  ok, err, map_ok, Option, none, some, ltb, leb, ◌==◌, if◌then◌else◌, arith,
}
use nordfir.Format.{decimal, parse_unsigned, max_u64, is_digit}
use nordfir.Format.Decimal.RoundTrip.{decimal-Lacks, parse_unsigned-decimal}
use nordfir.Float.{F32, IsOrdered, IsPrinted}

-- `minus n` is n + 1 thousandths below zero.
pub data Milli : Type 0 where
  nan : Milli
  plus minus : ℕ → Milli

abbrev milli_lt : Milli → Milli → Bool
milli_lt Milli.nan y = false
milli_lt (Milli.plus a) Milli.nan = false
milli_lt (Milli.plus a) (Milli.plus b) = ltb a b
milli_lt (Milli.plus a) (Milli.minus b) = false
milli_lt (Milli.minus a) Milli.nan = false
milli_lt (Milli.minus a) (Milli.plus b) = true
milli_lt (Milli.minus a) (Milli.minus b) = ltb b a

abbrev milli_le : Milli → Milli → Bool
milli_le Milli.nan y = false
milli_le (Milli.plus a) Milli.nan = false
milli_le (Milli.plus a) (Milli.plus b) = leb a b
milli_le (Milli.plus a) (Milli.minus b) = false
milli_le (Milli.minus a) Milli.nan = false
milli_le (Milli.minus a) (Milli.plus b) = true
milli_le (Milli.minus a) (Milli.minus b) = leb b a

abbrev milli_finite : Milli → Bool
milli_finite Milli.nan = false
milli_finite (Milli.plus a) = leb a max_u64
milli_finite (Milli.minus a) = leb a max_u64

-- a - b
abbrev difference : ℕ → ℕ → Milli
difference a b = if leb b a then Milli.plus (a - b) else Milli.minus (b - a - 1)

abbrev negate : Milli → Milli
negate Milli.nan = Milli.nan
negate (Milli.plus a) = if a == 0 then Milli.plus 0 else Milli.minus (a - 1)
negate (Milli.minus a) = Milli.plus (suc a)

abbrev milli_add : Milli → Milli → Milli
milli_add Milli.nan y = Milli.nan
milli_add (Milli.plus a) Milli.nan = Milli.nan
milli_add (Milli.plus a) (Milli.plus b) = Milli.plus (a + b)
milli_add (Milli.plus a) (Milli.minus b) = difference a (suc b)
milli_add (Milli.minus a) Milli.nan = Milli.nan
milli_add (Milli.minus a) (Milli.plus b) = difference b (suc a)
milli_add (Milli.minus a) (Milli.minus b) = Milli.minus (suc (a + b))

abbrev magnitude : Milli → ℕ
magnitude Milli.nan = 0
magnitude (Milli.plus a) = a
magnitude (Milli.minus a) = suc a

abbrev signed : Milli → Milli → ℕ → Milli
signed Milli.nan y n = Milli.nan
signed (Milli.plus a) Milli.nan n = Milli.nan
signed (Milli.plus a) (Milli.plus b) n = Milli.plus n
signed (Milli.plus a) (Milli.minus b) n = negate (Milli.plus n)
signed (Milli.minus a) Milli.nan n = Milli.nan
signed (Milli.minus a) (Milli.plus b) n = negate (Milli.plus n)
signed (Milli.minus a) (Milli.minus b) n = Milli.plus n

abbrev milli_div : Milli → Milli → Milli
milli_div x y =
    if magnitude y == 0 then Milli.nan else signed x y (magnitude x * 1000 / magnitude y)

abbrev milli_abs : Milli → Milli
milli_abs Milli.nan = Milli.nan
milli_abs (Milli.plus a) = Milli.plus a
milli_abs (Milli.minus a) = Milli.plus (suc a)

abbrev milli_round : Milli → Milli
milli_round x = signed x (Milli.plus 1) ((magnitude x + 500) / 1000 * 1000)

abbrev milli_to_u64 : Milli → ℕ
milli_to_u64 (Milli.plus a) = a / 1000
milli_to_u64 _ = 0

-- Thousandths behind an `m`, negative ones behind a `-`.
abbrev milli_display : Milli → Text
milli_display Milli.nan = str "NaN"
milli_display (Milli.plus a) = b'm' ∷ decimal a
milli_display (Milli.minus a) = b'-' ∷ decimal a

abbrev milli_parse : Text → Result Milli
milli_parse [] = err (str "cannot parse float from empty string")
milli_parse (c ∷ t) =
    if c == b'm'
    then map_ok (λ n. Milli.plus n) (parse_unsigned max_u64 t)
    else if c == b'-'
    then map_ok (λ n. Milli.minus n) (parse_unsigned max_u64 t)
    else map_ok (λ n. Milli.plus (n * 1000)) (parse_unsigned max_u64 (c ∷ t))

abbrev milli_seconds : Milli → Option ℕ
milli_seconds Milli.nan = none
milli_seconds (Milli.plus n) = some (n * 1_000_000)
milli_seconds (Milli.minus n) = none

abbrev pub milli : F32 Milli
milli = record {
  of_ℕ = λ n. Milli.plus (n * 1000);
  lt = milli_lt;
  le = milli_le;
  is_finite = milli_finite;
  add = milli_add;
  sub = λ x y. milli_add x (negate y);
  mul = λ x y. signed x y (magnitude x * magnitude y / 1000);
  div = milli_div;
  abs = milli_abs;
  round = milli_round;
  to_u64 = milli_to_u64;
  display = milli_display;
  display_fixed = λ _. milli_display;
  parse = milli_parse;
  parse_truncated = parse_unsigned max_u64;
  as_secs_f32 = λ d. Milli.plus (d / 1_000_000);
  from_secs_f32 = milli_seconds;
}

pub milli-IsOrdered : IsOrdered Milli ⦃f = milli⦄
milli-IsOrdered = record {
  lt_irrefl = irrefl;
  lt_asymm = asymm;
  lt_of_le = of_le;
  le_total = total;
}
  where
    irrefl : (x : Milli) → milli_lt x x ≡ false
    irrefl Milli.nan = refl
    irrefl (Milli.plus a) = ground arith
    irrefl (Milli.minus a) = ground arith

    asymm : (x y : Milli) → milli_lt x y ≡ true → milli_lt y x ≡ false
    asymm Milli.nan y h = cc
    asymm (Milli.plus a) Milli.nan h = cc
    asymm (Milli.plus a) (Milli.plus b) h = ground arith
    asymm (Milli.plus a) (Milli.minus b) h = cc
    asymm (Milli.minus a) Milli.nan h = cc
    asymm (Milli.minus a) (Milli.plus b) h = refl
    asymm (Milli.minus a) (Milli.minus b) h = ground arith

    of_le : (x y : Milli) → milli_le x y ≡ true → milli_lt y x ≡ false
    of_le Milli.nan y h = cc
    of_le (Milli.plus a) Milli.nan h = cc
    of_le (Milli.plus a) (Milli.plus b) h = ground arith
    of_le (Milli.plus a) (Milli.minus b) h = cc
    of_le (Milli.minus a) Milli.nan h = cc
    of_le (Milli.minus a) (Milli.plus b) h = refl
    of_le (Milli.minus a) (Milli.minus b) h = ground arith

    total :
        (x y : Milli)
        → milli_le x x ≡ true
        → milli_le y y ≡ true
        → milli_lt y x ≡ false
        → milli_le x y ≡ true
    total Milli.nan y h k l = cc
    total (Milli.plus a) Milli.nan h k l = cc
    total (Milli.plus a) (Milli.plus b) h k l = ground arith
    total (Milli.plus a) (Milli.minus b) h k l = cc
    total (Milli.minus a) Milli.nan h k l = cc
    total (Milli.minus a) (Milli.plus b) h k l = refl
    total (Milli.minus a) (Milli.minus b) h k l = ground arith

pub milli-IsPrinted : IsPrinted Milli ⦃f = milli⦄
unfolding is_digit
milli-IsPrinted = record { display_line = line; parse-display = back }
  where
    line :
        (x : Milli)
        → milli_finite x ≡ true
        → Lacks 10 (milli_display x) × Lacks 13 (milli_display x)
    line Milli.nan h = cc
    line (Milli.plus a) h =
        ((omega arith, decimal-Lacks 10 a refl), (omega arith, decimal-Lacks 13 a refl))
    line (Milli.minus a) h =
        ((omega arith, decimal-Lacks 10 a refl), (omega arith, decimal-Lacks 13 a refl))

    back : (x : Milli) → milli_finite x ≡ true → milli_parse (milli_display x) ≡ ok x
    back Milli.nan h = cc
    back (Milli.plus a) h =
        ap (map_ok (λ n. Milli.plus n)) (parse_unsigned-decimal max_u64 a (ground arith))
    back (Milli.minus a) h =
        ap (map_ok (λ n. Milli.minus n)) (parse_unsigned-decimal max_u64 a (ground arith))
