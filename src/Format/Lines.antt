-- ===== src/Format/Lines.antt =====
-- `str::lines`, `split_once`, and the characters that the program accepts in names.
use nordfir.Base.{
  ℕ, ◌≡◌, refl, ap, ◌∙◌, inl, inr, Bool, true, false, ◌||◌, ◌&&◌, not, Option, none, some, List, [],
  ◌∷◌, ◌++◌, append-nil, append_assoc, Text, str, text_eq, Lacks, all, is_empty, leb, ◌==◌, ==_iff,
  if◌then◌else◌, arith, Bool-cases,
}
use nordfir.Format.Decimal.{is_digit}

abbrev newline : ℕ
newline = 10

abbrev carriage_return : ℕ
carriage_return = 13

-- A line ends at `\n`, and a `\r` before that goes with it.
strip_return : Text → Text
strip_return [] = []
strip_return (c ∷ []) = if c == carriage_return then [] else c ∷ []
strip_return (c ∷ d ∷ t) = c ∷ strip_return (d ∷ t)

-- The last argument is the line so far.
lines_from : Text → Text → List Text
unfolding strip_return
lines_from [] [] = []
lines_from [] (c ∷ line) = (c ∷ line) ∷ []
lines_from (c ∷ t) line = elim (c == newline) [
  | true ↦ strip_return line ∷ lines_from t []
  | false ↦ lines_from t (line ++ c ∷ [])
]

unfoldable pub lines : Text → List Text
unfolding lines_from
lines t = lines_from t []

strip_return-Lacks : (t : Text) → Lacks carriage_return t → strip_return t ≡ t
unfolding strip_return
strip_return-Lacks [] _ = refl
strip_return-Lacks (c ∷ []) (h, _) = ground arith
strip_return-Lacks (c ∷ d ∷ t) (_, h) = ap (◌∷◌ c) (strip_return-Lacks (d ∷ t) h)

lines_from-append :
    (t rest line : Text)
    → Lacks newline t
    → lines_from (t ++ newline ∷ rest) line ≡ strip_return (line ++ t) ∷ lines_from rest []
unfolding lines_from
lines_from-append [] rest line _ = rw append-nil
lines_from-append (c ∷ t) rest line (h, hs) = elim (Bool-cases (c == newline)) [
  | inl e ↦ absurd (h ((==_iff c newline).0 e))
  | inr e ↦
      rw (e, lines_from)
        (lines_from-append t rest (line ++ c ∷ []) hs
          ∙ ap (λ (u : Text). strip_return u ∷ lines_from rest []) (append_assoc line (c ∷ []) t))
]

-- A line with no break in it is the first line of itself, a break and a rest.
pub lines-cons :
    (t rest : Text)
    → Lacks newline t
    → Lacks carriage_return t
    → lines (t ++ newline ∷ rest) ≡ t ∷ lines rest
unfolding lines
lines-cons t rest l r =
    lines_from-append t rest [] l
    ∙ ap (λ (u : Text). u ∷ lines_from rest []) (strip_return-Lacks t r)

-- `split_once(c)`
unfoldable pub split_once : ℕ → Text → Option (Text × Text)
split_once c [] = none
split_once c (d ∷ t) =
    if d == c
    then some ([], t)
    else elim (split_once c t) [ none ↦ none | some (a, b) ↦ some (d ∷ a, b) ]

-- An ASCII letter or digit, `-`, `_` or `.`.
unfoldable pub is_token_char : ℕ → Bool
unfolding is_digit
is_token_char c =
    is_digit c
    || leb b'a' c && leb c b'z'
    || leb b'A' c && leb c b'Z'
    || c == b'-'
    || c == b'_'
    || c == b'.'

-- What `validate_token` accepts.
unfoldable pub is_token : Text → Bool
unfolding is_token_char
is_token t =
    not (is_empty t || text_eq t (str ".") || text_eq t (str "..") || not (all is_token_char t))
