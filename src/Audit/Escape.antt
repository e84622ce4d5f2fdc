-- ===== src/Audit/Escape.antt =====
-- audit/mod.rs, `escape_field`: what is escaped has no tab and no line break, and can be read back.
use mathlib.Core.Path.{subst}
use nordfir.Base.{
  ℕ, ◌≡◌, refl, sym, ap, ◌∙◌, inl, inr, true, false, [], ◌∷◌, ◌++◌, append_assoc, Text, Lacks,
  All-append, ◌==◌, ==_iff, Bool-cases, arith, if◌then◌else◌,
}
use nordfir.Audit.{replace, escape_field}

abbrev pub tab : ℕ
tab = 9

abbrev pub newline : ℕ
newline = 10

abbrev pub carriage_return : ℕ
carriage_return = 13

module _ (c : ℕ) (by : Text) where
  replace-append : (s t : Text) → replace c by (s ++ t) ≡ replace c by s ++ replace c by t
  unfolding replace
  replace-append [] t = refl
  replace-append (d ∷ s) t = elim (Bool-cases (d == c)) [
    | inl e ↦
        rw (e, replace)
          (ap (λ (x : Text). by ++ x) (replace-append s t)
            ∙ sym (append_assoc by (replace c by s) (replace c by t)))
    | inr e ↦ rw (e, replace) (ap (◌∷◌ d) (replace-append s t))
  ]

  replace-Lacks : (t : Text) → Lacks c by → Lacks c (replace c by t)
  unfolding replace
  replace-Lacks [] h = tt
  replace-Lacks (d ∷ t) h = elim (Bool-cases (d == c)) [
    | inl e ↦ rw (e, replace) (All-append _ by (replace c by t) h (replace-Lacks t h))
    | inr e ↦ rw (e, replace) ((λ same. let k = (==_iff d c).1 same in cc), replace-Lacks t h)
  ]

  replace-Lacks_other : (b : ℕ) (t : Text) → Lacks b by → Lacks b t → Lacks b (replace c by t)
  unfolding replace
  replace-Lacks_other b [] h _ = tt
  replace-Lacks_other b (d ∷ t) h (a, k) = elim (Bool-cases (d == c)) [
    | inl e ↦ rw (e, replace) (All-append _ by (replace c by t) h (replace-Lacks_other b t h k))
    | inr e ↦ rw (e, replace) (a, replace-Lacks_other b t h k)
  ]

-- A text of one line and one column.
abbrev pub IsPlain : Text → Type 0
IsPlain t = Lacks tab t × Lacks newline t × Lacks carriage_return t

escape_field-IsPlain : (t : Text) → IsPlain (escape_field t)
unfolding escape_field
escape_field-IsPlain t =
    let slashes = replace b'\\' (b'\\' ∷ b'\\' ∷ []) t in
    let tabs = replace tab (b'\\' ∷ b't' ∷ []) slashes in
    let returns = replace carriage_return (b'\\' ∷ b'r' ∷ []) tabs in
    let no_tab = replace-Lacks tab (b'\\' ∷ b't' ∷ []) slashes (omega arith, (omega arith, tt)) in
    let no_tab' =
      replace-Lacks_other carriage_return (b'\\' ∷ b'r' ∷ []) tab tabs
        (omega arith, (omega arith, tt)) no_tab in
    let no_return =
      replace-Lacks carriage_return (b'\\' ∷ b'r' ∷ []) tabs (omega arith, (omega arith, tt)) in
    (
      replace-Lacks_other newline (b'\\' ∷ b'n' ∷ []) tab returns (omega arith, (omega arith, tt))
          no_tab',
      replace-Lacks newline (b'\\' ∷ b'n' ∷ []) returns (omega arith, (omega arith, tt)),
      replace-Lacks_other newline (b'\\' ∷ b'n' ∷ []) carriage_return returns
          (omega arith, (omega arith, tt)) no_return,
    )

escape_field-append : (s t : Text) → escape_field (s ++ t) ≡ escape_field s ++ escape_field t
unfolding escape_field
escape_field-append s t = rw (replace-append, replace-append, replace-append, replace-append)

-- The character that stands after a backslash, and the one it stands for.
abbrev unescaped : ℕ → ℕ
unescaped c =
    if c == b't'
    then tab
    else if c == b'r'
    then carriage_return
    else if c == b'n'
    then newline
    else c

-- Reads an escaped text.
abbrev pub unescape : Text → Text
unescape [] = []
unescape (c ∷ []) = c ∷ []
unescape (c ∷ d ∷ t) = elim (c == b'\\') [
  | true ↦ unescaped d ∷ unescape t
  | false ↦ c ∷ unescape (d ∷ t)
]

unescape-plain : (c : ℕ) (t : Text) → (c == b'\\') ≡ false → unescape (c ∷ t) ≡ c ∷ unescape t
unescape-plain c [] e = refl
unescape-plain c (d ∷ t) e = rw (e, unescape) refl

-- What a character is escaped to reads back as it.
abbrev ReadsBack : ℕ → Text → Type 0
ReadsBack c t = unescape (escape_field (c ∷ []) ++ t) ≡ c ∷ unescape t

escape_one : (c : ℕ) (t : Text) → ReadsBack c t
unfolding escape_field replace
escape_one c t = elim (Bool-cases (c == b'\\')) [
  | inl e ↦ subst (λ x. ReadsBack x t) (sym ((==_iff c b'\\').0 e)) refl
  | inr e ↦ elim (Bool-cases (c == tab)) [
    | inl k ↦ subst (λ x. ReadsBack x t) (sym ((==_iff c tab).0 k)) refl
    | inr k ↦ elim (Bool-cases (c == carriage_return)) [
      | inl m ↦ subst (λ x. ReadsBack x t) (sym ((==_iff c carriage_return).0 m)) refl
      | inr m ↦ elim (Bool-cases (c == newline)) [
        | inl n ↦ subst (λ x. ReadsBack x t) (sym ((==_iff c newline).0 n)) refl
        | inr n ↦ rw (e, k, m, n, replace) (unescape-plain c t e)
      ]
    ]
  ]
]

round_trip : (t : Text) → unescape (escape_field t) ≡ t
unfolding escape_field replace
round_trip [] = refl
round_trip (c ∷ t) =
    ap unescape (escape_field-append (c ∷ []) t)
    ∙ escape_one c (escape_field t)
    ∙ ap (◌∷◌ c) (round_trip t)

-- An escaped text holds no tab and no line break, and reads back as it was, so that no two texts are
-- escaped alike.
pub unescape-escape_field : (t : Text) → IsPlain (escape_field t) × (unescape (escape_field t) ≡ t)
unescape-escape_field t = (escape_field-IsPlain t, round_trip t)
