-- ===== src/Format/Strings.antt =====
-- `str::trim` and `Path::join`.
use nordfir.Base.{
  ℕ, Bool, true, false, ◌||◌, ◌&&◌, Option, none, some, List, [], ◌∷◌, ◌++◌, Text, is_empty, leb,
  ◌==◌, if◌then◌else◌, reverse,
}

-- The `White_Space` property of Unicode.
unfoldable pub is_whitespace : ℕ → Bool
is_whitespace c =
    leb 9 c && leb c 13
    || c == 32
    || c == 133
    || c == 160
    || c == 5760
    || leb 8192 c && leb c 8202
    || c == 8232
    || c == 8233
    || c == 8239
    || c == 8287
    || c == 12288

unfoldable pub trim_start : Text → Text
trim_start [] = []
trim_start (c ∷ t) = let rest = trim_start t in if is_whitespace c then rest else c ∷ t

unfoldable pub trim_end : Text → Text
trim_end [] = []
trim_end (c ∷ t) =
    let rest = trim_end t in if is_empty rest && is_whitespace c then [] else c ∷ rest

-- `str::trim`
unfoldable pub trim : Text → Text
trim t = trim_end (trim_start t)

-- `Path` as the text that it displays.
abbrev pub FilePath : Type 0
FilePath = Text

unfoldable pub with_separator : FilePath → FilePath
with_separator [] = []
with_separator (c ∷ []) = if c == b'/' then c ∷ [] else c ∷ b'/' ∷ []
with_separator (c ∷ d ∷ p) = c ∷ with_separator (d ∷ p)

-- `join(name)` with a relative name
unfoldable pub join : FilePath → Text → FilePath
join p name = with_separator p ++ name

unfoldable pub strip_prefix : Text → Text → Option Text
strip_prefix [] t = some t
strip_prefix (c ∷ prefix) [] = none
strip_prefix (c ∷ prefix) (d ∷ t) = if c == d then strip_prefix prefix t else none

-- An empty word is no word.
unfoldable pub keep_word : Text → List Text → List Text
keep_word [] words = words
keep_word (c ∷ word) words = (c ∷ word) ∷ words

-- `split_whitespace`, from the word so far.
unfoldable pub words_from : Text → Text → List Text
words_from [] [] = []
words_from [] (c ∷ word) = (c ∷ word) ∷ []
words_from (c ∷ t) word = elim (is_whitespace c) [
  | true ↦ keep_word word (words_from t [])
  | false ↦ words_from t (word ++ c ∷ [])
]

unfoldable pub split_whitespace : Text → List Text
split_whitespace t = words_from t []

-- `Path::is_absolute`
unfoldable pub is_absolute : FilePath → Bool
is_absolute [] = false
is_absolute (c ∷ p) = c == b'/'

skip_separators : Text → Text
skip_separators [] = []
skip_separators (c ∷ t) = let rest = skip_separators t in if c == b'/' then rest else c ∷ t

skip_name : Text → Text
skip_name [] = []
skip_name (c ∷ t) = let rest = skip_name t in if c == b'/' then c ∷ t else rest

-- The last component and the separators around it are taken off a reversed path.
abbrev without_name : Bool → Text → FilePath
without_name absolute [] = if absolute then b'/' ∷ [] else []
without_name absolute (c ∷ t) = reverse (c ∷ t)

abbrev parent_of : Bool → Text → Option FilePath
parent_of absolute [] = none
parent_of absolute (c ∷ t) = some (without_name absolute (skip_separators (skip_name (c ∷ t))))

-- `Path::parent`, of a path that does not end in a component `.`
unfoldable pub parent : FilePath → Option FilePath
unfolding skip_separators skip_name
parent p = parent_of (is_absolute p) (skip_separators (reverse p))
