-- ===== src/Float.antt =====
-- The type `f32`: what the source does with it, and the documented behaviour that proofs rely on.
use nordfir.Base.{
  ℕ, ◌≡◌, Bool, true, false, arith, Option, none, some, Text, Lacks, Result, ok, if◌then◌else◌,
}
use nordfir.Base.Time.{Duration}

pub record F32 (F : Type 0) : Type 0 where
  -- a literal, or `f32::from`
  pub of_ℕ : ℕ → F
  pub lt : F → F → Bool
  pub le : F → F → Bool
  pub is_finite : F → Bool
  pub add : F → F → F
  pub sub : F → F → F
  pub mul : F → F → F
  pub div : F → F → F
  pub abs : F → F
  pub round : F → F
  -- `as u64`
  pub to_u64 : F → ℕ
  -- `{}`
  pub display : F → Text
  -- `{:.n}`
  pub display_fixed : ℕ → F → Text
  -- `str::parse::<f32>`
  pub parse : Text → Result F
  -- `str::parse::<f64>`, and `as u64`
  pub parse_truncated : Text → Result ℕ
  -- `Duration::as_secs_f32`
  pub as_secs_f32 : Duration → F
  -- `Duration::from_secs_f32`, which panics on what is no duration
  pub from_secs_f32 : F → Option Duration

module _ {F : Type 0} ⦃f : F32 F⦄ where
  -- What `f32::clamp` returns once its assertion `lo <= hi` has passed.
  abbrev pub clamp_between : F → F → F → F
  clamp_between lo hi x = if f.lt x lo then lo else if f.lt hi x then hi else x

  -- `x.clamp(lo, hi)`; `none` is the panic.
  abbrev pub clamp : F → F → F → Option F
  clamp lo hi x = if f.le lo hi then some (clamp_between lo hi x) else none

  -- `x.clamp(0.0, 1.0)`, whose assertion holds.
  abbrev pub clamp_unit : F → F
  clamp_unit = clamp_between (f.of_ℕ 0) (f.of_ℕ 1)

-- Documented behaviour of the comparisons. A NaN is not `<=` itself.
pub record IsOrdered (F : Type 0) ⦃f : F32 F⦄ : Type 0 where
  pub lt_irrefl : (x : F) → f.lt x x ≡ false
  pub lt_asymm : (x y : F) → f.lt x y ≡ true → f.lt y x ≡ false
  pub lt_of_le : (x y : F) → f.le x y ≡ true → f.lt y x ≡ false
  pub le_total : (x y : F) → f.le x x ≡ true → f.le y y ≡ true → f.lt y x ≡ false → f.le x y ≡ true

module _ {F : Type 0} ⦃f : F32 F⦄ (laws : IsOrdered F) where
  open laws use {lt_irrefl, lt_of_le}

  -- A clamped value lies in its range.
  pub clamp_bounds :
      (lo hi x : F) {y : F} → clamp lo hi x ≡ some y → (f.lt y lo ≡ false) × (f.lt hi y ≡ false)
  clamp_bounds lo hi x h = ground (arith, lt_irrefl lo, lt_irrefl hi, lt_of_le lo hi)

-- Documented behaviour of `{}` and `parse`: a finite number is printed on one line, and so that it
-- reads back.
pub record IsPrinted (F : Type 0) ⦃f : F32 F⦄ : Type 0 where
  pub display_line :
      (x : F) → f.is_finite x ≡ true → Lacks 10 (f.display x) × Lacks 13 (f.display x)
  pub parse-display : (x : F) → f.is_finite x ≡ true → f.parse (f.display x) ≡ ok x
