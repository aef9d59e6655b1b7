-- ===== src/Float.antt =====
-- The single-precision arithmetic that the program uses, as an interface: the standard library's
-- `f32` is a type `F` with these operations. No law of real arithmetic is assumed of it.
use riftnet_rust.Base.{ℕ, ◌+◌, ◌^◌, ◌<◌, ◌≤◌, ◌≡◌, Bool, false, if◌then◌else◌}

-- `lit n d` is the literal that is written for n / d; `as_secs_f32` is the method of `Duration`,
-- here on nanoseconds; `minimum` is `f32::min`.
pub record F32 (F : Type 0) : Type 0 where
  pub lit : ℕ → ℕ → F
  pub add : F → F → F
  pub sub : F → F → F
  pub mul : F → F → F
  pub abs : F → F
  pub lt : F → F → Bool
  pub le : F → F → Bool
  pub minimum : F → F → F
  pub as_secs_f32 : ℕ → F

-- The conversions, with the integers as their bit patterns: `as f32` of an `i32`, an `i64` and a
-- `u128`, `as` back to an `i32`, a `u64` and a `u128`, and `f32::round`, division and `to_bits`.
pub record F32Cast (F : Type 0) : Type 0 where
  pub of_i32 : ℕ → F
  pub of_i64 : ℕ → F
  pub of_u128 : ℕ → F
  pub as_i32 : F → ℕ
  pub as_u64 : F → ℕ
  pub as_u128 : F → ℕ
  pub round : F → F
  pub div : F → F → F
  pub to_bits : F → ℕ

-- What the interpolation of a world relies on, with the multiplication. All hold in IEEE 754: an
-- integer of at most 24 bits is a float, and one that is multiplied by 1 or 0 is itself or zero.
pub record IsF32Cast {F : Type 0} (f : F32 F) (cast : F32Cast F) : Type 0 where
  pub times_one : (d : ℕ) → f.mul (cast.of_i32 d) (f.lit 1 1) ≡ cast.of_i32 d
  pub times_zero : (d : ℕ) → cast.as_i32 (cast.round (f.mul (cast.of_i32 d) (f.lit 0 1))) ≡ 0
  pub small_exact : (d : ℕ) → d ≤ 2 ^ 24 → cast.as_i32 (cast.round (cast.of_i32 d)) ≡ d
  pub negative_exact :
      (d : ℕ) → 2 ^ 32 ≤ d + 2 ^ 24 → d < 2 ^ 32 → cast.as_i32 (cast.round (cast.of_i32 d)) ≡ d

-- What the bounds on the timeout rely on. All hold in IEEE 754, NaN included.
pub record IsF32 {F : Type 0} (f : F32 F) : Type 0 where
  pub lt_irrefl : (a : F) → f.lt a a ≡ false
  pub lit_order : f.lt (f.lit 500 1) (f.lit 30 1) ≡ false
  pub lit_start : f.lt (f.lit 2000 1) (f.lit 100 1) ≡ false
  pub lt_2000 : (a : F) → f.lt (f.lit 500 1) a ≡ false → f.lt (f.lit 2000 1) a ≡ false
  pub minimum-le : (a b : F) → f.lt b (f.minimum a b) ≡ false

-- `f32::clamp`: the two comparisons of the standard library, so a NaN stays one.
unfoldable pub clamp : {F : Type 0} ⦃f : F32 F⦄ → F → F → F → F
clamp ⦃f⦄ x lo hi = let y = if f.lt x lo then lo else x in if f.lt hi y then hi else y
