-- ===== src/Floats.antt =====
-- The processor's and the C library's floating-point numbers, which src/ uses and does not define:
-- a parameter of the development. `is_nan_safe` is src/math_utils.h.
pub mod Toy
use omle_runtime.Prelude.{
  ℕ, ◌≡◌, Bool, true, false, not, Option, none, some, arith, ltb, bit_and, ◌≤◌, ◌<◌, ◌⊎◌, ◌%◌, leb,
  if◌then◌else◌,
}
use omle_runtime.Prelude.Int.{
  ℤ, pos, negsuc, ◌+ℤ◌, ◌-ℤ◌, ◌*ℤ◌, eqb_ℤ, leb_ℤ, ltb_ℤ, pos_part, neg_part,
}

-- functions of <cmath> of one argument
pub data Math1 : Type 0 where
  exp exp2 log log2 log10 log1p sqrt cbrt sin cos tan asin acos atan floor ceil round trunc tanh
        abs :
      Math1

-- functions of <cmath> of two arguments
pub data Math2 : Type 0 where
  pow fmod atan2 nextafter : Math2

-- One floating-point type.
pub record Float : Type 1 where
  pub Carrier : Type 0
  -- the bytes as an unsigned integer (memcpy)
  pub bits : Carrier → ℕ
  -- `literal m e` is the constant m / 10 ^ e
  pub literal : ℤ → ℕ → Carrier
  -- conversion from an integer, rounded
  pub of_int : ℤ → Carrier
  -- conversion to a signed or unsigned integer of so many bits; the value out of range is the
  -- compiler's
  pub to_int : Bool → ℕ → Carrier → ℤ
  pub nan : Carrier
  pub infinity : Carrier
  pub eq : Carrier → Carrier → Bool
  pub lt : Carrier → Carrier → Bool
  pub le : Carrier → Carrier → Bool
  pub add : Carrier → Carrier → Carrier
  pub sub : Carrier → Carrier → Carrier
  pub mul : Carrier → Carrier → Carrier
  pub div : Carrier → Carrier → Carrier
  pub neg : Carrier → Carrier
  pub math1 : Math1 → Carrier → Carrier
  pub math2 : Math2 → Carrier → Carrier → Carrier

-- float and double, with the conversions between them.
pub record Floats : Type 1 where
  pub f32 : Float
  pub f64 : Float
  pub widen : f32.Carrier → f64.Carrier
  pub narrow : f64.Carrier → f32.Carrier

module _ ⦃fl : Floats⦄ where
  open fl use {f32, f64}

  abbrev pub F32 : Type 0
  F32 = f32.Carrier

  abbrev pub F64 : Type 0
  F64 = f64.Carrier

  -- is_nan_safe(float)
  unfoldable pub is_nan_safe32 : F32 → Bool
  is_nan_safe32 x = ltb 0x7F800000 (bit_and (f32.bits x) 0x7FFFFFFF)

  -- is_nan_safe(double)
  unfoldable pub is_nan_safe64 : F64 → Bool
  is_nan_safe64 x = ltb 0x7FF0000000000000 (bit_and (f64.bits x) 0x7FFFFFFFFFFFFFFF)
