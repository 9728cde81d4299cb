-- ===== src/Value/Float.antt =====
-- IEEE 754 numbers as bit patterns: what math.IsNaN, math.IsInf, the comparisons and the negation
-- of Go compute. The rounding operations are the fields of `Arithmetic`, a parameter.
pub mod Exact
use iot_edge.Prelude.{
  ℕ, ◌+◌, ◌-◌, ◌/◌, ◌%◌, ◌≡◌, Bool, ◌&&◌, not, Option, List, ltb, ◌==◌, if◌then◌else◌, ℤ, pos, ◌-ℤ◌,
  ltb_ℤ, arith,
}

abbrev pub sign_bit : ℕ
sign_bit = 9223372036854775808

-- The eleven exponent bits and the 52 bits of the fraction.
abbrev exponent64 : ℕ → ℕ
exponent64 b = (b / 4503599627370496) % 2048

abbrev fraction64 : ℕ → ℕ
fraction64 b = b % 4503599627370496

abbrev exponent32 : ℕ → ℕ
exponent32 b = (b / 8388608) % 256

abbrev fraction32 : ℕ → ℕ
fraction32 b = b % 8388608

unfoldable pub is_nan : ℕ → Bool
is_nan b = (exponent64 b == 2047) && not (fraction64 b == 0)

unfoldable pub is_inf : ℕ → Bool
is_inf b = (exponent64 b == 2047) && (fraction64 b == 0)

-- `math.IsNaN(float64(v))` of a float32 v; the conversion is exact.
unfoldable pub is_nan32 : ℕ → Bool
is_nan32 b = (exponent32 b == 255) && not (fraction32 b == 0)

unfoldable pub is_inf32 : ℕ → Bool
is_inf32 b = (exponent32 b == 255) && (fraction32 b == 0)

-- backend/internal/tag/transform.go, `finite`
unfoldable pub is_finite64 : ℕ → Bool
unfolding is_nan is_inf
is_finite64 b = not (is_nan b) && not (is_inf b)

unfoldable pub is_finite32 : ℕ → Bool
unfolding is_nan32 is_inf32
is_finite32 b = not (is_nan32 b) && not (is_inf32 b)

-- Numbers other than NaN are ordered as their sign and magnitude; both zeros have key 0.
unfoldable pub float_key : ℕ → ℤ
unfolding ◌-ℤ◌
float_key b = if ltb b sign_bit then pos b else pos 0 -ℤ pos (b - sign_bit)

abbrev pub key_eq : ℤ → ℤ → Bool
key_eq a b = not (ltb_ℤ a b) && not (ltb_ℤ b a)

unfoldable pub float_eq : ℕ → ℕ → Bool
unfolding float_key is_nan
float_eq a b = not (is_nan a) && (not (is_nan b) && key_eq (float_key a) (float_key b))

unfoldable pub float_lt : ℕ → ℕ → Bool
unfolding float_key is_nan
float_lt a b = not (is_nan a) && (not (is_nan b) && ltb_ℤ (float_key a) (float_key b))

unfoldable pub float_le : ℕ → ℕ → Bool
unfolding float_key is_nan
float_le a b = not (is_nan a) && (not (is_nan b) && not (ltb_ℤ (float_key b) (float_key a)))

-- `-x` flips the sign bit.
unfoldable pub float_neg : ℕ → ℕ
float_neg b = if ltb b sign_bit then b + sign_bit else b - sign_bit

-- The operations of Go on float64 that round, and the conversions.
pub record Arithmetic : Type 0 where
  pub add : ℕ → ℕ → ℕ
  pub sub : ℕ → ℕ → ℕ
  pub mul : ℕ → ℕ → ℕ
  pub div : ℕ → ℕ → ℕ
  pub fmod : ℕ → ℕ → ℕ
  pub of_int : ℤ → ℕ
  pub widen : ℕ → ℕ
  pub narrow : ℕ → ℕ
  pub trunc : ℕ → ℕ
  pub to_int : ℕ → ℤ
  pub parse_float : List ℕ → Option ℕ

-- A number stays finite under a change of sign.
pub is_finite64-float_neg : (b : ℕ) → is_finite64 (float_neg b) ≡ is_finite64 b
unfolding is_finite64 float_neg
is_finite64-float_neg b = ground arith
