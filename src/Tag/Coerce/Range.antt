-- ===== src/Tag/Coerce/Range.antt =====
-- A coerced value has the Go type of its data type, in range.
use iot_edge.Prelude.{
  ℕ, zero, suc, ◌+◌, ◌-◌, ◌*◌, ◌^◌, ◌≤◌, ◌<◌, ◌≡◌, refl, subst, Bool, true, false, ◌||◌, Option,
  none, some, ltb, if◌then◌else◌, pos, negsuc, ◌≤ℤ◌, Result, ok, err, ok-injective, if-elim, arith,
  ℕ_discrete, pos_part, ◌-ℤ◌, sym,
}
use native.Mathlib.Nat.{one-le-pow}
use iot_edge.Value.{DataType, Value, HasType}
use iot_edge.Value.Float.{
  Arithmetic, is_nan, is_inf, is_nan32, is_inf32, is_finite32, is_finite64, float_lt, float_key,
  sign_bit,
}
use iot_edge.Value.Float.Exact.{to_integer, whole_part, whole_part_lt, minus}
use iot_edge.Tag.Expression.Eval.{expression_number}
use iot_edge.Tag.Coerce.{
  CoerceError, invalid_tag_input, not_integer, coerce_number, coerce_finite, coerce_bool,
  coerce_tag_value, min_int16, max_int16, max_uint16, min_int32, max_int32, max_uint32, to_unsigned,
}

-- `if bad { return err }; return value`, where it returned a value.
if-ok :
    {A : Type 0} (bad : Bool) (e : CoerceError) {next : Result CoerceError A} {a : A}
    → (if bad then err e else next) ≡ ok a
    → (bad ≡ false) × (next ≡ ok a)
if-ok true e h = cc
if-ok false e h = (refl, h)

not_below :
    (low b : ℕ)
    → is_nan b ≡ false
    → is_nan low ≡ false
    → sign_bit ≤ low
    → sign_bit ≤ b
    → float_lt b low ≡ false
    → b ≤ low
unfolding float_lt float_key ◌-ℤ◌
not_below low b number bound negative minus_ h = ground (arith, number, bound)

not_above :
    (high b : ℕ)
    → is_nan b ≡ false
    → is_nan high ≡ false
    → high < sign_bit
    → b < sign_bit
    → float_lt high b ≡ false
    → b ≤ high
unfolding float_lt float_key ◌-ℤ◌
not_above high b number bound small positive h = ground (arith, number, bound)

whole_part_le16 : (m : ℕ) → m ≤ 0x40e0000000000000 → whole_part m ≤ 32768
unfolding whole_part
whole_part_le16 m h = elim (ℕ_discrete m 0x40e0000000000000) [
  | yes same ↦ subst (λ x. whole_part x ≤ 32768) (sym same) (omega arith)
  | no other ↦ omega (arith, whole_part_lt m 15 (omega arith) (omega arith))
]

whole_part_le32 : (m : ℕ) → m ≤ 0x41e0000000000000 → whole_part m ≤ 2147483648
unfolding whole_part
whole_part_le32 m h = elim (ℕ_discrete m 0x41e0000000000000) [
  | yes same ↦ subst (λ x. whole_part x ≤ 2147483648) (sym same) (omega arith)
  | no other ↦ omega (arith, whole_part_lt m 31 (omega arith) (omega arith))
]

-- What the test of an integer range says.
not_integer-false :
    (low high b : ℕ)
    → not_integer low high b ≡ false
    → (float_lt b low ≡ false) × (float_lt high b ≡ false)
not_integer-false low high b h = ground arith

minus_range : (n m : ℕ) → m ≤ suc n → (negsuc n ≤ℤ minus m) × (minus m ≤ℤ pos n)
minus_range n zero h = (omega arith, omega arith)
minus_range n (suc m) h = (omega arith, omega arith)

int16_HasType :
    (b : ℕ)
    → is_nan b ≡ false
    → not_integer min_int16 max_int16 b ≡ false
    → HasType DataType.int16 (Value.int16 (to_integer b))
unfolding to_integer is_nan
int16_HasType b number h =
    let (low, high) = not_integer-false min_int16 max_int16 b h in
    if-elim (λ z. HasType DataType.int16 (Value.int16 z)) (ltb b sign_bit)
      (λ positive.
        let le = not_above max_int16 b number refl (omega arith) (ground arith) high in
        (omega arith, omega (arith, whole_part_lt b 15 (omega arith) (omega arith))))
      (λ negative.
        let le = not_below min_int16 b number refl (omega arith) (ground arith) low in
        minus_range 32767 (whole_part (b - sign_bit))
          (whole_part_le16 (b - sign_bit) (omega arith)))

int32_HasType :
    (b : ℕ)
    → is_nan b ≡ false
    → not_integer min_int32 max_int32 b ≡ false
    → HasType DataType.int32 (Value.int32 (to_integer b))
unfolding to_integer is_nan
int32_HasType b number h =
    let (low, high) = not_integer-false min_int32 max_int32 b h in
    if-elim (λ z. HasType DataType.int32 (Value.int32 z)) (ltb b sign_bit)
      (λ positive.
        let le = not_above max_int32 b number refl (omega arith) (ground arith) high in
        (omega arith, omega (arith, whole_part_lt b 31 (omega arith) (omega arith))))
      (λ negative.
        let le = not_below min_int32 b number refl (omega arith) (ground arith) low in
        minus_range 2147483647 (whole_part (b - sign_bit))
          (whole_part_le32 (b - sign_bit) (omega arith)))

minus_part : (m : ℕ) → pos_part (minus m) ≡ 0
minus_part zero = refl
minus_part (suc m) = refl

-- The integer of an unsigned range whose greatest number has an exponent under 1023 + n.
unsigned_lt :
    (high b n : ℕ)
    → n ≤ 52
    → high < 4503599627370496 * (1023 + n)
    → high < sign_bit
    → is_nan high ≡ false
    → is_nan b ≡ false
    → not_integer 0 high b ≡ false
    → to_unsigned b < 2 ^ n
unfolding to_integer
unsigned_lt high b n few small positive_high bound number h =
    let (low, most) = not_integer-false 0 high b h in
    if-elim (λ z. pos_part z < 2 ^ n) (ltb b sign_bit)
      (λ positive.
        let le = not_above high b number bound positive_high (ground arith) most in
        whole_part_lt b n few (omega arith))
      (λ negative.
        omega (arith, minus_part (whole_part (b - sign_bit)), one-le-pow n 2 (omega arith)))

module _ (arithmetic : Arithmetic) where
  -- A conversion to float32 of a number that is not NaN is not NaN.
  abbrev pub NarrowLaw : Type 0
  NarrowLaw = (b : ℕ) → is_nan b ≡ false → is_nan32 (arithmetic.narrow b) ≡ false

  coerce_number-HasType :
      (t : DataType) (b : ℕ) {v : Value}
      → NarrowLaw
      → is_nan b ≡ false
      → is_inf b ≡ false
      → coerce_number arithmetic t b ≡ ok v
      → HasType t v
  unfolding coerce_number is_finite32 is_finite64
  coerce_number-HasType DataType.int16 b law number finite h =
      let (inside, rest) = if-ok (not_integer min_int16 max_int16 b) invalid_tag_input h in
      subst (HasType DataType.int16) (ok-injective rest) (int16_HasType b number inside)
  coerce_number-HasType DataType.uint16 b law number finite h =
      let (inside, rest) = if-ok (not_integer 0 max_uint16 b) invalid_tag_input h in
      subst (HasType DataType.uint16) (ok-injective rest)
        (unsigned_lt max_uint16 b 16 (omega arith) (omega arith) (omega arith) refl number inside)
  coerce_number-HasType DataType.int32 b law number finite h =
      let (inside, rest) = if-ok (not_integer min_int32 max_int32 b) invalid_tag_input h in
      subst (HasType DataType.int32) (ok-injective rest) (int32_HasType b number inside)
  coerce_number-HasType DataType.uint32 b law number finite h =
      let (inside, rest) = if-ok (not_integer 0 max_uint32 b) invalid_tag_input h in
      subst (HasType DataType.uint32) (ok-injective rest)
        (unsigned_lt max_uint32 b 32 (omega arith) (omega arith) (omega arith) refl number inside)
  coerce_number-HasType DataType.float32 b law number finite h =
      let (inside, rest) = if-ok (is_inf32 (arithmetic.narrow b)) invalid_tag_input h in
      subst (HasType DataType.float32) {x = Value.float32 (arithmetic.narrow b)} (ok-injective rest)
        (rw (law b number, inside))
  coerce_number-HasType DataType.float64 b law number finite h =
      subst (HasType DataType.float64) {x = Value.float64 b} (ok-injective h) (rw (number, finite))
  coerce_number-HasType DataType.bool b law number finite h = cc
  coerce_number-HasType DataType.other b law number finite h = cc

  coerce_finite-HasType :
      (t : DataType) (o : Option ℕ) {v : Value}
      → NarrowLaw
      → coerce_finite arithmetic t o ≡ ok v
      → HasType t v
  unfolding coerce_finite
  coerce_finite-HasType t none law h = cc
  coerce_finite-HasType t (some b) law h =
      let (finite, rest) = if-ok (is_nan b || is_inf b) invalid_tag_input h in
      coerce_number-HasType t b law (ground (arith, finite)) (ground (arith, finite)) rest

  coerce_bool-HasType :
      (v : Value) {w : Value} → coerce_bool arithmetic v ≡ ok w → HasType DataType.bool w
  unfolding coerce_bool
  coerce_bool-HasType (Value.bool b) h = subst (HasType DataType.bool) (ok-injective h) tt
  coerce_bool-HasType _ h = cc

  -- A coerced value has the Go type of the data type, in its range and finite, where a conversion
  -- to float32 makes no NaN of a number.
  pub coerce_tag_value-HasType :
      (t : DataType) (v : Value) {w : Value}
      → NarrowLaw
      → coerce_tag_value arithmetic t v ≡ ok w
      → HasType t w
  unfolding coerce_tag_value
  coerce_tag_value-HasType DataType.bool v law h = coerce_bool-HasType v h
  coerce_tag_value-HasType t v law h =
      coerce_finite-HasType t (expression_number arithmetic v) law h
