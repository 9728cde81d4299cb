-- ===== src/Tag/Coerce.antt =====
-- backend/internal/tag/service.go: `coerceTagValue`, which gives a value the Go type of its tag's
-- data type, or refuses it.
pub mod Range
use iot_edge.Prelude.{
  ℕ, Bool, true, false, ◌||◌, not, Option, none, some, if◌then◌else◌, Result, ok, err,
}
use iot_edge.Value.{DataType, Value}
use iot_edge.Value.Float.{Arithmetic, is_nan, is_inf, is_inf32, float_eq, float_lt}
use iot_edge.Value.Float.Exact.{trunc64, to_integer}
use iot_edge.Prelude.{ℤ, pos_part}
use iot_edge.Tag.Expression.Eval.{expression_number}

-- `ErrInvalidTagInput` and `ErrUnsupportedTagDataType`.
pub data CoerceError : Type 0 where
  invalid_tag_input unsupported_tag_data_type : CoerceError

-- `number != math.Trunc(number) || number < low || number > high`
abbrev pub not_integer : ℕ → ℕ → ℕ → Bool
not_integer low high number =
    not (float_eq number (trunc64 number)) || float_lt number low || float_lt high number

-- The bounds of the integer types, as float64 numbers.
abbrev pub min_int16 : ℕ
min_int16 = 0xc0e0000000000000

abbrev pub max_int16 : ℕ
max_int16 = 0x40dfffc000000000

abbrev pub max_uint16 : ℕ
max_uint16 = 0x40efffe000000000

abbrev pub min_int32 : ℕ
min_int32 = 0xc1e0000000000000

abbrev pub max_int32 : ℕ
max_int32 = 0x41dfffffffc00000

abbrev pub max_uint32 : ℕ
max_uint32 = 0x41efffffffe00000

-- The conversion of an integer in the range of an unsigned type.
abbrev pub to_unsigned : ℕ → ℕ
to_unsigned number = pos_part (to_integer number)

module _ (arithmetic : Arithmetic) where
  -- The `switch` over data types, of a finite number.
  unfoldable pub coerce_number : DataType → ℕ → Result CoerceError Value
  unfolding float_eq float_lt trunc64 to_integer is_inf32
  coerce_number DataType.int16 number =
      if not_integer min_int16 max_int16 number
      then err invalid_tag_input
      else ok (Value.int16 (to_integer number))
  coerce_number DataType.uint16 number =
      if not_integer 0 max_uint16 number
      then err invalid_tag_input
      else ok (Value.uint16 (to_unsigned number))
  coerce_number DataType.int32 number =
      if not_integer min_int32 max_int32 number
      then err invalid_tag_input
      else ok (Value.int32 (to_integer number))
  coerce_number DataType.uint32 number =
      if not_integer 0 max_uint32 number
      then err invalid_tag_input
      else ok (Value.uint32 (to_unsigned number))
  coerce_number DataType.float32 number =
      let converted = arithmetic.narrow number in
      if is_inf32 converted then err invalid_tag_input else ok (Value.float32 converted)
  coerce_number DataType.float64 number = ok (Value.float64 number)
  coerce_number _ number = err unsupported_tag_data_type

  -- `!ok || math.IsNaN(number) || math.IsInf(number, 0)`
  unfoldable pub coerce_finite : DataType → Option ℕ → Result CoerceError Value
  unfolding coerce_number is_nan is_inf
  coerce_finite t none = err invalid_tag_input
  coerce_finite t (some number) =
      if is_nan number || is_inf number then err invalid_tag_input else coerce_number t number

  unfoldable pub coerce_bool : Value → Result CoerceError Value
  coerce_bool (Value.bool b) = ok (Value.bool b)
  coerce_bool _ = err invalid_tag_input

  unfoldable pub coerce_tag_value : DataType → Value → Result CoerceError Value
  unfolding coerce_bool coerce_finite expression_number
  coerce_tag_value DataType.bool v = coerce_bool v
  coerce_tag_value t v = coerce_finite t (expression_number arithmetic v)
