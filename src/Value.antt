-- ===== src/Value.antt =====
-- The dynamic values that cross the backend's interfaces (Go's `any`), the data types of tags
-- (backend/internal/tag/model.go), and floating-point numbers by their IEEE 754 bit patterns.
pub mod Float
pub mod Text
use iot_edge.Prelude.{
  ℕ, ◌+◌, ◌-◌, ◌^◌, ◌≤◌, ◌<◌, ◌≡◌, Bool, true, false, ◌&&◌, ltb, if◌then◌else◌, ℤ, pos, negsuc,
  ◌≤ℤ◌,
}
use iot_edge.Value.Float.{is_finite32, is_finite64}

-- `type DataType string`; `other` is any string that names no data type.
pub data DataType : Type 0 where
  bool int16 uint16 int32 uint32 float32 float64 other : DataType

pub DataType-discrete : Discrete DataType
DataType-discrete = hlevel

unfoldable pub data_type_eq : DataType → DataType → Bool
data_type_eq DataType.bool DataType.bool = true
data_type_eq DataType.int16 DataType.int16 = true
data_type_eq DataType.uint16 DataType.uint16 = true
data_type_eq DataType.int32 DataType.int32 = true
data_type_eq DataType.uint32 DataType.uint32 = true
data_type_eq DataType.float32 DataType.float32 = true
data_type_eq DataType.float64 DataType.float64 = true
data_type_eq DataType.other DataType.other = true
data_type_eq _ _ = false

-- `any`: the types that the code tells apart, and every other one.
pub data Value : Type 0 where
  nil : Value
  bool : Bool → Value
  int int8 int16 int32 int64 : ℤ → Value
  uint uint8 uint16 uint32 uint64 : ℕ → Value
  float32 float64 : ℕ → Value
  other : Value

-- The conversion of an unsigned word of 2 * half values to the signed word of the same width.
unfoldable pub to_signed : ℕ → ℕ → ℤ
to_signed half u = if ltb u half then pos u else negsuc (half + half - u - 1)

-- A value has the Go type that its data type names, within that type's range; numbers are finite.
abbrev pub HasType : DataType → Value → Type 0
HasType DataType.bool (Value.bool b) = Unit {0}
HasType DataType.int16 (Value.int16 z) = (negsuc 32767 ≤ℤ z) × (z ≤ℤ pos 32767)
HasType DataType.uint16 (Value.uint16 n) = n < 65536
HasType DataType.int32 (Value.int32 z) = (negsuc 2147483647 ≤ℤ z) × (z ≤ℤ pos 2147483647)
HasType DataType.uint32 (Value.uint32 n) = n < 4294967296
HasType DataType.float32 (Value.float32 b) = is_finite32 b ≡ true
HasType DataType.float64 (Value.float64 b) = is_finite64 b ≡ true
HasType _ _ = ⊥
