-- ===== src/Tag/Converter.antt =====
-- backend/internal/tag/converter.go: a window of raw bytes is put into big-endian order and read
-- as a value. `any` results are `Value`s; the texts of the errors are left out.
pub mod Loops
pub mod WordLoop
pub mod ByteLoop
pub mod Order
pub mod Words
pub mod Types
pub mod Convert
pub mod Roundtrip
mod Tests
use Prim.Native.Nat.{bit_and}
use iot_edge.Prelude.{
  ℕ, zero, suc, ◌+◌, ◌-◌, ◌*◌, ◌%◌, ◌^◌, ◌≡◌, refl, Bool, true, false, ◌||◌, ◌&&◌, not, List, [],
  ◌∷◌, ltb, ◌==◌, if◌then◌else◌, ℤ, pos, negsuc, length, get_or, set, take, drop, Result, ok, err,
  ◌>>=◌, ◌>>◌, fail_if,
}
use iot_edge.Value.{DataType, data_type_eq, Value, to_signed}
use iot_edge.Value.Float.{is_nan, is_inf, is_nan32, is_inf32}

pub data ConvertError : Type 0 where
  invalid_conversion insufficient_data non_finite : ConvertError

-- `type ByteOrder string`; `unset` is the empty string, `other` any other one.
pub data ByteOrder : Type 0 where
  unset big_endian little_endian word_swap byte_swap other : ByteOrder

pub record BinaryConversion : Type 0 where
  pub data_type : DataType
  pub byte_order : ByteOrder
  pub byte_offset : ℤ
  pub bit_offset : ℕ  -- uint8

-- `xs[i], xs[j] = xs[j], xs[i]`, within range.
unfoldable pub swap : ℕ → ℕ → List ℕ → List ℕ
swap i j xs = set (set xs i (get_or xs j 0)) j (get_or xs i 0)

-- The loop of `reverseBytes`. Where the right end starts at -1 the loop ends at once, as at 0.
unfoldable pub reverse_loop : ℕ → ℕ → ℕ → List ℕ → List ℕ
unfolding swap
reverse_loop zero left right xs = xs
reverse_loop (suc fuel) left right xs = elim (ltb left right) [
  | true ↦ reverse_loop fuel (left + 1) (right - 1) (swap left right xs)
  | false ↦ xs
]

unfoldable pub reverse_bytes : List ℕ → List ℕ
unfolding reverse_loop
reverse_bytes xs = reverse_loop (length xs) 0 (length xs - 1) xs

-- The loop of `word_swap`, over pairs of bytes.
unfoldable pub word_loop : ℕ → ℕ → ℕ → List ℕ → List ℕ
unfolding swap
word_loop zero left right xs = xs
word_loop (suc fuel) left right xs = elim (ltb left right) [
  | true ↦ word_loop fuel (left + 2) (right - 2) (swap (left + 1) (right + 1) (swap left right xs))
  | false ↦ xs
]

-- The loop of `byte_swap`.
unfoldable pub byte_loop : ℕ → ℕ → List ℕ → List ℕ
unfolding swap
byte_loop zero index xs = xs
byte_loop (suc fuel) index xs = elim (ltb index (length xs)) [
  | true ↦ byte_loop fuel (index + 2) (swap index (index + 1) xs)
  | false ↦ xs
]

-- The loops run at most once for each byte.
unfoldable pub order_bytes : ByteOrder → List ℕ → Result ConvertError (List ℕ)
unfolding reverse_bytes word_loop byte_loop
order_bytes ByteOrder.unset xs = ok xs
order_bytes ByteOrder.big_endian xs = ok xs
order_bytes ByteOrder.little_endian xs = ok (reverse_bytes xs)
order_bytes ByteOrder.word_swap xs = ok (word_loop (length xs) 0 (length xs - 2) xs)
order_bytes ByteOrder.byte_swap xs = ok (byte_loop (length xs) 0 xs)
order_bytes ByteOrder.other xs = err invalid_conversion

unfoldable pub apply_byte_order : List ℕ → ByteOrder → Result ConvertError (List ℕ)
unfolding order_bytes
apply_byte_order raw order =
    if length raw % 2 == 0 then order_bytes order raw else err invalid_conversion

unfoldable pub binary_data_size : DataType → Result ConvertError ℕ
binary_data_size DataType.bool = ok 1
binary_data_size DataType.int16 = ok 2
binary_data_size DataType.uint16 = ok 2
binary_data_size DataType.int32 = ok 4
binary_data_size DataType.uint32 = ok 4
binary_data_size DataType.float32 = ok 4
binary_data_size DataType.float64 = ok 8
binary_data_size DataType.other = err invalid_conversion

-- `binary.BigEndian.Uint16` and its wider forms, of a slice of just that many bytes.
unfoldable pub be_from : ℕ → List ℕ → ℕ
be_from acc [] = acc
be_from acc (x ∷ xs) = be_from (acc * 256 + x) xs

unfoldable pub big_endian_uint : List ℕ → ℕ
unfolding be_from
big_endian_uint xs = be_from 0 xs

-- The `switch` on the data type, at the number that the ordered bytes spell.
unfoldable pub typed_value : DataType → ℕ → Result ConvertError Value
unfolding to_signed is_nan is_inf is_nan32 is_inf32
typed_value DataType.int16 u = ok (Value.int16 (to_signed 32768 u))
typed_value DataType.uint16 u = ok (Value.uint16 u)
typed_value DataType.int32 u = ok (Value.int32 (to_signed 2147483648 u))
typed_value DataType.uint32 u = ok (Value.uint32 u)
typed_value DataType.float32 u =
    if is_nan32 u || is_inf32 u then err non_finite else ok (Value.float32 u)
typed_value DataType.float64 u =
    if is_nan u || is_inf u then err non_finite else ok (Value.float64 u)
typed_value _ u = err invalid_conversion

-- `window[0] & (1 << bit) != 0`
unfoldable pub bit_test : ℕ → ℕ → Bool
bit_test byte bit = not (bit_and byte (2 ^ bit) == 0)

unfoldable pub convert_window : BinaryConversion → List ℕ → Result ConvertError Value
unfolding apply_byte_order big_endian_uint typed_value bit_test data_type_eq
convert_window c window =
    if data_type_eq c.data_type DataType.bool
    then (if ltb 7 c.bit_offset
        then err invalid_conversion
        else ok (Value.bool (bit_test (get_or window 0 0) c.bit_offset)))
    else (apply_byte_order window c.byte_order >>= λ ordered.
        typed_value c.data_type (big_endian_uint ordered))

-- The guards and the window at an offset that is not negative.
unfoldable pub convert_at : List ℕ → BinaryConversion → ℕ → Result ConvertError Value
unfolding convert_window binary_data_size data_type_eq
convert_at raw c offset = binary_data_size c.data_type >>= λ size.
    fail_if (ltb (length raw) offset || ltb (length raw - offset) size) insufficient_data
    >> fail_if (not (data_type_eq c.data_type DataType.bool) && not (c.bit_offset == 0))
        invalid_conversion
    >> convert_window c (take size (drop offset raw))

unfoldable pub convert_from : List ℕ → BinaryConversion → ℤ → Result ConvertError Value
unfolding convert_at
convert_from raw c (pos offset) = convert_at raw c offset
convert_from raw c (negsuc n) = err invalid_conversion

unfoldable pub convert_binary : List ℕ → BinaryConversion → Result ConvertError Value
unfolding convert_from
convert_binary raw c = convert_from raw c c.byte_offset
