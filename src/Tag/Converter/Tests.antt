-- ===== src/Tag/Converter/Tests.antt =====
-- The converter at concrete bytes, and the theorems about it there.
use iot_edge.Prelude.{
  ℕ, ◌+◌, ◌<◌, ◌≡◌, refl, pos, ok, err, List, [], ◌∷◌, ◌++◌, length, get_or, ◌↔◌, arith, negsuc,
  ◌%◌,
}
use iot_edge.Value.{DataType, Value, HasType}
use iot_edge.Tag.Converter.{
  ByteOrder, BinaryConversion, insufficient_data, apply_byte_order, binary_data_size,
  convert_binary,
}
use iot_edge.Tag.Converter.Order.{source_index, apply_byte_order_index, apply_byte_order_twice}
use iot_edge.Tag.Converter.Words.{be_bytes}
use iot_edge.Tag.Converter.Convert.{convert_binary-HasType, convert_binary-insufficient}
use iot_edge.Tag.Converter.Roundtrip.{written, convert_binary-roundtrip}

abbrev six : List ℕ
six = 1 ∷ 2 ∷ 3 ∷ 4 ∷ 5 ∷ 6 ∷ []

abbrev six_swapped : List ℕ
six_swapped = 5 ∷ 6 ∷ 3 ∷ 4 ∷ 1 ∷ 2 ∷ []

word_swap_runs : apply_byte_order six ByteOrder.word_swap ≡ ok six_swapped
unfolding apply_byte_order
word_swap_runs = refl

-- A little-endian int16, -2, behind one other byte.
abbrev minus_two : BinaryConversion
minus_two = record {
  data_type = DataType.int16;
  byte_order = ByteOrder.little_endian;
  byte_offset = pos 1;
  bit_offset = 0;
}

abbrev bytes : List ℕ
bytes = 7 ∷ 254 ∷ 255 ∷ 9 ∷ []

minus_two_runs : convert_binary bytes minus_two ≡ ok (Value.int16 (negsuc 1))
unfolding convert_binary
minus_two_runs = refl

apply_byte_order_index_example :
    (length six_swapped ≡ length six)
    × (length six % 2 ≡ 0)
    × ((k : ℕ)
        → k < length six
        → get_or six_swapped k 0 ≡ get_or six (source_index ByteOrder.word_swap (length six) k) 0)
apply_byte_order_index_example = apply_byte_order_index six ByteOrder.word_swap word_swap_runs

apply_byte_order_twice_example : apply_byte_order six_swapped ByteOrder.word_swap ≡ ok six
apply_byte_order_twice_example = apply_byte_order_twice six ByteOrder.word_swap word_swap_runs

convert_binary-HasType_example : HasType DataType.int16 (Value.int16 (negsuc 1))
convert_binary-HasType_example = convert_binary-HasType bytes minus_two (omega arith) minus_two_runs

convert_binary-insufficient_example :
    (convert_binary (7 ∷ 254 ∷ []) minus_two ≡ err insufficient_data) ↔ (2 < 1 + 2)
convert_binary-insufficient_example =
    convert_binary-insufficient (7 ∷ 254 ∷ []) minus_two 1 2 refl (unfold binary_data_size in refl)

convert_binary-roundtrip_example :
    convert_binary
      (7 ∷ [] ++ (written ByteOrder.little_endian (be_bytes 2 65534) ++ 9 ∷ []))
      minus_two
    ≡ ok (Value.int16 (negsuc 1))
convert_binary-roundtrip_example =
    convert_binary-roundtrip minus_two (7 ∷ []) (9 ∷ []) 2 (Value.int16 (negsuc 1))
      (unfold binary_data_size in refl) (λ e. cc) (λ e. cc) refl refl (omega arith) (omega arith)
