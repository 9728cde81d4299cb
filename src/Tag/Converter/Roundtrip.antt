-- ===== src/Tag/Converter/Roundtrip.antt =====
-- Values written as the bytes of a device are what `ConvertBinary` (backend/internal/tag/converter.go)
-- reads. The writer is described apart from the code's loops.
use iot_edge.Prelude.{
  ℕ, ◌-◌, ◌^◌, ◌<◌, ◌≡◌, ◌≢◌, refl, subst, List, [], ◌∷◌, ◌++◌, reverse, length, pos, negsuc, ok,
  ok-injective, arith, ◌∙◌, sym,
}
use iot_edge.Value.{DataType, Value, HasType, to_signed}
use iot_edge.Value.Float.{is_finite32, is_finite64}
use iot_edge.Tag.Converter.{
  ByteOrder, BinaryConversion, reverse_loop, word_loop, byte_loop, typed_value, binary_data_size,
  convert_binary,
}
use iot_edge.Tag.Converter.Order.{arranged}
use iot_edge.Tag.Converter.Words.{be_bytes, length-be_bytes}
use iot_edge.Tag.Converter.Convert.{convert_binary-typed_value}

-- The two's complement of an integer, and the bits of a float.
abbrev pub bits_of : Value → ℕ
bits_of (Value.int16 (pos n)) = n
bits_of (Value.int16 (negsuc n)) = 65535 - n
bits_of (Value.uint16 n) = n
bits_of (Value.int32 (pos n)) = n
bits_of (Value.int32 (negsuc n)) = 4294967295 - n
bits_of (Value.uint32 n) = n
bits_of (Value.float32 b) = b
bits_of (Value.float64 b) = b
bits_of _ = 0

-- The words, the last one first.
abbrev pub words_reversed : List ℕ → List ℕ
words_reversed (a ∷ b ∷ xs) = words_reversed xs ++ a ∷ b ∷ []
words_reversed xs = xs

-- The words, the bytes of each exchanged.
abbrev pub bytes_swapped : List ℕ → List ℕ
bytes_swapped (a ∷ b ∷ xs) = b ∷ a ∷ bytes_swapped xs
bytes_swapped xs = xs

-- How a device of each order writes big-endian bytes.
abbrev pub written : ByteOrder → List ℕ → List ℕ
written ByteOrder.little_endian xs = reverse xs
written ByteOrder.word_swap xs = words_reversed xs
written ByteOrder.byte_swap xs = bytes_swapped xs
written _ xs = xs

arranged-two : (o : ByteOrder) (xs : List ℕ) → length xs ≡ 2 → arranged o xs ≡ written o xs
unfolding reverse_loop word_loop byte_loop
arranged-two ByteOrder.little_endian (a ∷ b ∷ []) two = refl
arranged-two ByteOrder.word_swap (a ∷ b ∷ []) two = refl
arranged-two ByteOrder.byte_swap (a ∷ b ∷ []) two = refl
arranged-two ByteOrder.little_endian xs two = absurd (omega arith)
arranged-two ByteOrder.word_swap xs two = absurd (omega arith)
arranged-two ByteOrder.byte_swap xs two = absurd (omega arith)
arranged-two _ xs two = refl

arranged-four : (o : ByteOrder) (xs : List ℕ) → length xs ≡ 4 → arranged o xs ≡ written o xs
unfolding reverse_loop word_loop byte_loop
arranged-four ByteOrder.little_endian (a ∷ b ∷ c ∷ d ∷ []) four = refl
arranged-four ByteOrder.word_swap (a ∷ b ∷ c ∷ d ∷ []) four = refl
arranged-four ByteOrder.byte_swap (a ∷ b ∷ c ∷ d ∷ []) four = refl
arranged-four ByteOrder.little_endian xs four = absurd (omega arith)
arranged-four ByteOrder.word_swap xs four = absurd (omega arith)
arranged-four ByteOrder.byte_swap xs four = absurd (omega arith)
arranged-four _ xs four = refl

arranged-eight : (o : ByteOrder) (xs : List ℕ) → length xs ≡ 8 → arranged o xs ≡ written o xs
unfolding reverse_loop word_loop byte_loop
arranged-eight ByteOrder.little_endian (a ∷ b ∷ c ∷ d ∷ e ∷ f ∷ g ∷ h ∷ []) eight = refl
arranged-eight ByteOrder.word_swap (a ∷ b ∷ c ∷ d ∷ e ∷ f ∷ g ∷ h ∷ []) eight = refl
arranged-eight ByteOrder.byte_swap (a ∷ b ∷ c ∷ d ∷ e ∷ f ∷ g ∷ h ∷ []) eight = refl
arranged-eight ByteOrder.little_endian xs eight = absurd (omega arith)
arranged-eight ByteOrder.word_swap xs eight = absurd (omega arith)
arranged-eight ByteOrder.byte_swap xs eight = absurd (omega arith)
arranged-eight _ xs eight = refl

-- The code's loops write the bytes of each numeric type so.
arranged-written :
    (o : ByteOrder) (t : DataType) (size : ℕ) (xs : List ℕ)
    → binary_data_size t ≡ ok size
    → t ≢ DataType.bool
    → length xs ≡ size
    → arranged o xs ≡ written o xs
unfolding binary_data_size
arranged-written o DataType.bool size xs s number whole = absurd (number refl)
arranged-written o DataType.int16 size xs s number whole =
    arranged-two o xs (whole ∙ sym (ok-injective s))
arranged-written o DataType.uint16 size xs s number whole =
    arranged-two o xs (whole ∙ sym (ok-injective s))
arranged-written o DataType.int32 size xs s number whole =
    arranged-four o xs (whole ∙ sym (ok-injective s))
arranged-written o DataType.uint32 size xs s number whole =
    arranged-four o xs (whole ∙ sym (ok-injective s))
arranged-written o DataType.float32 size xs s number whole =
    arranged-four o xs (whole ∙ sym (ok-injective s))
arranged-written o DataType.float64 size xs s number whole =
    arranged-eight o xs (whole ∙ sym (ok-injective s))
arranged-written o DataType.other size xs s number whole = cc

typed_value-bits_of :
    (t : DataType) (v : Value) → t ≢ DataType.bool → HasType t v → typed_value t (bits_of v) ≡ ok v
unfolding typed_value to_signed is_finite32 is_finite64
typed_value-bits_of DataType.bool v number h = absurd (number refl)
typed_value-bits_of DataType.int16 (Value.int16 (pos n)) number h = ground arith
typed_value-bits_of DataType.int16 (Value.int16 (negsuc n)) number h = ground arith
typed_value-bits_of DataType.uint16 (Value.uint16 n) number h = refl
typed_value-bits_of DataType.int32 (Value.int32 (pos n)) number h = ground arith
typed_value-bits_of DataType.int32 (Value.int32 (negsuc n)) number h = ground arith
typed_value-bits_of DataType.uint32 (Value.uint32 n) number h = refl
typed_value-bits_of DataType.float32 (Value.float32 b) number h = ground (arith, h)
typed_value-bits_of DataType.float64 (Value.float64 b) number h = ground (arith, h)
typed_value-bits_of _ _ number h = absurd h

-- A value of a numeric type, in its range and finite, whose bits are written big-endian and in the
-- order of a known byte order, at any place among other bytes, is what the conversion at that place
-- reads.
pub convert_binary-roundtrip :
    (c : BinaryConversion) (before after : List ℕ) (size : ℕ) (v : Value)
    → binary_data_size c.data_type ≡ ok size
    → c.data_type ≢ DataType.bool
    → c.byte_order ≢ ByteOrder.other
    → c.byte_offset ≡ pos (length before)
    → c.bit_offset ≡ 0
    → HasType c.data_type v
    → bits_of v < 256 ^ size
    → convert_binary (before ++ (written c.byte_order (be_bytes size (bits_of v)) ++ after)) c
      ≡ ok v
convert_binary-roundtrip c before after size v s number known at nobit typed lt =
    let bytes = be_bytes size (bits_of v) in
    subst (λ mid. convert_binary (before ++ (mid ++ after)) c ≡ ok v)
      (arranged-written c.byte_order c.data_type size bytes s number
        (length-be_bytes size (bits_of v)))
      (convert_binary-typed_value c before after size (bits_of v) s number known at nobit lt
        ∙ typed_value-bits_of c.data_type v number typed)
