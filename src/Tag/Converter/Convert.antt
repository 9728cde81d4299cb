-- ===== src/Tag/Converter/Convert.antt =====
-- What `ConvertBinary` returns: a value of the data type, the number that was encoded, or the error
-- that the window calls for.
use iot_edge.Prelude.{
  ℤ, ℕ, ◌+◌, ◌%◌, ◌^◌, ◌≤◌, ◌<◌, ◌≡◌, refl, ◌∙◌, ap, sym, subst, false, List, ◌++◌, pos, negsuc,
  length, take, drop, All, All-take, All-drop, length-take, length-drop, take-length_append,
  drop-length_append, length-append, ok, err, ◌≢◌, ◌↔◌, >>=-eq-ok, ok-injective, arith,
}
use iot_edge.Value.{DataType, data_type_eq, Value, HasType}
use iot_edge.Tag.Converter.{
  ByteOrder, BinaryConversion, insufficient_data, big_endian_uint, typed_value, binary_data_size,
  apply_byte_order, convert_window, convert_at, convert_from, convert_binary,
}
use iot_edge.Tag.Converter.Order.{arranged, length-arranged, arranged_twice, apply_byte_order-eq_ok}
use iot_edge.Tag.Converter.Words.{IsByte, be_bytes, length-be_bytes, big_endian_uint-be_bytes}
use iot_edge.Tag.Converter.Types.{window_HasType}

convert_at-window :
    (raw : List ℕ) (c : BinaryConversion) (offset : ℕ) {v : Value}
    → convert_at raw c offset ≡ ok v
    → (size : ℕ) × (binary_data_size c.data_type ≡ ok size)
      × (offset + size ≤ length raw)
      × (convert_window c (take size (drop offset raw)) ≡ ok v)
unfolding convert_at
convert_at-window raw c offset h =
    let (size, s, rest) = >>=-eq-ok (binary_data_size c.data_type) _ h in
    (size, s, ground arith, ground arith)

convert_from-window :
    (raw : List ℕ) (c : BinaryConversion) (z : ℤ) {v : Value}
    → convert_from raw c z ≡ ok v
    → (offset size : ℕ) × (z ≡ pos offset)
      × (binary_data_size c.data_type ≡ ok size)
      × (offset + size ≤ length raw)
      × (convert_window c (take size (drop offset raw)) ≡ ok v)
unfolding convert_from
convert_from-window raw c (pos offset) h =
    let (size, s, fits, w) = convert_at-window raw c offset h in (offset, size, refl, s, fits, w)
convert_from-window raw c (negsuc n) h = cc

apply_byte_order-ne-insufficient :
    (window : List ℕ) (o : ByteOrder) → apply_byte_order window o ≢ err insufficient_data
unfolding apply_byte_order
apply_byte_order-ne-insufficient window ByteOrder.other h = ground arith
apply_byte_order-ne-insufficient window _ h = ground arith

typed_value-ne-insufficient : (t : DataType) (u : ℕ) → typed_value t u ≢ err insufficient_data
unfolding typed_value
typed_value-ne-insufficient DataType.bool u h = ground arith
typed_value-ne-insufficient _ u h = ground arith

convert_window-ne-insufficient :
    (c : BinaryConversion) (window : List ℕ) → convert_window c window ≢ err insufficient_data
unfolding convert_window
convert_window-ne-insufficient c window h = ground (
  arith,
  apply_byte_order-ne-insufficient window c.byte_order,
  λ (xs : List ℕ). typed_value-ne-insufficient c.data_type (big_endian_uint xs),
)

convert_at-insufficient :
    (raw : List ℕ) (c : BinaryConversion) (offset size : ℕ)
    → binary_data_size c.data_type ≡ ok size
    → (convert_at raw c offset ≡ err insufficient_data) ↔ (length raw < offset + size)
unfolding convert_at
convert_at-insufficient raw c offset size s =
    rw s
      (ground (arith, convert_window-ne-insufficient c (take size (drop offset raw))), ground arith)

-- What a successful conversion has passed: the offset is not negative, and the window lies within
-- the bytes.
pub convert_binary-window :
    (raw : List ℕ) (c : BinaryConversion) {v : Value}
    → convert_binary raw c ≡ ok v
    → (offset size : ℕ) × (c.byte_offset ≡ pos offset)
      × (binary_data_size c.data_type ≡ ok size)
      × (offset + size ≤ length raw)
      × (convert_window c (take size (drop offset raw)) ≡ ok v)
unfolding convert_binary
convert_binary-window raw c h = convert_from-window raw c c.byte_offset h

-- The window is too short just when the data type's size reaches beyond the bytes.
pub convert_binary-insufficient :
    (raw : List ℕ) (c : BinaryConversion) (offset size : ℕ)
    → c.byte_offset ≡ pos offset
    → binary_data_size c.data_type ≡ ok size
    → (convert_binary raw c ≡ err insufficient_data) ↔ (length raw < offset + size)
unfolding convert_binary
convert_binary-insufficient raw c offset size at s =
    rw at (convert_at-insufficient raw c offset size s)

-- A successful conversion of bytes returns a value of the Go type that the data type names, in that
-- type's range, and no number that is infinite or not a number.
pub convert_binary-HasType :
    (raw : List ℕ) (c : BinaryConversion) {v : Value}
    → All IsByte raw
    → convert_binary raw c ≡ ok v
    → HasType c.data_type v
convert_binary-HasType raw c bytes h =
    let (offset, size, at, s, fits, w) = convert_binary-window raw c h in
    let whole : length (take size (drop offset raw)) ≡ size =
      omega (arith, length-take size (drop offset raw), length-drop offset raw) in
    window_HasType c (take size (drop offset raw)) (rw whole s)
      (All-take IsByte size (drop offset raw) (All-drop IsByte offset raw bytes)) w

convert_at-passes :
    (raw : List ℕ) (c : BinaryConversion) (offset size : ℕ)
    → binary_data_size c.data_type ≡ ok size
    → offset + size ≤ length raw
    → c.bit_offset ≡ 0
    → convert_at raw c offset ≡ convert_window c (take size (drop offset raw))
unfolding convert_at
convert_at-passes raw c offset size s fits nobit = ground arith

window_between :
    (before after mid : List ℕ) (size : ℕ)
    → length mid ≡ size
    → take size (drop (length before) (before ++ (mid ++ after))) ≡ mid
window_between before after mid size e =
    rw (← e, drop-length_append before (mid ++ after)) (take-length_append mid after)

pub even_size :
    (t : DataType) {size : ℕ} → binary_data_size t ≡ ok size → t ≢ DataType.bool → size % 2 ≡ 0
unfolding binary_data_size
even_size DataType.bool s number = absurd (number refl)
even_size DataType.other s number = cc
even_size _ s number = rw (← ok-injective s) refl

pub data_type_eq-ne : (t : DataType) → t ≢ DataType.bool → data_type_eq t DataType.bool ≡ false
unfolding data_type_eq
data_type_eq-ne DataType.bool h = absurd (h refl)
data_type_eq-ne _ h = refl

convert_window-arranged :
    (c : BinaryConversion) (size u : ℕ)
    → binary_data_size c.data_type ≡ ok size
    → c.data_type ≢ DataType.bool
    → c.byte_order ≢ ByteOrder.other
    → u < 256 ^ size
    → convert_window c (arranged c.byte_order (be_bytes size u)) ≡ typed_value c.data_type u
unfolding convert_window
convert_window-arranged c size u s number known lt =
    let o = c.byte_order in
    let even = even_size c.data_type s number in
    let whole : length (be_bytes size u) % 2 ≡ 0 = rw (length-be_bytes size u) even in
    rw (data_type_eq-ne c.data_type number) (
      rw
        (apply_byte_order-eq_ok (arranged o (be_bytes size u)) o
          (rw (length-arranged o (be_bytes size u)) whole) known)
        (rw (arranged_twice o (be_bytes size u) whole)
          (rw (big_endian_uint-be_bytes size u lt) refl)))

-- A number arranged in any byte order, at any place among other bytes, is read: the conversion
-- at that place, of that order and of a numeric type as wide, gives the typed number.
pub convert_binary-typed_value :
    (c : BinaryConversion) (before after : List ℕ) (size u : ℕ)
    → binary_data_size c.data_type ≡ ok size
    → c.data_type ≢ DataType.bool
    → c.byte_order ≢ ByteOrder.other
    → c.byte_offset ≡ pos (length before)
    → c.bit_offset ≡ 0
    → u < 256 ^ size
    → convert_binary (before ++ (arranged c.byte_order (be_bytes size u) ++ after)) c
      ≡ typed_value c.data_type u
unfolding convert_binary
convert_binary-typed_value c before after size u s number known at nobit lt =
    let mid = arranged c.byte_order (be_bytes size u) in
    subst (λ z. convert_from (before ++ (mid ++ after)) c z ≡ typed_value c.data_type u) (sym at)
      (convert_at-passes (before ++ (mid ++ after)) c (length before) size s
          (omega (
            arith,
            length-append before (mid ++ after),
            length-append mid after,
            length-arranged c.byte_order (be_bytes size u),
            length-be_bytes size u,
          ))
          nobit
        ∙ ap (convert_window c) (
            window_between before after mid size
              (length-arranged c.byte_order (be_bytes size u) ∙ length-be_bytes size u))
        ∙ convert_window-arranged c size u s number known lt)
