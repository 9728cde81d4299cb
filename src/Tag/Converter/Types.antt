-- ===== src/Tag/Converter/Types.antt =====
-- A window that is read gives a value of its data type.
use iot_edge.Prelude.{
  ℕ, zero, suc, ◌%◌, ◌^◌, ◌<◌, ◌≡◌, refl, ap, sym, subst, true, List, [], ◌∷◌, ltb, length, get_or,
  All, ok, inl, inr, Bool-cases, >>=-eq-ok, ok-injective, arith, ◌||◌,
}
use iot_edge.Value.{DataType, data_type_eq, Value, HasType}
use iot_edge.Value.Float.{is_nan, is_inf, is_nan32, is_inf32, is_finite32, is_finite64}
use iot_edge.Tag.Converter.{
  ByteOrder, BinaryConversion, big_endian_uint, typed_value, binary_data_size, apply_byte_order,
  convert_window,
}
use iot_edge.Tag.Converter.Order.{
  arranged, length-arranged, arranged_index, source_index, apply_byte_order-ok,
}
use iot_edge.Tag.Converter.Words.{IsByte, big_endian_uint-lt}

get_or-IsByte : (xs : List ℕ) (k : ℕ) → All IsByte xs → get_or xs k 0 < 256
get_or-IsByte [] k h = omega arith
get_or-IsByte (x ∷ xs) zero h = h.0
get_or-IsByte (x ∷ xs) (suc k) h = get_or-IsByte xs k h.1

All-IsByte : (xs : List ℕ) → ((k : ℕ) → k < length xs → get_or xs k 0 < 256) → All IsByte xs
All-IsByte [] h = tt
All-IsByte (x ∷ xs) h = (h 0 (omega arith), All-IsByte xs (λ k lt. h (suc k) (omega arith)))

arranged-IsByte :
    (o : ByteOrder) (xs : List ℕ) → length xs % 2 ≡ 0 → All IsByte xs → All IsByte (arranged o xs)
arranged-IsByte o xs even h = All-IsByte (arranged o xs) λ k lt.
    rw (arranged_index o xs k even (rw (length-arranged o xs) at lt))
      (get_or-IsByte xs (source_index o (length xs) k) h)

-- One more than the largest number that the bytes of a data type spell.
abbrev pub word_limit : DataType → ℕ
word_limit DataType.bool = 256
word_limit DataType.int16 = 65536
word_limit DataType.uint16 = 65536
word_limit DataType.float64 = 18446744073709551616
word_limit DataType.other = 0
word_limit _ = 4294967296

word_limit-size :
    (t : DataType) {size : ℕ} → binary_data_size t ≡ ok size → word_limit t ≡ 256 ^ size
unfolding binary_data_size
word_limit-size DataType.bool s = ap (λ (n : ℕ). 256 ^ n) (ok-injective s)
word_limit-size DataType.int16 s = ap (λ (n : ℕ). 256 ^ n) (ok-injective s)
word_limit-size DataType.uint16 s = ap (λ (n : ℕ). 256 ^ n) (ok-injective s)
word_limit-size DataType.int32 s = ap (λ (n : ℕ). 256 ^ n) (ok-injective s)
word_limit-size DataType.uint32 s = ap (λ (n : ℕ). 256 ^ n) (ok-injective s)
word_limit-size DataType.float32 s = ap (λ (n : ℕ). 256 ^ n) (ok-injective s)
word_limit-size DataType.float64 s = ap (λ (n : ℕ). 256 ^ n) (ok-injective s)
word_limit-size DataType.other s = cc

typed_value-HasType :
    (t : DataType) (u : ℕ) {v : Value} → u < word_limit t → typed_value t u ≡ ok v → HasType t v
unfolding typed_value is_finite32 is_finite64
typed_value-HasType DataType.bool u lt h = cc
typed_value-HasType DataType.int16 u lt h =
    subst (HasType DataType.int16) (ok-injective h) (ground arith)
typed_value-HasType DataType.uint16 u lt h = subst (HasType DataType.uint16) (ok-injective h) lt
typed_value-HasType DataType.int32 u lt h =
    subst (HasType DataType.int32) (ok-injective h) (ground arith)
typed_value-HasType DataType.uint32 u lt h = subst (HasType DataType.uint32) (ok-injective h) lt
typed_value-HasType DataType.float32 u lt h = elim (Bool-cases (is_nan32 u || is_inf32 u)) [
  | inl bad ↦ cc (rw bad at h)
  | inr good ↦ subst (HasType DataType.float32) (ok-injective (rw good at h)) (ground arith)
]
typed_value-HasType DataType.float64 u lt h = elim (Bool-cases (is_nan u || is_inf u)) [
  | inl bad ↦ cc (rw bad at h)
  | inr good ↦ subst (HasType DataType.float64) (ok-injective (rw good at h)) (ground arith)
]
typed_value-HasType DataType.other u lt h = cc

pub eq_bool : (t : DataType) → data_type_eq t DataType.bool ≡ true → t ≡ DataType.bool
unfolding data_type_eq
eq_bool DataType.bool h = refl
eq_bool _ h = cc

pub window_HasType :
    (c : BinaryConversion) (window : List ℕ) {v : Value}
    → binary_data_size c.data_type ≡ ok (length window)
    → All IsByte window
    → convert_window c window ≡ ok v
    → HasType c.data_type v
unfolding convert_window
window_HasType c window {v} s bytes h = elim (Bool-cases (data_type_eq c.data_type DataType.bool)) [
  | inl boolean ↦
      subst (λ t. HasType t v) (sym (eq_bool c.data_type boolean))
        (elim (Bool-cases (ltb 7 c.bit_offset)) [
          | inl beyond ↦ cc (rw (boolean, beyond) at h)
          | inr fits ↦ subst (HasType DataType.bool) (ok-injective (rw (boolean, fits) at h)) tt
        ])
  | inr number ↦
      let (ordered, e, typed) =
        >>=-eq-ok (apply_byte_order window c.byte_order) _ (rw number at h) in
      let (even, known, arranged_eq) = apply_byte_order-ok window c.byte_order e in
      typed_value-HasType c.data_type (big_endian_uint ordered)
        (rw (word_limit-size c.data_type s, arranged_eq, ← length-arranged c.byte_order window)
          (big_endian_uint-lt (arranged c.byte_order window)
            (arranged-IsByte c.byte_order window even bytes)))
        typed
]
