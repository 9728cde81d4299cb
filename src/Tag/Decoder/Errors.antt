-- ===== src/Tag/Decoder/Errors.antt =====
-- A normalised configuration is stable, and leaves a decoding only the faults of its sample.
use iot_edge.Prelude.{
  ℕ, ◌+◌, ◌≡◌, refl, ap, true, false, not, List, ltb, ◌==◌, ℤ, pos, negsuc, if◌then◌else◌, Result,
  ok, err, ◌⊎◌, inl, inr, arith, >>=-eq-ok, Bool-cases, ◌≢◌, length, take, drop, length-take,
  length-drop, subst, sym, dec_lt, ◌∙◌,
}
use iot_edge.Value.{DataType, data_type_eq, Value}
use iot_edge.Tag.Converter.{
  ConvertError, insufficient_data, non_finite, ByteOrder, BinaryConversion, binary_data_size,
  typed_value, big_endian_uint, convert_window, convert_at, convert_from, convert_binary,
}
use iot_edge.Tag.Converter.Order.{arranged, apply_byte_order-eq_ok}
use iot_edge.Tag.Converter.Convert.{even_size}
use iot_edge.Tag.Decoder.{
  DecodeError, conversion, RawConfig, Config, is_negative, valid_byte_order, check_size,
  check_config, normalize_config, canonical, lift, conversion_of, decode, decode_strict,
}

check_config-ok :
    (t : DataType) (c : Config) {d : Config}
    → check_config t c ≡ ok d
    → (d ≡ c)
      × (is_negative c.byte_offset ≡ false)
      × (valid_byte_order c.byte_order ≡ true)
      × ((if data_type_eq t DataType.bool then ltb 7 c.bit_offset else not (c.bit_offset == 0))
          ≡ false)
unfolding check_config
check_config-ok t c h = ground arith

check_config_again :
    (t : DataType) (c : Config) {d : Config} → check_config t c ≡ ok d → check_config t d ≡ ok d
check_config_again t c h =
    let e = (check_config-ok t c h).0 in subst (λ x. check_config t x ≡ ok x) (sym e) (rw e at h)

normalize_config-checks :
    (t : DataType) (raw : RawConfig) {c : Config}
    → normalize_config t raw ≡ ok c
    → (check_size t ≡ ok tt) × (check_config t c ≡ ok c)
unfolding normalize_config
normalize_config-checks t raw h =
    let (_, size, rest) = >>=-eq-ok (check_size t) _ h in
    let (input, decoded, checked) = >>=-eq-ok (decode_strict raw) _ rest in
    (size, check_config_again t _ checked)

-- Normalising is idempotent: the canonical form of an accepted configuration is accepted, and
-- stands for the same configuration.
pub normalize_config_idem :
    (t : DataType) (raw : RawConfig) {c : Config}
    → normalize_config t raw ≡ ok c
    → normalize_config t (canonical c) ≡ ok c
normalize_config_idem t raw {c} h =
    let (size, checked) = normalize_config-checks t raw h in
    unfold normalize_config in rw size checked

-- The errors for which the sample is to blame, and not the configuration.
abbrev pub IsSampleFault : ConvertError → Type 0
IsSampleFault e = (e ≡ insufficient_data) ⊎ (e ≡ non_finite)

check_size-known :
    (t : DataType) → check_size t ≡ ok tt → (size : ℕ) × (binary_data_size t ≡ ok size)
unfolding check_size
check_size-known DataType.other h = cc
check_size-known _ h = (_, refl)

valid_byte_order-known : (o : ByteOrder) → valid_byte_order o ≡ true → o ≢ ByteOrder.other
unfolding valid_byte_order
valid_byte_order-known ByteOrder.other h e = cc
valid_byte_order-known _ h e = cc

typed_value-fault :
    (t : DataType) (u size : ℕ) {e : ConvertError}
    → binary_data_size t ≡ ok size
    → t ≢ DataType.bool
    → typed_value t u ≡ err e
    → e ≡ non_finite
unfolding typed_value binary_data_size
typed_value-fault DataType.bool u size s number h = absurd (number refl)
typed_value-fault DataType.other u size s number h = cc
typed_value-fault _ u size s number h = ground arith

window-fault :
    (c : BinaryConversion) (window : List ℕ) {e : ConvertError}
    → binary_data_size c.data_type ≡ ok (length window)
    → c.byte_order ≢ ByteOrder.other
    → (if data_type_eq c.data_type DataType.bool
        then ltb 7 c.bit_offset
        else not (c.bit_offset == 0))
      ≡ false
    → convert_window c window ≡ err e
    → IsSampleFault e
unfolding convert_window
window-fault c window s known bit h = elim (Bool-cases (data_type_eq c.data_type DataType.bool)) [
  | inl boolean ↦ ground arith
  | inr number ↦
      let not_bool : c.data_type ≢ DataType.bool =
        λ e. cc (ap (λ t. data_type_eq t DataType.bool) e) in
      inr (
        typed_value-fault c.data_type (big_endian_uint (arranged c.byte_order window))
          (length window) s not_bool
          (rw (apply_byte_order-eq_ok window c.byte_order (even_size c.data_type s not_bool) known)
            at (rw number at h)))
]

convert_at-fault :
    (raw : List ℕ) (c : BinaryConversion) (offset size : ℕ) {e : ConvertError}
    → binary_data_size c.data_type ≡ ok size
    → c.byte_order ≢ ByteOrder.other
    → (if data_type_eq c.data_type DataType.bool
        then ltb 7 c.bit_offset
        else not (c.bit_offset == 0))
      ≡ false
    → convert_at raw c offset ≡ err e
    → IsSampleFault e
unfolding convert_at
convert_at-fault raw c offset size s known bit h = elim (dec_lt (length raw) (offset + size)) [
  | yes short ↦ ground arith
  | no fits ↦
      window-fault c (take size (drop offset raw))
        (s ∙ ap ok (omega (arith, length-take size (drop offset raw), length-drop offset raw)))
        known bit (ground arith)
]

convert_from-fault :
    (raw : List ℕ) (c : BinaryConversion) (z : ℤ) (size : ℕ) {e : ConvertError}
    → is_negative z ≡ false
    → binary_data_size c.data_type ≡ ok size
    → c.byte_order ≢ ByteOrder.other
    → (if data_type_eq c.data_type DataType.bool
        then ltb 7 c.bit_offset
        else not (c.bit_offset == 0))
      ≡ false
    → convert_from raw c z ≡ err e
    → IsSampleFault e
unfolding convert_from
convert_from-fault raw c (pos offset) size n s known bit h =
    convert_at-fault raw c offset size s known bit h
convert_from-fault raw c (negsuc k) size n s known bit h = cc

convert_binary-fault :
    (raw : List ℕ) (c : BinaryConversion) (size : ℕ) {e : ConvertError}
    → is_negative c.byte_offset ≡ false
    → binary_data_size c.data_type ≡ ok size
    → c.byte_order ≢ ByteOrder.other
    → (if data_type_eq c.data_type DataType.bool
        then ltb 7 c.bit_offset
        else not (c.bit_offset == 0))
      ≡ false
    → convert_binary raw c ≡ err e
    → IsSampleFault e
unfolding convert_binary
convert_binary-fault raw c size n s known bit h =
    convert_from-fault raw c c.byte_offset size n s known bit h

lift-ok : (r : Result ConvertError Value) {v : Value} → lift r ≡ ok v → r ≡ ok v
unfolding lift
lift-ok (ok v) h = cc
lift-ok (err e) h = cc

lift-err :
    (r : Result ConvertError Value) {e : DecodeError}
    → lift r ≡ err e
    → (x : ConvertError) × (r ≡ err x) × (e ≡ conversion x)
unfolding lift
lift-err (ok v) h = cc
lift-err (err x) h = (x, refl, cc)

decode_from :
    {e : DecodeError} {x : ConvertError}
    → e ≡ conversion x
    → IsSampleFault x
    → (e ≡ conversion insufficient_data) ⊎ (e ≡ conversion non_finite)
decode_from eq (inl short) = inl (eq ∙ ap conversion short)
decode_from eq (inr odd) = inr (eq ∙ ap conversion odd)

-- With a configuration that was accepted, a decoding fails only because the sample is too short or
-- spells a number that is not finite.
pub decode-fault :
    (bytes : List ℕ) (t : DataType) (raw : RawConfig) {c : Config} {e : DecodeError}
    → normalize_config t raw ≡ ok c
    → decode bytes t raw ≡ err e
    → (e ≡ conversion insufficient_data) ⊎ (e ≡ conversion non_finite)
unfolding decode
decode-fault bytes t raw {c} accepted h =
    let (known, checked) = normalize_config-checks t raw accepted in
    let (size, s) = check_size-known t known in
    let (_, sign, order, bit) = check_config-ok t c checked in
    let (x, failed, eq) = lift-err (convert_binary bytes (conversion_of t c)) (rw accepted at h) in
    decode_from eq (
      convert_binary-fault bytes (conversion_of t c) size sign s
        (valid_byte_order-known c.byte_order order) bit failed)
