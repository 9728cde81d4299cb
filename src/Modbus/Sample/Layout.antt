-- ===== src/Modbus/Sample/Layout.antt =====
-- What a reading's bits and registers are: the layout of the protocol.
use iot_edge.Prelude.{
  ℕ, zero, suc, ◌+◌, ◌*◌, ◌/◌, ◌%◌, ◌^◌, ◌≤◌, ◌<◌, ◌≡◌, refl, ap, true, false, none, some, List, [],
  ◌∷◌, get_elem?, get_or, length, All, ltb, leb, Result, ok, err, ◌↔◌, ◌⊎◌, inl, inr, arith,
  Bool-cases, ltb→lt, if◌then◌else◌,
}
use iot_edge.Tag.Converter.{bit_test}
use iot_edge.Tag.Converter.Words.{IsByte, bit_test_digit}
use iot_edge.Modbus.Request.{ReadRequest, is_bit_function}
use iot_edge.Modbus.Sample.{
  Bit, Register, SampleData, bits, registers, FormatError, short_bit_response,
  short_register_response, byte_at, format_bits, format_registers, format_modbus_data,
}

get_elem?-get_or : (xs : List ℕ) (i : ℕ) → i < length xs → get_elem? xs i ≡ some (get_or xs i 0)
get_elem?-get_or [] i h = absurd (omega arith)
get_elem?-get_or (x ∷ xs) zero h = refl
get_elem?-get_or (x ∷ xs) (suc i) h = get_elem?-get_or xs i (omega arith)

All-get_or : (xs : List ℕ) (i : ℕ) → All IsByte xs → get_or xs i 0 < 256
All-get_or [] i h = omega arith
All-get_or (x ∷ xs) zero h = h.0
All-get_or (x ∷ xs) (suc i) h = All-get_or xs i h.1

byte_at-get_or : (raw : List ℕ) (i : ℕ) → i < length raw → byte_at raw i ≡ ok (get_or raw i 0)
byte_at-get_or raw i h =
    ap (λ o. elim o [ none ↦ err FormatError.index_panic | some byte ↦ ok byte ])
      (get_elem?-get_or raw i h)

-- The bits of the addresses from `address + offset` on: bit k is the binary digit k % 8 of byte k / 8.
abbrev pub AreBits : ℕ → List ℕ → ℕ → List Bit → Type 0
AreBits address raw offset [] = Unit {0}
AreBits address raw offset (b ∷ list) =
    (b.address ≡ address + offset)
    × ((b.value ≡ true) ↔ ((get_or raw (offset / 8) 0 / 2 ^ (offset % 8)) % 2 ≡ 1))
    × AreBits address raw (offset + 1) list

-- The registers from `address + offset` on: register k has bytes 2 k and 2 k + 1, the high byte first.
abbrev pub AreRegisters : ℕ → List ℕ → ℕ → List Register → Type 0
AreRegisters address raw offset [] = Unit {0}
AreRegisters address raw offset (w ∷ list) =
    (w.address ≡ address + offset)
    × (w.value ≡ get_or raw (offset * 2) 0 * 256 + get_or raw (offset * 2 + 1) 0)
    × (w.value < 65536)
    × AreRegisters address raw (offset + 1) list

format_bits-AreBits :
    (r : ReadRequest) (raw : List ℕ) (left offset : ℕ)
    → All IsByte raw
    → (offset + left + 7) / 8 ≤ length raw
    → (list : List Bit) × (format_bits r raw left offset ≡ ok list)
      × (length list ≡ left)
      × AreBits r.address raw offset list
unfolding format_bits
format_bits-AreBits r raw zero offset bytes h = ([], refl, refl, tt)
format_bits-AreBits r raw (suc left) offset bytes h =
    let (list, formatted, many, are) =
      format_bits-AreBits r raw left (offset + 1) bytes (omega arith) in
    let digit =
      bit_test_digit (get_or raw (offset / 8) 0) (offset % 8) (All-get_or raw (offset / 8) bytes)
        (omega arith) in
    (
      record {
        address = r.address + offset;
        value = bit_test (get_or raw (offset / 8) 0) (offset % 8);
      }
          ∷ list,
      rw (byte_at-get_or raw (offset / 8) (omega arith), formatted),
      ap suc many,
      (refl, digit, are),
    )

format_registers-AreRegisters :
    (r : ReadRequest) (raw : List ℕ) (left offset : ℕ)
    → All IsByte raw
    → (offset + left) * 2 ≤ length raw
    → (list : List Register) × (format_registers r raw left offset ≡ ok list)
      × (length list ≡ left)
      × AreRegisters r.address raw offset list
unfolding format_registers
format_registers-AreRegisters r raw zero offset bytes h = ([], refl, refl, tt)
format_registers-AreRegisters r raw (suc left) offset bytes h =
    let (list, formatted, many, are) =
      format_registers-AreRegisters r raw left (offset + 1) bytes (omega arith) in
    let high = All-get_or raw (offset * 2) bytes in
    let low = All-get_or raw (offset * 2 + 1) bytes in
    let long : leb (length raw) (offset * 2 + 1) ≡ false = ground arith in
    (
      record {
        address = r.address + offset;
        value = get_or raw (offset * 2) 0 * 256 + get_or raw (offset * 2 + 1) 0;
      }
          ∷ list,
      rw (
        long,
        byte_at-get_or raw (offset * 2) (omega arith),
        byte_at-get_or raw (offset * 2 + 1) (omega arith),
        formatted,
      ),
      ap suc many,
      (refl, refl, omega arith, are),
    )

format_registers-short :
    (r : ReadRequest) (raw : List ℕ) (left offset : ℕ)
    → length raw < (offset + left) * 2
    → (1 ≤ left)
    → format_registers r raw left offset ≡ err short_register_response
unfolding format_registers
format_registers-short r raw zero offset h k = absurd (omega arith)
format_registers-short r raw (suc left) offset h k =
    elim (Bool-cases (leb (length raw) (offset * 2 + 1))) [
      | inl short ↦ rw short
      | inr long ↦
          let enough : offset * 2 + 1 < length raw = ground (arith, long) in
          rw (
            long,
            byte_at-get_or raw (offset * 2) (omega arith),
            byte_at-get_or raw (offset * 2 + 1) (omega arith),
            format_registers-short r raw left (offset + 1) (omega arith) (omega arith),
          )
    ]

-- The bytes that a reading needs.
abbrev pub required_bytes : ReadRequest → ℕ
required_bytes r = if is_bit_function r.function_code then (r.quantity + 7) / 8 else r.quantity * 2

abbrev pub IsLaidOut : ReadRequest → List ℕ → SampleData → Type 0
IsLaidOut r raw (bits list) =
    (is_bit_function r.function_code ≡ true)
    × (length list ≡ r.quantity)
    × AreBits r.address raw 0 list
IsLaidOut r raw (registers list) =
    (is_bit_function r.function_code ≡ false)
    × (length list ≡ r.quantity)
    × AreRegisters r.address raw 0 list

-- A result is right for the bytes: they are too short and it says so, or it is their layout.
abbrev pub IsFormatted : ReadRequest → List ℕ → Result FormatError SampleData → Type 0
IsFormatted r raw result =
    ((length raw < required_bytes r)
      × ((result ≡ err short_bit_response) ⊎ (result ≡ err short_register_response)))
    ⊎ ((required_bytes r ≤ length raw)
        × ((data_ : SampleData) × (result ≡ ok data_) × IsLaidOut r raw data_))

format_bit_data :
    (r : ReadRequest) (raw : List ℕ)
    → All IsByte raw
    → is_bit_function r.function_code ≡ true
    → IsFormatted r raw (format_modbus_data r raw)
unfolding format_modbus_data
format_bit_data r raw bytes is_bit =
    let need : required_bytes r ≡ (r.quantity + 7) / 8 = rw is_bit in
    elim (Bool-cases (ltb (length raw) ((r.quantity + 7) / 8))) [
      | inl short ↦ inl (omega (arith, need, ltb→lt (length raw) _ short), inl (rw (is_bit, short)))
      | inr enough ↦
          let fits : (0 + r.quantity + 7) / 8 ≤ length raw = ground (arith, enough) in
          let (list, formatted, many, are) = format_bits-AreBits r raw r.quantity 0 bytes fits in
          inr (
            omega (arith, need, fits),
            (bits list, rw (is_bit, enough, formatted), (is_bit, many, are)),
          )
    ]

format_register_data :
    (r : ReadRequest) (raw : List ℕ)
    → All IsByte raw
    → 1 ≤ r.quantity
    → is_bit_function r.function_code ≡ false
    → IsFormatted r raw (format_modbus_data r raw)
unfolding format_modbus_data
format_register_data r raw bytes some_ is_word =
    let need : required_bytes r ≡ r.quantity * 2 = rw is_word in
    elim (Bool-cases (ltb (length raw) (r.quantity * 2))) [
      | inl short ↦
          let lt = ltb→lt (length raw) (r.quantity * 2) short in
          inl (
            omega (arith, need, lt),
            inr (rw (is_word, format_registers-short r raw r.quantity 0 (omega (arith, lt)) some_)),
          )
      | inr enough ↦
          let fits : (0 + r.quantity) * 2 ≤ length raw = ground (arith, enough) in
          let (list, formatted, many, are) =
            format_registers-AreRegisters r raw r.quantity 0 bytes fits in
          inr (
            omega (arith, need, fits),
            (registers list, rw (is_word, formatted), (is_word, many, are)),
          )
    ]

-- Formatting the bytes of a reading never reads outside them: they are too short just when the
-- quantity needs more bytes, and else each address has its bit, or its register.
pub format_modbus_data-IsFormatted :
    (r : ReadRequest) (raw : List ℕ)
    → All IsByte raw
    → 1 ≤ r.quantity
    → IsFormatted r raw (format_modbus_data r raw)
format_modbus_data-IsFormatted r raw bytes some_ =
    elim (Bool-cases (is_bit_function r.function_code)) [
      | inl is_bit ↦ format_bit_data r raw bytes is_bit
      | inr is_word ↦ format_register_data r raw bytes some_ is_word
    ]
