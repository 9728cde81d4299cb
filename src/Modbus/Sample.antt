-- ===== src/Modbus/Sample.antt =====
-- backend/internal/protocol/modbus/driver.go: the data of a reading, bit by bit or register by
-- register. JSON texts are left out; a register's hexadecimal text is printed from its value.
pub mod Layout
use iot_edge.Prelude.{
  ℕ, zero, suc, ◌+◌, ◌*◌, ◌/◌, ◌%◌, ◌^◌, Bool, true, false, not, Option, none, some, List, [], ◌∷◌,
  get_elem?, length, ltb, leb, ◌==◌, if◌then◌else◌, Result, ok, err, ◌>>=◌, ◌>>◌, fail_if,
}
use iot_edge.Tag.Converter.{bit_test}
use iot_edge.Modbus.Request.{ReadRequest, is_bit_function}

pub record Bit : Type 0 where
  pub address : ℕ
  pub value : Bool

pub record Register : Type 0 where
  pub address : ℕ
  pub value : ℕ

pub data SampleData : Type 0 where
  bits : List Bit → SampleData
  registers : List Register → SampleData

-- `index_panic` stands for an index out of range.
pub data FormatError : Type 0 where
  short_bit_response short_register_response index_panic : FormatError

-- `raw[index]`
abbrev pub byte_at : List ℕ → ℕ → Result FormatError ℕ
byte_at raw index = elim (get_elem? raw index) [ none ↦ err index_panic | some byte ↦ ok byte ]

-- The loop over bits, of which `left` are left.
unfoldable pub format_bits :
    ReadRequest → List ℕ → (left offset : ℕ) → Result FormatError (List Bit)
unfolding bit_test
format_bits r raw zero offset = ok []
format_bits r raw (suc left) offset = byte_at raw (offset / 8) >>= λ byte.
    format_bits r raw left (offset + 1) >>= λ rest.
    ok (record { address = r.address + offset; value = bit_test byte (offset % 8) } ∷ rest)

-- The loop over registers; the shifted high byte and the low byte share no bit.
unfoldable pub format_registers :
    ReadRequest → List ℕ → (left offset : ℕ) → Result FormatError (List Register)
format_registers r raw zero offset = ok []
format_registers r raw (suc left) offset =
    fail_if (leb (length raw) (offset * 2 + 1)) short_register_response
    >> (byte_at raw (offset * 2) >>= λ high. byte_at raw (offset * 2 + 1) >>= λ low.
        format_registers r raw left (offset + 1) >>= λ rest.
        ok (record { address = r.address + offset; value = high * 256 + low } ∷ rest))

unfoldable pub format_modbus_data : ReadRequest → List ℕ → Result FormatError SampleData
unfolding format_bits format_registers
format_modbus_data r raw =
    if is_bit_function r.function_code
    then (fail_if (ltb (length raw) ((r.quantity + 7) / 8)) short_bit_response
        >> (format_bits r raw r.quantity 0 >>= λ list. ok (bits list)))
    else (format_registers r raw r.quantity 0 >>= λ list. ok (registers list))
