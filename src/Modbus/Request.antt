-- ===== src/Modbus/Request.antt =====
-- backend/internal/protocol/modbus/modbus.go and tcp.go: read requests and their validation.
-- A function code, a unit, an address and a quantity are the numbers of the types uint8 and uint16.
use iot_edge.Prelude.{
  ℕ, ◌+◌, ◌%◌, ◌≤◌, ◌<◌, ◌≡◌, Bool, ◌||◌, ltb, ◌==◌, if◌then◌else◌, Result, ok, err, ◌>>=◌, ◌>>◌,
  fail_if, ◌⊎◌, ◌↔◌, arith,
}

abbrev pub function_read_coils : ℕ
function_read_coils = 1

abbrev pub function_read_discrete_inputs : ℕ
function_read_discrete_inputs = 2

abbrev pub function_read_holding_registers : ℕ
function_read_holding_registers = 3

abbrev pub function_read_input_registers : ℕ
function_read_input_registers = 4

pub record ReadRequest : Type 0 where
  pub unit_id : ℕ
  pub function_code : ℕ
  pub address : ℕ
  pub quantity : ℕ

-- The errors that wrap `ErrInvalidModbusRequest`, by their texts.
pub data RequestError : Type 0 where
  zero_quantity unsupported_function quantity_exceeds address_exceeds : RequestError

abbrev pub is_bit_function : ℕ → Bool
is_bit_function code = (code == function_read_coils) || (code == function_read_discrete_inputs)

abbrev is_register_function : ℕ → Bool
is_register_function code =
    (code == function_read_holding_registers) || (code == function_read_input_registers)

-- The `switch` over function codes.
unfoldable pub max_quantity : ℕ → Result RequestError ℕ
max_quantity code =
    if is_bit_function code
    then ok 2000
    else if is_register_function code
    then ok 125
    else err unsupported_function

-- `uint32(address) + uint32(quantity) - 1`, which wraps at zero.
unfoldable pub last_address : ReadRequest → ℕ
last_address r = (r.address + r.quantity + 4294967295) % 4294967296

unfoldable pub validate_read_request : ReadRequest → Result RequestError (Unit {0})
unfolding max_quantity last_address
validate_read_request r =
    fail_if (r.quantity == 0) zero_quantity
    >> (max_quantity r.function_code >>= λ most.
        fail_if (ltb most r.quantity) quantity_exceeds
        >> fail_if (ltb 65535 (last_address r)) address_exceeds)

-- The fields of a Go value are in the ranges of their types.
abbrev pub IsWellTyped : ReadRequest → Type 0
IsWellTyped r =
    (r.unit_id < 256) × (r.function_code < 256) × (r.address < 65536) × (r.quantity < 65536)

-- The limits of the protocol: a read of coils or discrete inputs asks for 1 to 2000 bits, a read of
-- registers for 1 to 125 registers, and all that it asks for lies in the 65536 addresses.
abbrev pub IsReadable : ReadRequest → Type 0
IsReadable r =
    (1 ≤ r.quantity)
    × (r.address + r.quantity ≤ 65536)
    × ((((r.function_code ≡ 1) ⊎ (r.function_code ≡ 2)) × (r.quantity ≤ 2000))
        ⊎ (((r.function_code ≡ 3) ⊎ (r.function_code ≡ 4)) × (r.quantity ≤ 125)))

-- A request of Go's types is accepted just when it keeps within the limits of the protocol.
pub validate_read_request-IsReadable :
    (r : ReadRequest) → IsWellTyped r → (validate_read_request r ≡ ok tt) ↔ IsReadable r
unfolding validate_read_request max_quantity last_address
validate_read_request-IsReadable r h = ground arith
