-- ===== src/Modbus/Client.antt =====
-- backend/internal/protocol/modbus/tcp.go: the Modbus TCP client, a connection that is opened, read
-- from and closed under one lock, so each operation is one step on the client's state. The state of
-- the transport, its packets and its faults are parameters.
pub mod Session
pub mod Extraction
pub mod Outcome
use iot_edge.Prelude.{
  ℕ, zero, suc, ◌+◌, ◌*◌, ◌/◌, ◌%◌, ◌≡◌, Bool, true, false, ◌||◌, Option, none, some, List, [], ◌∷◌,
  ◌++◌, ltb, ◌==◌, if◌then◌else◌, ℤ, pos, pos_part, Result, ok, err, ◌>>=◌, ◌>>◌, fail_if,
}
use iot_edge.Value.Text.{Text, is_empty, trim_space}
use iot_edge.Modbus.Request.{
  RequestError, ReadRequest, validate_read_request, function_read_coils,
  function_read_discrete_inputs, function_read_holding_registers, function_read_input_registers,
}
use iot_edge.Modbus.Config.{GatewayConfig, outside}

-- The dynamic type of a response, of which each may be a nil pointer, and its data.
pub data Response : Type 0 where
  nil other : Response
  coils discrete_inputs holding_registers input_registers : Option (List ℕ) → Response

-- What the client calls of go-modbus-client. A request runs until the client's timeout in
-- nanoseconds at most; a fault is what such a call reports.
pub record Transport (Fault Packet State : Type 0) : Type 0 where
  pub new_client : ℕ → Bool → State
  pub new_read_coils : ℕ → ℕ → ℕ → Result Fault Packet
  pub new_read_discrete_inputs : ℕ → ℕ → ℕ → Result Fault Packet
  pub new_read_holding_registers : ℕ → ℕ → ℕ → Result Fault Packet
  pub new_read_input_registers : ℕ → ℕ → ℕ → Result Fault Packet
  pub connect : ℕ → Text → State → Option Fault × State
  pub close : State → Option Fault × State
  pub do_request : ℕ → Packet → State → Result Fault Response × State

pub data ClientError (Fault : Type 0) : Type 0 where
  invalid_config not_connected unexpected_response unsupported_function : ClientError Fault
  invalid_request : RequestError → ClientError Fault
  connect_failed disconnect_failed build_failed read_failed : Fault → ClientError Fault

pub record Client (State : Type 0) : Type 0 where
  pub address : Text
  pub timeout : ℕ
  pub connected : Bool
  pub transport : State

-- `strconv.Itoa` of a number below 10 ^ fuel.
abbrev pub digits : (fuel : ℕ) → ℕ → Text
digits zero n = []
digits (suc fuel) n = if ltb n 10 then (48 + n) ∷ [] else digits fuel (n / 10) ++ (48 + n % 10) ∷ []

abbrev contains : ℕ → Text → Bool
contains c [] = false
contains c (x ∷ s) = (x == c) || contains c s

-- `net.JoinHostPort`, which puts brackets around a host with a colon or a percent sign.
abbrev pub join_host_port : Text → Text → Text
join_host_port host port =
    if contains 58 host || contains 37 host then 91 ∷ host ++ 93 ∷ 58 ∷ port else host ++ 58 ∷ port

abbrev pub is_nil : Response → Bool
is_nil Response.nil = true
is_nil _ = false

-- The type assertions on a response, which give no data of another type or of a nil pointer.
abbrev pub as_coils : Response → Option (List ℕ)
as_coils (Response.coils bytes) = bytes
as_coils _ = none

abbrev pub as_discrete_inputs : Response → Option (List ℕ)
as_discrete_inputs (Response.discrete_inputs bytes) = bytes
as_discrete_inputs _ = none

abbrev pub as_holding_registers : Response → Option (List ℕ)
as_holding_registers (Response.holding_registers bytes) = bytes
as_holding_registers _ = none

abbrev pub as_input_registers : Response → Option (List ℕ)
as_input_registers (Response.input_registers bytes) = bytes
as_input_registers _ = none

module _ {Fault Packet State : Type 0} (library : Transport Fault Packet State) where
  unfoldable pub check_client_config : GatewayConfig → Result (ClientError Fault) (Unit {0})
  check_client_config c =
      fail_if (is_empty (trim_space c.host)) invalid_config
      >> fail_if (outside (pos 1) (pos 65535) c.port) invalid_config
      >> fail_if (outside (pos 100) (pos 60000) c.timeout) invalid_config

  abbrev pub new_client : GatewayConfig → Client State
  new_client c = record {
    address = join_host_port (trim_space c.host) (digits 5 (pos_part c.port));
    timeout = pos_part c.timeout * 1000000;
    connected = false;
    transport = library.new_client (pos_part c.timeout * 1000000) c.keep_alive;
  }

  -- `newModbusTCPClient` with the default dialer.
  unfoldable pub new_modbus_tcp_client : GatewayConfig → Result (ClientError Fault) (Client State)
  unfolding check_client_config
  new_modbus_tcp_client c = check_client_config c >> ok (new_client c)

  unfoldable pub finish_connect :
      Client State → Option Fault × State → Option (ClientError Fault) × Client State
  finish_connect c (some e, s) = (some (connect_failed e), record c { transport = s })
  finish_connect c (none, s) = (none, record c { connected = true; transport = s })

  unfoldable pub connect : Client State → Option (ClientError Fault) × Client State
  unfolding finish_connect
  connect c =
      if c.connected
      then (none, c)
      else finish_connect c (library.connect c.timeout c.address c.transport)

  unfoldable pub finish_disconnect :
      Client State → Option Fault × State → Option (ClientError Fault) × Client State
  finish_disconnect c (some e, s) =
      (some (disconnect_failed e), record c { connected = false; transport = s })
  finish_disconnect c (none, s) = (none, record c { connected = false; transport = s })

  unfoldable pub disconnect : Client State → Option (ClientError Fault) × Client State
  unfolding finish_disconnect
  disconnect c = if c.connected then finish_disconnect c (library.close c.transport) else (none, c)

  abbrev pub built : Result Fault Packet → Result (ClientError Fault) Packet
  built (ok p) = ok p
  built (err e) = err (build_failed e)

  unfoldable pub build_read_packet : ReadRequest → Result (ClientError Fault) Packet
  build_read_packet r =
      if r.function_code == function_read_coils
      then built (library.new_read_coils r.unit_id r.address r.quantity)
      else if r.function_code == function_read_discrete_inputs
      then built (library.new_read_discrete_inputs r.unit_id r.address r.quantity)
      else if r.function_code == function_read_holding_registers
      then built (library.new_read_holding_registers r.unit_id r.address r.quantity)
      else if r.function_code == function_read_input_registers
      then built (library.new_read_input_registers r.unit_id r.address r.quantity)
      else err unsupported_function

  abbrev pub typed : Option (List ℕ) → Result (ClientError Fault) (List ℕ)
  typed none = err unexpected_response
  typed (some bytes) = ok bytes

  unfoldable pub extract_read_data : ℕ → Response → Result (ClientError Fault) (List ℕ)
  extract_read_data code response =
      if is_nil response
      then err unexpected_response
      else if code == function_read_coils
      then typed (as_coils response)
      else if code == function_read_discrete_inputs
      then typed (as_discrete_inputs response)
      else if code == function_read_holding_registers
      then typed (as_holding_registers response)
      else if code == function_read_input_registers
      then typed (as_input_registers response)
      else err unexpected_response

  unfoldable pub finish_read :
      ℕ
      → Client State
      → Result Fault Response × State
      → Result (ClientError Fault) (List ℕ) × Client State
  unfolding extract_read_data
  finish_read code c (err e, s) = (err (read_failed e), record c { transport = s })
  finish_read code c (ok response, s) =
      (extract_read_data code response, record c { transport = s })

  -- The call of the transport with a packet that was built.
  unfoldable pub send :
      ℕ
      → Client State
      → Result (ClientError Fault) Packet
      → Result (ClientError Fault) (List ℕ) × Client State
  unfolding finish_read
  send code c (err e) = (err e, c)
  send code c (ok packet) = finish_read code c (library.do_request c.timeout packet c.transport)

  abbrev pub checked : Result RequestError (Unit {0}) → Result (ClientError Fault) (Unit {0})
  checked (ok _) = ok tt
  checked (err e) = err (invalid_request e)

  unfoldable pub check_read : Client State → ReadRequest → Result (ClientError Fault) (Unit {0})
  check_read c r =
      checked (validate_read_request r) >> (if c.connected then ok tt else err not_connected)

  -- The rest of `Read`, after its checks.
  unfoldable pub read_checked :
      Client State
      → ReadRequest
      → Result (ClientError Fault) (Unit {0})
      → Result (ClientError Fault) (List ℕ) × Client State
  read_checked c r (err e) = (err e, c)
  read_checked c r (ok _) = send r.function_code c (build_read_packet r)

  unfoldable pub read :
      Client State → ReadRequest → Result (ClientError Fault) (List ℕ) × Client State
  unfolding read_checked
  read c r = read_checked c r (check_read c r)
