-- ===== src/Modbus/Tests.antt =====
-- Runs of the Modbus client and driver on a small transport, and the theorems at them.
use iot_edge.Prelude.{
  ℕ, ◌≡◌, refl, Bool, true, false, none, some, [], ◌∷◌, pos, Result, ok, err, ◌↔◌, arith,
}
use iot_edge.Value.Text.{codes, trim_space}
use iot_edge.Modbus.Request.{
  ReadRequest, validate_read_request, IsReadable, validate_read_request-IsReadable,
}
use iot_edge.Modbus.Config.{
  GatewayInput, GatewayConfig, DeviceConfig, DatasourceInput, DatasourceConfig, decoded,
  normalize_config, normalize_device_config, normalize_datasource_config,
}
use iot_edge.Modbus.Client.{
  Response, Transport, Client, new_modbus_tcp_client, new_client, read, connect, check_read,
  disconnect, send, build_read_packet,
}
use iot_edge.Modbus.Client.Session.{
  TransportLaws, connects, disconnects, reads, run, session-IsSynchronized,
}
use iot_edge.Modbus.Client.Outcome.{Reads, read-Reads}
use iot_edge.Modbus.Failure.{
  ExceptionCodes, View, Classified, FailureType, classify_request_error, request_details,
}
use iot_edge.Modbus.Sample.{registers, format_modbus_data}
use iot_edge.Modbus.Sample.Layout.{IsFormatted, format_modbus_data-IsFormatted}
use iot_edge.Modbus.Driver.{
  absent, runs, fails, Sample, good, bad, DatasourceReadRequest, read_request,
  prepare_datasource_read, preview, monitor, execute_exclusive, monitor_operation, emitted,
  read_modbus_sample, view,
}
use iot_edge.Modbus.Driver.Prepared.{prepare_datasource_read-normalized}
use iot_edge.Modbus.Driver.Closing.{preview-IsClosed, monitor-IsClosed}

-- A transport whose state is its openness and whose holding registers hold 1 and 258. Faults are
-- numbers.
abbrev answer : ℕ → Bool → Result ℕ Response × Bool
answer packet true = (ok (Response.holding_registers (some (0 ∷ 1 ∷ 1 ∷ 2 ∷ []))), true)
answer packet false = (err 7, false)

abbrev small : Transport ℕ ℕ Bool
small = record {
  new_client = λ timeout keep_alive. false;
  new_read_coils = λ unit address quantity. err 1;
  new_read_discrete_inputs = λ unit address quantity. err 1;
  new_read_holding_registers = λ unit address quantity. ok address;
  new_read_input_registers = λ unit address quantity. ok address;
  connect = λ timeout address s. (none, true);
  close = λ s. (some 3, false);
  do_request = λ timeout packet s. answer packet s;
}

small_keeps : (timeout packet : ℕ) (s : Bool) → (small.do_request timeout packet s).1 ≡ s
small_keeps timeout packet true = refl
small_keeps timeout packet false = refl

small_laws : TransportLaws small (λ s. s)
small_laws = record {
  new_closed = λ timeout keep_alive. refl;
  connect_opens = λ timeout address s h. refl;
  connect_fails = λ timeout address s e h k. cc;
  close_closes = λ s. refl;
  request_keeps = small_keeps;
}

abbrev gateway_input : GatewayInput
gateway_input = record {
  host = codes " plc ";
  port = none;
  timeout = some (pos 200);
  retry_count = none;
  retry_delay = none;
  keep_alive = none;
  reconnect_interval = none;
}

abbrev gateway : GatewayConfig
gateway = record {
  host = codes "plc";
  port = pos 502;
  timeout = pos 200;
  retry_count = pos 3;
  retry_delay = pos 1000;
  keep_alive = true;
  reconnect_interval = pos 30;
}

gateway_normalized : normalize_config (decoded gateway_input) ≡ ok gateway
unfolding normalize_config trim_space
gateway_normalized = refl

abbrev device : DeviceConfig
device = record { unit_id = 1; request_timeout_ms = some (pos 300) }

device_normalized :
    normalize_device_config
      (decoded (record { unit_id = some 1; request_timeout_ms = some (pos 300) }))
    ≡ ok device
unfolding normalize_device_config
device_normalized = refl

abbrev datasource : DatasourceConfig
datasource = record {
  function_code = 3;
  start_address = 100;
  quantity = 2;
  poll_interval_ms = pos 60000;
}

abbrev datasource_input : DatasourceInput
datasource_input = record {
  function_code = some 3;
  start_address = some 100;
  quantity = some 2;
  poll_interval_ms = none;
}

datasource_normalized : normalize_datasource_config true (decoded datasource_input) ≡ ok datasource
unfolding normalize_datasource_config validate_read_request
datasource_normalized = refl

abbrev request : ReadRequest
request = read_request device datasource

abbrev client : Client Bool
client = new_client small gateway

client_made : new_modbus_tcp_client small gateway ≡ ok client
unfolding new_modbus_tcp_client trim_space
client_made = refl

abbrev exception_codes : ExceptionCodes
exception_codes = record {
  illegal_function = 1;
  illegal_data_address = 2;
  illegal_data_value = 3;
  server_failure = 4;
  acknowledge = 5;
  server_busy = 6;
  memory_parity_error = 8;
  gateway_path_unavailable = 10;
  gateway_targeted_device_response = 11;
}

abbrev nothing : ℕ → View
nothing e = record {
  is_public = false;
  exception = none;
  deadline_exceeded = false;
  net_timeout = none;
  canceled = false;
}

abbrev stored : DatasourceReadRequest
stored = record {
  gateway_config = decoded gateway;
  device_config = decoded device;
  datasource_config = decoded datasource;
}

abbrev sample : Sample
sample =
    good (0 ∷ 1 ∷ 1 ∷ 2 ∷ [])
      (registers (record { address = 100; value = 1 } ∷ record { address = 101; value = 258 } ∷ []))

abbrev closed : Client Bool
closed = new_client small (record gateway { timeout = pos 300 })

previewed : preview small exception_codes nothing runs stored ≡ ok (ok sample, closed)
unfolding preview read new_modbus_tcp_client trim_space connect check_read disconnect
    validate_read_request send build_read_packet format_modbus_data
previewed = refl

monitored :
    monitor small exception_codes nothing absent (fails 9 ∷ runs ∷ []) stored
    ≡ ok (
      (sample ∷ [])
          ∷ (bad (Classified.request_error (request_details request FailureType.request_failed))
              ∷ [])
          ∷ (sample ∷ [])
          ∷ [],
      closed,
    )
unfolding monitor read execute_exclusive monitor_operation emitted classify_request_error
    request_details read_modbus_sample view new_modbus_tcp_client trim_space connect check_read
    disconnect validate_read_request send build_read_packet format_modbus_data
monitored = refl

validate_read_request-IsReadable_example :
    (validate_read_request request ≡ ok tt) ↔ IsReadable request
validate_read_request-IsReadable_example =
    validate_read_request-IsReadable request (omega arith, omega arith, omega arith, omega arith)

read-Reads_example : Reads small client request (read small client request)
read-Reads_example =
    read-Reads small client request (omega arith, omega arith, omega arith, omega arith)

session-IsSynchronized_example :
    (run small client (reads request ∷ connects ∷ reads request ∷ disconnects ∷ [])).transport
    ≡ (run small client (reads request ∷ connects ∷ reads request ∷ disconnects ∷ [])).connected
session-IsSynchronized_example =
    session-IsSynchronized small (λ s. s) small_laws gateway client
      (reads request ∷ connects ∷ reads request ∷ disconnects ∷ []) client_made

format_modbus_data-IsFormatted_example :
    IsFormatted request (0 ∷ 1 ∷ 1 ∷ 2 ∷ []) (format_modbus_data request (0 ∷ 1 ∷ 1 ∷ 2 ∷ []))
format_modbus_data-IsFormatted_example =
    format_modbus_data-IsFormatted request (0 ∷ 1 ∷ 1 ∷ 2 ∷ [])
      (omega arith, (omega arith, (omega arith, (omega arith, tt)))) (omega arith)

preview-IsClosed_example : closed.transport ≡ false
preview-IsClosed_example =
    preview-IsClosed small exception_codes nothing (λ s. s) small_laws runs stored (ok sample)
      closed previewed

monitor-IsClosed_example : closed.transport ≡ false
monitor-IsClosed_example =
    monitor-IsClosed small exception_codes nothing (λ s. s) small_laws absent (fails 9 ∷ runs ∷ [])
      stored _ closed monitored

prepare_datasource_read-normalized_example :
    (new : Client Bool) × (prepare_datasource_read small exception_codes nothing stored
      ≡ ok (new, request))
    × (validate_read_request request ≡ ok tt)
prepare_datasource_read-normalized_example =
    prepare_datasource_read-normalized small exception_codes nothing (decoded gateway_input)
      (decoded (record { unit_id = some 1; request_timeout_ms = some (pos 300) }))
      (decoded datasource_input) true gateway device datasource gateway_normalized device_normalized
      datasource_normalized
