-- ===== src/Modbus/Driver.antt =====
-- backend/internal/protocol/modbus/driver.go: reading a datasource once (`Preview`) and at each tick
-- (`Monitor`). The clock readings of a sample are left out. The exclusive executor is the caller's:
-- for each reading it is absent, or it runs the operation, or it fails without running it.
pub mod Prepared
pub mod Closing
use iot_edge.Prelude.{
  ℕ, Bool, true, false, not, Option, none, some, List, [], ◌∷◌, ℤ, if◌then◌else◌, Result, ok, err,
  ◌>>=◌, ◌&&◌,
}
use iot_edge.Modbus.Request.{ReadRequest}
use iot_edge.Modbus.Config.{GatewayConfig, DeviceConfig, DatasourceConfig, Raw, malformed, decoded}
use iot_edge.Modbus.Client.{
  Transport, ClientError, connect_failed, disconnect_failed, build_failed, read_failed, Client,
  new_modbus_tcp_client, connect, disconnect, read,
}
use iot_edge.Modbus.Failure.{
  ExceptionCodes, View, Classified, classify_request_error, is_modbus_exception,
}
use iot_edge.Modbus.Sample.{SampleData, FormatError, format_modbus_data}

pub data Exclusive (Fault : Type 0) : Type 0 where
  absent runs : Exclusive Fault
  fails : Fault → Exclusive Fault

pub data DriverError (Fault : Type 0) : Type 0 where
  stored_config : DriverError Fault
  of_client : ClientError Fault → DriverError Fault
  of_format : FormatError → DriverError Fault
  of_executor : Fault → DriverError Fault

-- The stored configurations of a request, as `json.Unmarshal` reads them.
pub record DatasourceReadRequest : Type 0 where
  pub gateway_config : Raw GatewayConfig
  pub device_config : Raw DeviceConfig
  pub datasource_config : Raw DatasourceConfig

-- A sample of quality good has bytes and data, one of quality bad the message of an error.
pub data Sample : Type 0 where
  good : List ℕ → SampleData → Sample
  bad : Classified → Sample

abbrev pub with_timeout : GatewayConfig → Option ℤ → GatewayConfig
with_timeout gateway none = gateway
with_timeout gateway (some t) = record gateway { timeout = t }

-- The request of a datasource on a device.
abbrev pub read_request : DeviceConfig → DatasourceConfig → ReadRequest
read_request device datasource = record {
  unit_id = device.unit_id;
  function_code = datasource.function_code;
  address = datasource.start_address;
  quantity = datasource.quantity;
}

-- `inspect` gives what `errors.As` and `errors.Is` find in a fault.
module _ {Fault Packet State : Type 0} (library : Transport Fault Packet State)
    (codes : ExceptionCodes) (inspect : Fault → View) where
  -- Go's errors of this package wrap nothing that `errors.As` or `errors.Is` looks for.
  abbrev pub plain : View
  plain = record {
    is_public = false;
    exception = none;
    deadline_exceeded = false;
    net_timeout = none;
    canceled = false;
  }

  -- What the wrapped errors of the client hold is what the fault in them holds.
  unfoldable pub view : DriverError Fault → View
  view (of_client (connect_failed e)) = inspect e
  view (of_client (disconnect_failed e)) = inspect e
  view (of_client (build_failed e)) = inspect e
  view (of_client (read_failed e)) = inspect e
  view (of_executor e) = inspect e
  view _ = plain

  abbrev pub unmarshal {ℓ} : {A : Type ℓ} → Raw A → Result (DriverError Fault) A
  unmarshal malformed = err stored_config
  unmarshal (decoded a) = ok a

  abbrev pub lift_client {ℓ} :
      {A : Type ℓ} → Result (ClientError Fault) A → Result (DriverError Fault) A
  lift_client (ok a) = ok a
  lift_client (err e) = err (of_client e)

  abbrev lift_format {ℓ} : {A : Type ℓ} → Result FormatError A → Result (DriverError Fault) A
  lift_format (ok a) = ok a
  lift_format (err e) = err (of_format e)

  unfoldable pub prepare_datasource_read :
      DatasourceReadRequest → Result (DriverError Fault) (Client State × ReadRequest)
  prepare_datasource_read request = unmarshal request.gateway_config >>= λ gateway.
      unmarshal request.device_config >>= λ device.
      unmarshal request.datasource_config >>= λ datasource.
      lift_client (new_modbus_tcp_client library (with_timeout gateway device.request_timeout_ms))
      >>= λ client. ok (client, read_request device datasource)

  abbrev formatted :
      ReadRequest → Result (ClientError Fault) (List ℕ) → Result (DriverError Fault) Sample
  formatted r (err e) = err (of_client e)
  formatted r (ok raw) = lift_format (format_modbus_data r raw) >>= λ data_. ok (good raw data_)

  unfoldable pub read_modbus_sample :
      Client State → ReadRequest → Result (DriverError Fault) Sample × Client State
  read_modbus_sample c r = let (answer, after) = read library c r in (formatted r answer, after)

  -- The operation of `Preview` after its connect, whose deferred disconnect always runs.
  unfoldable pub preview_connected :
      ReadRequest
      → Option (ClientError Fault) × Client State
      → Result (DriverError Fault) Sample × Client State
  unfolding read_modbus_sample
  preview_connected r (some e, c) = (err (of_client e), c)
  preview_connected r (none, c) =
      let (sample, after) = read_modbus_sample c r in (sample, (disconnect library after).1)

  unfoldable pub execute_exclusive :
      Exclusive Fault
      → (Client State → Result (DriverError Fault) Sample × Client State)
      → Client State
      → Result (DriverError Fault) Sample × Client State
  execute_exclusive absent operation c = operation c
  execute_exclusive runs operation c = operation c
  execute_exclusive (fails e) operation c = (err (of_executor e), c)

  abbrev classified : ReadRequest → Result (DriverError Fault) Sample → Result Classified Sample
  classified r (ok sample) = ok sample
  classified r (err e) = err (classify_request_error codes (view e) r)

  -- `Preview` of a prepared client.
  unfoldable pub preview_prepared :
      Exclusive Fault → Client State → ReadRequest → Result Classified Sample × Client State
  unfolding preview_connected execute_exclusive
  preview_prepared executor c r =
      let (sample, after) =
        execute_exclusive executor (λ client. preview_connected r (connect library client)) c in
      (classified r sample, after)

  -- `Preview`: an error of the preparation is returned as it is.
  unfoldable pub preview :
      Exclusive Fault
      → DatasourceReadRequest
      → Result (DriverError Fault) (Result Classified Sample × Client State)
  unfolding prepare_datasource_read preview_prepared
  preview executor request =
      prepare_datasource_read request >>= λ (prepared : Client State × ReadRequest).
      ok (preview_prepared executor prepared.0 prepared.1)

  -- The end of a reading of `Monitor`, which disconnects after an error that is no exception.
  unfoldable pub drop_broken :
      Result (DriverError Fault) Sample × Client State
      → Result (DriverError Fault) Sample × Client State
  drop_broken (ok sample, c) = (ok sample, c)
  drop_broken (err e, c) =
      (err e, if is_modbus_exception (view e) then c else (disconnect library c).1)

  abbrev pub read_connected :
      ReadRequest
      → Option (ClientError Fault) × Client State
      → Result (DriverError Fault) Sample × Client State
  read_connected r (some e, c) = (err (of_client e), c)
  read_connected r (none, c) = drop_broken (read_modbus_sample c r)

  -- The operation of the closure `read` of `Monitor`.
  unfoldable pub monitor_operation :
      ReadRequest → Client State → Result (DriverError Fault) Sample × Client State
  unfolding drop_broken
  monitor_operation r c =
      if c.connected
      then drop_broken (read_modbus_sample c r)
      else read_connected r (connect library c)

  -- What `read` emits: nothing for a cancelled context, and else the sample or a bad one.
  unfoldable pub emitted : ReadRequest → Result (DriverError Fault) Sample → List Sample
  emitted r (ok sample) = sample ∷ []
  emitted r (err e) =
      if (view e).canceled then [] else bad (classify_request_error codes (view e) r) ∷ []

  -- The readings of `Monitor`, one for each executor's answer, and the samples it emits.
  unfoldable pub monitor_reads :
      List (Exclusive Fault) → ReadRequest → Client State → List (List Sample) × Client State
  unfolding execute_exclusive monitor_operation emitted
  monitor_reads [] r c = ([], c)
  monitor_reads (executor ∷ executors) r c =
      let (sample, after) = execute_exclusive executor (monitor_operation r) c in
      let (later, end) = monitor_reads executors r after in (emitted r sample ∷ later, end)

  -- `Monitor` until its context is done, after the first reading and one for each tick; its deferred
  -- disconnect runs at the end.
  unfoldable pub monitor :
      Exclusive Fault
      → List (Exclusive Fault)
      → DatasourceReadRequest
      → Result (DriverError Fault) (List (List Sample) × Client State)
  unfolding prepare_datasource_read monitor_reads
  monitor first ticks request =
      prepare_datasource_read request >>= λ (prepared : Client State × ReadRequest).
      let (samples, end) = monitor_reads (first ∷ ticks) prepared.1 prepared.0 in
      ok (samples, (disconnect library end).1)
