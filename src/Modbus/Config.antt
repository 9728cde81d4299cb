-- ===== src/Modbus/Config.antt =====
-- backend/internal/protocol/modbus/driver.go: the configurations of gateways, devices and
-- datasources. encoding/json is not modelled: a raw configuration is what its text decodes to.
use iot_edge.Prelude.{
  ℕ, Bool, true, false, ◌||◌, not, Option, none, some, ℤ, pos, ltb_ℤ, Result, ok, err, ◌>>=◌, ◌>>◌,
  fail_if,
}
use iot_edge.Value.Text.{Text, is_empty, trim_space}
use iot_edge.Modbus.Request.{RequestError, ReadRequest, validate_read_request}

-- The sentinels that the normalization of configurations wraps.
pub data ConfigError : Type 0 where
  invalid_gateway_config invalid_device_config invalid_datasource_config : ConfigError

-- What a strict decoding of a text gives.
pub data Raw {ℓ} (A : Type ℓ) : Type ℓ where
  malformed : Raw A
  decoded : A → Raw A

-- `ModbusTCPConfigInput`
pub record GatewayInput : Type 0 where
  pub host : Text
  pub port : Option ℤ
  pub timeout : Option ℤ
  pub retry_count : Option ℤ
  pub retry_delay : Option ℤ
  pub keep_alive : Option Bool
  pub reconnect_interval : Option ℤ

-- `ModbusTCPConfig`
pub record GatewayConfig : Type 0 where
  pub host : Text
  pub port : ℤ
  pub timeout : ℤ
  pub retry_count : ℤ
  pub retry_delay : ℤ
  pub keep_alive : Bool
  pub reconnect_interval : ℤ

-- `ModbusDeviceConfigInput`
pub record DeviceInput : Type 0 where
  pub unit_id : Option ℕ
  pub request_timeout_ms : Option ℤ

-- `ModbusDeviceConfig`
pub record DeviceConfig : Type 0 where
  pub unit_id : ℕ
  pub request_timeout_ms : Option ℤ

-- `ModbusDatasourceConfigInput`
pub record DatasourceInput : Type 0 where
  pub function_code : Option ℕ
  pub start_address : Option ℕ
  pub quantity : Option ℕ
  pub poll_interval_ms : Option ℤ

-- `ModbusDatasourceConfig`
pub record DatasourceConfig : Type 0 where
  pub function_code : ℕ
  pub start_address : ℕ
  pub quantity : ℕ
  pub poll_interval_ms : ℤ

abbrev pub decode_strict_json {ℓ} : {A : Type ℓ} → ConfigError → Raw A → Result ConfigError A
decode_strict_json e malformed = err e
decode_strict_json e (decoded input) = ok input

abbrev pub value_or_default {ℓ} : {A : Type ℓ} → Option A → A → A
value_or_default none d = d
value_or_default (some a) d = a

-- `value < low || value > high`
abbrev pub outside : ℤ → ℤ → ℤ → Bool
outside low high value = ltb_ℤ value low || ltb_ℤ high value

unfoldable pub validate_gateway_config : GatewayConfig → Result ConfigError (Unit {0})
validate_gateway_config c =
    fail_if (is_empty c.host) invalid_gateway_config
    >> fail_if (outside (pos 1) (pos 65535) c.port) invalid_gateway_config
    >> fail_if (outside (pos 100) (pos 60000) c.timeout) invalid_gateway_config
    >> fail_if (outside (pos 0) (pos 10) c.retry_count) invalid_gateway_config
    >> fail_if (ltb_ℤ c.retry_delay (pos 0)) invalid_gateway_config
    >> fail_if (ltb_ℤ c.reconnect_interval (pos 0)) invalid_gateway_config

-- The configuration with its defaults filled in.
unfoldable pub gateway_config : GatewayInput → GatewayConfig
gateway_config input = record {
  host = trim_space input.host;
  port = value_or_default input.port (pos 502);
  timeout = value_or_default input.timeout (pos 5000);
  retry_count = value_or_default input.retry_count (pos 3);
  retry_delay = value_or_default input.retry_delay (pos 1000);
  keep_alive = value_or_default input.keep_alive true;
  reconnect_interval = value_or_default input.reconnect_interval (pos 30);
}

-- `NormalizeConfig`
unfoldable pub normalize_config : Raw GatewayInput → Result ConfigError GatewayConfig
unfolding validate_gateway_config gateway_config
normalize_config raw = decode_strict_json invalid_gateway_config raw >>= λ input.
    validate_gateway_config (gateway_config input) >> ok (gateway_config input)

abbrev pub timeout_outside : Option ℤ → Bool
timeout_outside none = false
timeout_outside (some t) = outside (pos 100) (pos 60000) t

abbrev pub require {ℓ} : {A : Type ℓ} → ConfigError → Option A → Result ConfigError A
require e none = err e
require e (some a) = ok a

unfoldable pub normalize_device_config : Raw DeviceInput → Result ConfigError DeviceConfig
normalize_device_config raw = decode_strict_json invalid_device_config raw >>= λ input.
    require invalid_device_config input.unit_id >>= λ unit_id.
    fail_if (timeout_outside input.request_timeout_ms) invalid_device_config
    >> ok (record { unit_id = unit_id; request_timeout_ms = input.request_timeout_ms })

-- The request that a datasource's configuration stands for, whose unit is the zero value.
abbrev pub datasource_request : DatasourceConfig → ReadRequest
datasource_request c = record {
  unit_id = 0;
  function_code = c.function_code;
  address = c.start_address;
  quantity = c.quantity;
}

abbrev pub as_config_error {ℓ} :
    {A : Type ℓ} → ConfigError → Result RequestError A → Result ConfigError A
as_config_error e (ok a) = ok a
as_config_error e (err _) = err e

unfoldable pub check_datasource : DatasourceConfig → Result ConfigError DatasourceConfig
check_datasource c =
    as_config_error invalid_datasource_config (validate_read_request (datasource_request c))
    >> fail_if (outside (pos 100) (pos 86400000) c.poll_interval_ms) invalid_datasource_config
    >> ok c

-- `NormalizeDatasourceConfig`; the first argument is `datasourceType == "modbus_read"`.
unfoldable pub normalize_datasource_config :
    Bool → Raw DatasourceInput → Result ConfigError DatasourceConfig
unfolding check_datasource
normalize_datasource_config is_modbus_read raw =
    fail_if (not is_modbus_read) invalid_datasource_config
    >> (decode_strict_json invalid_datasource_config raw >>= λ input.
        require invalid_datasource_config input.function_code >>= λ function_code.
        require invalid_datasource_config input.start_address >>= λ start_address.
        require invalid_datasource_config input.quantity >>= λ quantity. check_datasource (record {
          function_code = function_code;
          start_address = start_address;
          quantity = quantity;
          poll_interval_ms = value_or_default input.poll_interval_ms (pos 60000);
        }))
