-- ===== src/Modbus/Driver/Prepared.antt =====
-- Stored configurations that the driver normalized can be read.
use iot_edge.Prelude.{
  ◌≡◌, refl, subst, ap, ◌∙◌, Bool, false, Option, none, some, ℤ, pos, Result, ok, err, >>=-eq-ok,
  fail_if-eq-ok, ok-injective, not,
}
use iot_edge.Value.Text.{trim_space, trim_space_idem, is_empty}
use iot_edge.Modbus.Request.{RequestError, validate_read_request, last_address}
use iot_edge.Modbus.Config.{
  invalid_gateway_config, invalid_device_config, invalid_datasource_config, Raw, decoded,
  GatewayInput, GatewayConfig, DeviceInput, DeviceConfig, DatasourceInput, DatasourceConfig,
  outside, decode_strict_json, validate_gateway_config, gateway_config, normalize_config,
  timeout_outside, require, normalize_device_config, datasource_request, as_config_error,
  check_datasource, normalize_datasource_config, value_or_default,
}
use iot_edge.Modbus.Client.{
  Transport, Client, new_client, check_client_config, new_modbus_tcp_client,
}
use iot_edge.Modbus.Failure.{ExceptionCodes, View}
use iot_edge.Modbus.Driver.{with_timeout, read_request, prepare_datasource_read}

-- What a client's configuration needs.
abbrev IsConnectable : GatewayConfig → Type 0
IsConnectable c =
    (is_empty (trim_space c.host) ≡ false)
    × (outside (pos 1) (pos 65535) c.port ≡ false)
    × (outside (pos 100) (pos 60000) c.timeout ≡ false)

validate_gateway_config-checks :
    (c : GatewayConfig)
    → validate_gateway_config c ≡ ok tt
    → (is_empty c.host ≡ false)
      × (outside (pos 1) (pos 65535) c.port ≡ false)
      × (outside (pos 100) (pos 60000) c.timeout ≡ false)
unfolding validate_gateway_config
validate_gateway_config-checks c h =
    let (host, h1) = fail_if-eq-ok (is_empty c.host) invalid_gateway_config _ h in
    let (port, h2) =
      fail_if-eq-ok (outside (pos 1) (pos 65535) c.port) invalid_gateway_config _ h1 in
    let (timeout, _) =
      fail_if-eq-ok (outside (pos 100) (pos 60000) c.timeout) invalid_gateway_config _ h2 in
    (host, port, timeout)

normalize_config-IsConnectable :
    (raw : Raw GatewayInput) (g : GatewayConfig) → normalize_config raw ≡ ok g → IsConnectable g
unfolding normalize_config gateway_config
normalize_config-IsConnectable raw g h =
    let (input, _, h1) = >>=-eq-ok (decode_strict_json invalid_gateway_config raw) _ h in
    let (_, valid, made) = >>=-eq-ok (validate_gateway_config (gateway_config input)) _ h1 in
    let (host, port, timeout) = validate_gateway_config-checks (gateway_config input) valid in
    subst IsConnectable (ok-injective made)
      (ap is_empty (trim_space_idem input.host) ∙ host, port, timeout)

with_timeout-IsConnectable :
    (g : GatewayConfig) (t : Option ℤ)
    → IsConnectable g
    → timeout_outside t ≡ false
    → IsConnectable (with_timeout g t)
with_timeout-IsConnectable g none h k = h
with_timeout-IsConnectable g (some t) (host, port, _) k = (host, port, k)

normalize_device_config-timeout :
    (raw : Raw DeviceInput) (d : DeviceConfig)
    → normalize_device_config raw ≡ ok d
    → timeout_outside d.request_timeout_ms ≡ false
unfolding normalize_device_config
normalize_device_config-timeout raw d h =
    let (input, _, h1) = >>=-eq-ok (decode_strict_json invalid_device_config raw) _ h in
    let (unit_id, _, h2) = >>=-eq-ok (require invalid_device_config input.unit_id) _ h1 in
    let (inside, made) =
      fail_if-eq-ok (timeout_outside input.request_timeout_ms) invalid_device_config _ h2 in
    subst (λ (c : DeviceConfig). timeout_outside c.request_timeout_ms ≡ false) (ok-injective made)
      inside

as_config_error-eq-ok :
    (m : Result RequestError (Unit {0}))
    → as_config_error invalid_datasource_config m ≡ ok tt
    → m ≡ ok tt
as_config_error-eq-ok (ok _) h = refl
as_config_error-eq-ok (err e) h = cc

check_datasource-valid :
    (c s : DatasourceConfig)
    → check_datasource c ≡ ok s
    → validate_read_request (datasource_request s) ≡ ok tt
unfolding check_datasource
check_datasource-valid c s h =
    let (_, valid, h1) =
      >>=-eq-ok
        (as_config_error invalid_datasource_config (validate_read_request (datasource_request c))) _
        h in
    let (_, made) =
      fail_if-eq-ok (outside (pos 100) (pos 86400000) c.poll_interval_ms) invalid_datasource_config
        _ h1 in
    subst (λ (k : DatasourceConfig). validate_read_request (datasource_request k) ≡ ok tt)
      (ok-injective made) (as_config_error-eq-ok _ valid)

normalize_datasource_config-valid :
    (is_modbus_read : Bool) (raw : Raw DatasourceInput) (s : DatasourceConfig)
    → normalize_datasource_config is_modbus_read raw ≡ ok s
    → validate_read_request (datasource_request s) ≡ ok tt
unfolding normalize_datasource_config
normalize_datasource_config-valid is_modbus_read raw s h =
    let (_, h0) = fail_if-eq-ok (not is_modbus_read) invalid_datasource_config _ h in
    let (input, _, h1) = >>=-eq-ok (decode_strict_json invalid_datasource_config raw) _ h0 in
    let (function_code, _, h2) =
      >>=-eq-ok (require invalid_datasource_config input.function_code) _ h1 in
    let (start_address, _, h3) =
      >>=-eq-ok (require invalid_datasource_config input.start_address) _ h2 in
    let (quantity, _, h4) = >>=-eq-ok (require invalid_datasource_config input.quantity) _ h3 in
    check_datasource-valid
      (record {
        function_code = function_code;
        start_address = start_address;
        quantity = quantity;
        poll_interval_ms = value_or_default input.poll_interval_ms (pos 60000);
      })
      s h4

-- The unit of a request plays no part in its validation.
valid_of_unit :
    (d : DeviceConfig) (s : DatasourceConfig)
    → validate_read_request (datasource_request s) ≡ ok tt
    → validate_read_request (read_request d s) ≡ ok tt
unfolding validate_read_request last_address
valid_of_unit d s h = h

module _ {Fault Packet State : Type 0} (library : Transport Fault Packet State)
    (codes : ExceptionCodes) (inspect : Fault → View) where
  new_modbus_tcp_client-IsConnectable :
      (c : GatewayConfig)
      → IsConnectable c
      → (client : Client State) × (new_modbus_tcp_client library c ≡ ok client)
  unfolding new_modbus_tcp_client check_client_config
  new_modbus_tcp_client-IsConnectable c (host, port, timeout) =
      (new_client library c, rw (host, port, timeout))

  -- From a gateway's, a device's and a datasource's configuration that the driver has normalized, the
  -- preparation of a reading makes a client and a request that the client does not refuse.
  pub prepare_datasource_read-normalized :
      (gateway_raw : Raw GatewayInput) (device_raw : Raw DeviceInput)
      (datasource_raw : Raw DatasourceInput) (is_modbus_read : Bool) (g : GatewayConfig)
      (d : DeviceConfig) (s : DatasourceConfig)
      → normalize_config gateway_raw ≡ ok g
      → normalize_device_config device_raw ≡ ok d
      → normalize_datasource_config is_modbus_read datasource_raw ≡ ok s
      → (client : Client State) × (prepare_datasource_read library codes inspect (record {
        gateway_config = decoded g;
        device_config = decoded d;
        datasource_config = decoded s;
      })
          ≡ ok (client, read_request d s))
        × (validate_read_request (read_request d s) ≡ ok tt)
  unfolding prepare_datasource_read
  prepare_datasource_read-normalized gateway_raw device_raw datasource_raw is_modbus_read g d s hg
        hd hs =
      let connectable =
        with_timeout-IsConnectable g d.request_timeout_ms
          (normalize_config-IsConnectable gateway_raw g hg)
          (normalize_device_config-timeout device_raw d hd) in
      let (client, made) =
        new_modbus_tcp_client-IsConnectable (with_timeout g d.request_timeout_ms) connectable in
      (
        client,
        rw made,
        valid_of_unit d s (normalize_datasource_config-valid is_modbus_read datasource_raw s hs),
      )
