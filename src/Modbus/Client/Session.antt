-- ===== src/Modbus/Client/Session.antt =====
-- Sessions of the Modbus TCP client: any operations, one after the other, as its lock orders them.
use iot_edge.Prelude.{
  ℕ, ◌≡◌, refl, ap, Bool, true, false, Option, none, some, List, [], ◌∷◌, Result, ok, err,
  >>=-eq-ok, ok-injective, if-elim, sym, subst, ◌∙◌,
}
use iot_edge.Modbus.Request.{ReadRequest}
use iot_edge.Modbus.Config.{GatewayConfig}
use iot_edge.Modbus.Client.{
  Response, Transport, ClientError, Client, check_client_config, new_modbus_tcp_client, connect,
  finish_connect, disconnect, finish_disconnect, read, read_checked, check_read, build_read_packet,
  send, finish_read,
}

pub data Operation : Type 0 where
  connects disconnects : Operation
  reads : ReadRequest → Operation

-- What the client relies on: of the transport's states some are open, a new one is not, a
-- successful connect opens it, a failed one of a closed transport leaves it closed, close always
-- closes it, whatever it reports, and a request leaves it as it is.
pub record TransportLaws {Fault Packet State : Type 0} (library : Transport Fault Packet State)
    (is_open : State → Bool) : Type 0 where
  pub new_closed :
      (timeout : ℕ) (keep_alive : Bool) → is_open (library.new_client timeout keep_alive) ≡ false
  pub connect_opens :
      (timeout : ℕ) (address : List ℕ) (s : State)
      → (library.connect timeout address s).0 ≡ none
      → is_open (library.connect timeout address s).1 ≡ true
  pub connect_fails :
      (timeout : ℕ) (address : List ℕ) (s : State) (e : Fault)
      → is_open s ≡ false
      → (library.connect timeout address s).0 ≡ some e
      → is_open (library.connect timeout address s).1 ≡ false
  pub close_closes : (s : State) → is_open (library.close s).1 ≡ false
  pub request_keeps :
      (timeout : ℕ) (packet : Packet) (s : State)
      → is_open (library.do_request timeout packet s).1 ≡ is_open s

module _ {Fault Packet State : Type 0} (library : Transport Fault Packet State) where
  abbrev pub step : Client State → Operation → Client State
  step c connects = (connect library c).1
  step c disconnects = (disconnect library c).1
  step c (reads r) = (read library c r).1

  abbrev pub run : Client State → List Operation → Client State
  run c [] = c
  run c (op ∷ ops) = run (step c op) ops

module _ {Fault Packet State : Type 0} (library : Transport Fault Packet State)
    (is_open : State → Bool) (laws : TransportLaws library is_open) where
  -- The flag of the client tells whether its transport is open.
  abbrev pub IsSynchronized : Client State → Type 0
  IsSynchronized c = is_open c.transport ≡ c.connected

  finish_connect-IsSynchronized :
      (c : Client State) (o : Option Fault × State)
      → c.connected ≡ false
      → IsSynchronized c
      → (o.0 ≡ none → is_open o.1 ≡ true)
      → ((e : Fault) → o.0 ≡ some e → is_open o.1 ≡ false)
      → IsSynchronized (finish_connect library c o).1
  unfolding finish_connect
  finish_connect-IsSynchronized c (some e, s) off h opens stays = stays e refl ∙ sym off
  finish_connect-IsSynchronized c (none, s) off h opens stays = opens refl

  pub connect-IsSynchronized :
      (c : Client State) → IsSynchronized c → IsSynchronized (connect library c).1
  unfolding connect
  connect-IsSynchronized c h =
      if-elim (λ (o : Option (ClientError Fault) × Client State). IsSynchronized o.1) c.connected
        (λ on. h)
        (λ off.
          finish_connect-IsSynchronized c _ off h
            (laws.connect_opens c.timeout c.address c.transport)
            (λ e. laws.connect_fails c.timeout c.address c.transport e (h ∙ off)))

  finish_disconnect-IsSynchronized :
      (c : Client State) (o : Option Fault × State)
      → is_open o.1 ≡ false
      → IsSynchronized (finish_disconnect library c o).1
  unfolding finish_disconnect
  finish_disconnect-IsSynchronized c (some e, s) h = h
  finish_disconnect-IsSynchronized c (none, s) h = h

  pub disconnect-IsSynchronized :
      (c : Client State) → IsSynchronized c → IsSynchronized (disconnect library c).1
  unfolding disconnect
  disconnect-IsSynchronized c h =
      if-elim (λ (o : Option (ClientError Fault) × Client State). IsSynchronized o.1) c.connected
        (λ on. finish_disconnect-IsSynchronized c _ (laws.close_closes c.transport)) (λ off. h)

  finish_disconnect-off :
      (c : Client State) (o : Option Fault × State)
      → (finish_disconnect library c o).1.connected ≡ false
  unfolding finish_disconnect
  finish_disconnect-off c (some e, s) = refl
  finish_disconnect-off c (none, s) = refl

  -- A disconnect leaves the transport closed.
  pub disconnect-closed :
      (c : Client State) → IsSynchronized c → is_open (disconnect library c).1.transport ≡ false
  disconnect-closed c h =
      disconnect-IsSynchronized c h
      ∙ unfold disconnect in
        if-elim (λ (o : Option (ClientError Fault) × Client State). o.1.connected ≡ false)
          c.connected (λ on. finish_disconnect-off c (library.close c.transport)) (λ off. off)

  finish_read-IsSynchronized :
      (code : ℕ) (c : Client State) (o : Result Fault Response × State)
      → is_open o.1 ≡ is_open c.transport
      → IsSynchronized c
      → IsSynchronized (finish_read library code c o).1
  unfolding finish_read
  finish_read-IsSynchronized code c (err e, s) same h = same ∙ h
  finish_read-IsSynchronized code c (ok response, s) same h = same ∙ h

  send-IsSynchronized :
      (code : ℕ) (c : Client State) (p : Result (ClientError Fault) Packet)
      → IsSynchronized c
      → IsSynchronized (send library code c p).1
  unfolding send
  send-IsSynchronized code c (err e) h = h
  send-IsSynchronized code c (ok packet) h =
      finish_read-IsSynchronized code c _ (laws.request_keeps c.timeout packet c.transport) h

  read_checked-IsSynchronized :
      (c : Client State) (r : ReadRequest) (checks : Result (ClientError Fault) (Unit {0}))
      → IsSynchronized c
      → IsSynchronized (read_checked library c r checks).1
  unfolding read_checked
  read_checked-IsSynchronized c r (err e) h = h
  read_checked-IsSynchronized c r (ok _) h =
      send-IsSynchronized r.function_code c (build_read_packet library r) h

  pub read-IsSynchronized :
      (c : Client State) (r : ReadRequest) → IsSynchronized c → IsSynchronized (read library c r).1
  unfolding read
  read-IsSynchronized c r h = read_checked-IsSynchronized c r (check_read library c r) h

  step-IsSynchronized :
      (c : Client State) (op : Operation) → IsSynchronized c → IsSynchronized (step library c op)
  step-IsSynchronized c connects h = connect-IsSynchronized c h
  step-IsSynchronized c disconnects h = disconnect-IsSynchronized c h
  step-IsSynchronized c (reads r) h = read-IsSynchronized c r h

  run-IsSynchronized :
      (c : Client State) (ops : List Operation)
      → IsSynchronized c
      → IsSynchronized (run library c ops)
  run-IsSynchronized c [] h = h
  run-IsSynchronized c (op ∷ ops) h =
      run-IsSynchronized (step library c op) ops (step-IsSynchronized c op h)

  pub new_modbus_tcp_client-IsSynchronized :
      (config : GatewayConfig) (c : Client State)
      → new_modbus_tcp_client library config ≡ ok c
      → IsSynchronized c
  unfolding new_modbus_tcp_client
  new_modbus_tcp_client-IsSynchronized config c h =
      let (_, _, made) = >>=-eq-ok (check_client_config library config) _ h in
      subst IsSynchronized (ok-injective made) (laws.new_closed _ config.keep_alive)

  pub new_modbus_tcp_client-off :
      (config : GatewayConfig) (c : Client State)
      → new_modbus_tcp_client library config ≡ ok c
      → c.connected ≡ false
  unfolding new_modbus_tcp_client
  new_modbus_tcp_client-off config c h =
      let (_, _, made) = >>=-eq-ok (check_client_config library config) _ h in
      ap (λ (k : Client State). k.connected) (sym (ok-injective made))

  -- After any session of a client that was made from a configuration, the client says that it is
  -- connected just when its transport is open, failed operations and failed closes included; the
  -- transport must keep the laws of TransportLaws.
  pub session-IsSynchronized :
      (config : GatewayConfig) (c : Client State) (ops : List Operation)
      → new_modbus_tcp_client library config ≡ ok c
      → is_open (run library c ops).transport ≡ (run library c ops).connected
  session-IsSynchronized config c ops h =
      run-IsSynchronized c ops (new_modbus_tcp_client-IsSynchronized config c h)
