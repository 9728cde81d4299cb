-- ===== src/Modbus/Driver/Closing.antt =====
-- No reading of a datasource leaks a connection.
use iot_edge.Prelude.{
  ◌≡◌, refl, subst, ◌∙◌, Bool, false, Option, none, some, List, [], ◌∷◌, Result, ok, err, >>=-eq-ok,
  ok-injective, if-elim, ap,
}
use iot_edge.Modbus.Request.{ReadRequest}
use iot_edge.Modbus.Client.{
  Transport, ClientError, Client, new_modbus_tcp_client, connect, finish_connect,
}
use iot_edge.Modbus.Client.Session.{
  TransportLaws, IsSynchronized, connect-IsSynchronized, disconnect-IsSynchronized,
  read-IsSynchronized, new_modbus_tcp_client-IsSynchronized, new_modbus_tcp_client-off,
  disconnect-closed,
}
use iot_edge.Modbus.Failure.{ExceptionCodes, View, Classified, is_modbus_exception}
use iot_edge.Modbus.Driver.{
  Exclusive, absent, runs, fails, DriverError, Sample, DatasourceReadRequest, with_timeout,
  lift_client, unmarshal, prepare_datasource_read, preview, preview_prepared, preview_connected,
  read_modbus_sample, execute_exclusive, drop_broken, read_connected, monitor_operation,
  monitor_reads, monitor, view,
}

module _ {Fault Packet State : Type 0} (library : Transport Fault Packet State)
    (codes : ExceptionCodes) (inspect : Fault → View) (is_open : State → Bool)
    (laws : TransportLaws library is_open) where
  abbrev IsKept : Client State → Type 0
  IsKept c = IsSynchronized library is_open laws c

  abbrev IsClosed : Client State → Type 0
  IsClosed c = is_open c.transport ≡ false

  execute_exclusive-elim :
      (P : Client State → Type 0) (executor : Exclusive Fault)
      (operation : Client State → Result (DriverError Fault) Sample × Client State)
      (c : Client State)
      → P c
      → P (operation c).1
      → P (execute_exclusive library codes inspect executor operation c).1
  unfolding execute_exclusive
  execute_exclusive-elim P absent operation c h k = k
  execute_exclusive-elim P runs operation c h k = k
  execute_exclusive-elim P (fails e) operation c h k = h

  drop_broken-IsKept :
      (o : Result (DriverError Fault) Sample × Client State)
      → IsKept o.1
      → IsKept (drop_broken library codes inspect o).1
  unfolding drop_broken
  drop_broken-IsKept (ok sample, c) h = h
  drop_broken-IsKept (err e, c) h =
      if-elim IsKept (is_modbus_exception (view library codes inspect e)) (λ _. h)
        (λ _. disconnect-IsSynchronized library is_open laws c h)

  read_modbus_sample-IsKept :
      (c : Client State) (r : ReadRequest)
      → IsKept c
      → IsKept (read_modbus_sample library codes inspect c r).1
  unfolding read_modbus_sample
  read_modbus_sample-IsKept c r h = read-IsSynchronized library is_open laws c r h

  read_connected-IsKept :
      (r : ReadRequest) (o : Option (ClientError Fault) × Client State)
      → IsKept o.1
      → IsKept (read_connected library codes inspect r o).1
  read_connected-IsKept r (some e, c) h = h
  read_connected-IsKept r (none, c) h = drop_broken-IsKept _ (read_modbus_sample-IsKept c r h)

  monitor_operation-IsKept :
      (r : ReadRequest) (c : Client State)
      → IsKept c
      → IsKept (monitor_operation library codes inspect r c).1
  unfolding monitor_operation
  monitor_operation-IsKept r c h =
      if-elim (λ (o : Result (DriverError Fault) Sample × Client State). IsKept o.1) c.connected
        (λ _. drop_broken-IsKept _ (read_modbus_sample-IsKept c r h))
        (λ _. read_connected-IsKept r _ (connect-IsSynchronized library is_open laws c h))

  monitor_reads-IsKept :
      (executors : List (Exclusive Fault)) (r : ReadRequest) (c : Client State)
      → IsKept c
      → IsKept (monitor_reads library codes inspect executors r c).1
  unfolding monitor_reads
  monitor_reads-IsKept [] r c h = h
  monitor_reads-IsKept (executor ∷ executors) r c h =
      monitor_reads-IsKept executors r _
        (execute_exclusive-elim IsKept executor _ c h (monitor_operation-IsKept r c h))

  preview_connected-IsClosed :
      (r : ReadRequest) (o : Option (ClientError Fault) × Client State)
      → IsKept o.1
      → ((e : ClientError Fault) → o.0 ≡ some e → IsClosed o.1)
      → IsClosed (preview_connected library codes inspect r o).1
  unfolding preview_connected
  preview_connected-IsClosed r (some e, c) h failed = failed e refl
  preview_connected-IsClosed r (none, c) h failed =
      disconnect-closed library is_open laws _ (read_modbus_sample-IsKept c r h)

  finish_connect-failed :
      (c : Client State) (o : Option Fault × State) (e : ClientError Fault)
      → c.connected ≡ false
      → (finish_connect library c o).0 ≡ some e
      → (finish_connect library c o).1.connected ≡ false
  unfolding finish_connect
  finish_connect-failed c (some f, s) e off h = off
  finish_connect-failed c (none, s) e off h = cc

  connect-IsClosed :
      (c : Client State) (e : ClientError Fault)
      → IsKept c
      → c.connected ≡ false
      → (connect library c).0 ≡ some e
      → IsClosed (connect library c).1
  connect-IsClosed c e h off failed =
      connect-IsSynchronized library is_open laws c h
      ∙ unfold connect in
        if-elim
          (λ (o : Option (ClientError Fault) × Client State). o.0 ≡ some e → o.1.connected ≡ false)
          c.connected (λ on f. off) (λ _. finish_connect-failed c _ e off) failed

  lift_client-eq-ok :
      (m : Result (ClientError Fault) (Client State)) (c : Client State)
      → lift_client library codes inspect m ≡ ok c
      → m ≡ ok c
  lift_client-eq-ok (ok a) c h = cc
  lift_client-eq-ok (err e) c h = cc

  prepared :
      (request : DatasourceReadRequest) (p : Client State × ReadRequest)
      → prepare_datasource_read library codes inspect request ≡ ok p
      → IsKept p.0 × (p.0.connected ≡ false)
  unfolding prepare_datasource_read
  prepared request p h =
      let (gateway, _, h1) =
        >>=-eq-ok (unmarshal library codes inspect request.gateway_config) _ h in
      let (device, _, h2) =
        >>=-eq-ok (unmarshal library codes inspect request.device_config) _ h1 in
      let (datasource, _, h3) =
        >>=-eq-ok (unmarshal library codes inspect request.datasource_config) _ h2 in
      let config = with_timeout gateway device.request_timeout_ms in
      let (client, made, h4) =
        >>=-eq-ok (lift_client library codes inspect (new_modbus_tcp_client library config)) _ h3 in
      let new = lift_client-eq-ok (new_modbus_tcp_client library config) client made in
      let same : client ≡ p.0 = ap (λ (q : Client State × ReadRequest). q.0) (ok-injective h4) in
      (
        subst IsKept same
            (new_modbus_tcp_client-IsSynchronized library is_open laws config client new),
        subst (λ (k : Client State). k.connected ≡ false) same
            (new_modbus_tcp_client-off library is_open laws config client new),
      )

  preview_prepared-IsClosed :
      (executor : Exclusive Fault) (c : Client State) (r : ReadRequest)
      → IsKept c
      → c.connected ≡ false
      → IsClosed (preview_prepared library codes inspect executor c r).1
  unfolding preview_prepared
  preview_prepared-IsClosed executor c r h off =
      execute_exclusive-elim IsClosed executor _ c (h ∙ off) (
        preview_connected-IsClosed r _ (connect-IsSynchronized library is_open laws c h)
          (λ e. connect-IsClosed c e h off))

  -- A preview that passes its preparation ends with its connection closed, whatever fails: the
  -- executor, the connect, the read, the data or the disconnect; the transport must keep the laws of
  -- TransportLaws.
  pub preview-IsClosed :
      (executor : Exclusive Fault) (request : DatasourceReadRequest)
      (sample : Result Classified Sample) (end : Client State)
      → preview library codes inspect executor request ≡ ok (sample, end)
      → is_open end.transport ≡ false
  unfolding preview
  preview-IsClosed executor request sample end h =
      let (p, prep, finished) =
        >>=-eq-ok (prepare_datasource_read library codes inspect request) _ h in
      let (kept, off) = prepared request p prep in
      subst (λ (o : Result Classified Sample × Client State). IsClosed o.1) (ok-injective finished)
        (preview_prepared-IsClosed executor p.0 p.1 kept off)

  -- When a monitor ends, after any readings with any failures, its connection is closed, whatever
  -- transport keeps the laws of TransportLaws.
  pub monitor-IsClosed :
      (first : Exclusive Fault) (ticks : List (Exclusive Fault)) (request : DatasourceReadRequest)
      (samples : List (List Sample)) (end : Client State)
      → monitor library codes inspect first ticks request ≡ ok (samples, end)
      → is_open end.transport ≡ false
  unfolding monitor
  monitor-IsClosed first ticks request samples end h =
      let (p, prep, finished) =
        >>=-eq-ok (prepare_datasource_read library codes inspect request) _ h in
      let (kept, off) = prepared request p prep in
      subst (λ (o : List (List Sample) × Client State). IsClosed o.1) (ok-injective finished)
        (disconnect-closed library is_open laws _
          (monitor_reads-IsKept (first ∷ ticks) p.1 p.0 kept))
