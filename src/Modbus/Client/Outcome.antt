-- ===== src/Modbus/Client/Outcome.antt =====
-- What a read of the Modbus TCP client may come to.
use iot_edge.Prelude.{
  ℕ, ◌≡◌, refl, sym, subst, true, false, List, Result, ok, err, ◌⊎◌, inl, inr, Bool-cases, arith,
  ◌∙◌, ◌≢◌,
}
use iot_edge.Modbus.Request.{
  RequestError, ReadRequest, IsWellTyped, IsReadable, validate_read_request,
  validate_read_request-IsReadable,
}
use iot_edge.Modbus.Client.{
  Response, Transport, ClientError, Client, read, read_checked, check_read, build_read_packet, send,
  finish_read, built, invalid_request, not_connected, build_failed, read_failed,
  unexpected_response,
}
use iot_edge.Modbus.Client.Extraction.{Carries, extract_read_data-Carries}

Result-cases :
    (m : Result RequestError (Unit {0}))
    → ((u : Unit {0}) × (m ≡ ok tt)) ⊎ ((e : RequestError) × (m ≡ err e))
Result-cases (ok _) = inl (tt, refl)
Result-cases (err e) = inr (e, refl)

ok≢err : {e : RequestError} → ◌≢◌ {A = Result RequestError (Unit {0})} (ok tt) (err e)
ok≢err h = cc

codes_of :
    (r : ReadRequest)
    → IsReadable r
    → ((r.function_code ≡ 1) ⊎ (r.function_code ≡ 2))
      ⊎ ((r.function_code ≡ 3) ⊎ (r.function_code ≡ 4))
codes_of r (_, _, inl (h, _)) = inl h
codes_of r (_, _, inr (h, _)) = inr h

module _ {Fault Packet State : Type 0} (library : Transport Fault Packet State) where
  -- The packet that the library makes for a request.
  abbrev pub Packs : ReadRequest → Result Fault Packet → Type 0
  Packs r p =
      ((r.function_code ≡ 1) × (library.new_read_coils r.unit_id r.address r.quantity ≡ p))
      ⊎ (((r.function_code ≡ 2)
            × (library.new_read_discrete_inputs r.unit_id r.address r.quantity ≡ p))
          ⊎ (((r.function_code ≡ 3)
                × (library.new_read_holding_registers r.unit_id r.address r.quantity ≡ p))
              ⊎ ((r.function_code ≡ 4)
                  × (library.new_read_input_registers r.unit_id r.address r.quantity ≡ p))))

  -- The outcomes of a read: its result and the client after it. The transport is asked once, for a
  -- readable request of a connected client whose packet could be built, and else is as it was.
  pub data Reads (c : Client State) (r : ReadRequest)
      : Result (ClientError Fault) (List ℕ) × Client State → Type 0 where
    refused : (e : RequestError) → ¬ IsReadable r → Reads c r (err (invalid_request e), c)
    offline : IsReadable r → c.connected ≡ false → Reads c r (err not_connected, c)
    unbuilt :
        (e : Fault)
        → IsReadable r
        → c.connected ≡ true
        → Packs r (err e)
        → Reads c r (err (build_failed e), c)
    failed :
        (packet : Packet) (e : Fault) (s : State)
        → IsReadable r
        → c.connected ≡ true
        → Packs r (ok packet)
        → library.do_request c.timeout packet c.transport ≡ (err e, s)
        → Reads c r (err (read_failed e), record c { transport = s })
    mistyped :
        (packet : Packet) (response : Response) (s : State)
        → IsReadable r
        → c.connected ≡ true
        → Packs r (ok packet)
        → library.do_request c.timeout packet c.transport ≡ (ok response, s)
        → ((bytes : List ℕ) → ¬ Carries r.function_code response bytes)
        → Reads c r (err unexpected_response, record c { transport = s })
    answered :
        (packet : Packet) (response : Response) (s : State) (bytes : List ℕ)
        → IsReadable r
        → c.connected ≡ true
        → Packs r (ok packet)
        → library.do_request c.timeout packet c.transport ≡ (ok response, s)
        → Carries r.function_code response bytes
        → Reads c r (ok bytes, record c { transport = s })

  built-Packs :
      (r : ReadRequest) (p : Result Fault Packet)
      → Packs r p
      → ((e : Fault) × (built library p ≡ err (build_failed e)) × Packs r (err e))
        ⊎ ((q : Packet) × (built library p ≡ ok q) × Packs r (ok q))
  built-Packs r (err e) h = inl (e, refl, h)
  built-Packs r (ok q) h = inr (q, refl, h)

  -- A readable request has one of the four function codes, so its packet is the library's.
  build_read_packet-Packs :
      (r : ReadRequest)
      → IsReadable r
      → ((e : Fault) × (build_read_packet library r ≡ err (build_failed e)) × Packs r (err e))
        ⊎ ((p : Packet) × (build_read_packet library r ≡ ok p) × Packs r (ok p))
  unfolding build_read_packet
  build_read_packet-Packs r (_, _, inl (inl h, _)) =
      ground (
        arith,
        built-Packs r (library.new_read_coils r.unit_id r.address r.quantity) (inl (h, refl)),
      )
  build_read_packet-Packs r (_, _, inl (inr h, _)) = ground (
    arith,
    built-Packs r (library.new_read_discrete_inputs r.unit_id r.address r.quantity)
        (inr (inl (h, refl))),
  )
  build_read_packet-Packs r (_, _, inr (inl h, _)) = ground (
    arith,
    built-Packs r (library.new_read_holding_registers r.unit_id r.address r.quantity)
        (inr (inr (inl (h, refl)))),
  )
  build_read_packet-Packs r (_, _, inr (inr h, _)) = ground (
    arith,
    built-Packs r (library.new_read_input_registers r.unit_id r.address r.quantity)
        (inr (inr (inr (h, refl)))),
  )

  finish_read-Reads :
      (c : Client State) (r : ReadRequest) (p : Packet) (o : Result Fault Response × State)
      → IsReadable r
      → c.connected ≡ true
      → Packs r (ok p)
      → library.do_request c.timeout p c.transport ≡ o
      → Reads c r (finish_read library r.function_code c o)
  unfolding finish_read
  finish_read-Reads c r p (err e, s) h on packs asked = failed p e s h on packs asked
  finish_read-Reads c r p (ok response, s) h on packs asked =
      elim (extract_read_data-Carries library r.function_code response (codes_of r h)) [
        | inl (e, k) ↦
            subst (λ x. Reads c r (x, record c { transport = s })) (sym e)
              (mistyped p response s h on packs asked k)
        | inr (bytes, e, k) ↦
            subst (λ x. Reads c r (x, record c { transport = s })) (sym e)
              (answered p response s bytes h on packs asked k)
      ]

  send-Reads :
      (c : Client State) (r : ReadRequest)
      → IsReadable r
      → c.connected ≡ true
      → Reads c r (send library r.function_code c (build_read_packet library r))
  unfolding send
  send-Reads c r h on = elim (build_read_packet-Packs r h) [
    | inl (e, built, packs) ↦
        subst (λ p. Reads c r (send library r.function_code c p)) (sym built) (unbuilt e h on packs)
    | inr (p, built, packs) ↦
        subst (λ p. Reads c r (send library r.function_code c p)) (sym built)
          (finish_read-Reads c r p _ h on packs refl)
  ]

  -- The checks of a read, by what they find.
  check_read-cases :
      (c : Client State) (r : ReadRequest)
      → ((e : RequestError) × (validate_read_request r ≡ err e)
          × (check_read library c r ≡ err (invalid_request e)))
        ⊎ ((validate_read_request r ≡ ok tt)
            × (((c.connected ≡ false) × (check_read library c r ≡ err not_connected))
                ⊎ ((c.connected ≡ true) × (check_read library c r ≡ ok tt))))
  unfolding check_read
  check_read-cases c r = elim (Result-cases (validate_read_request r)) [
    | inl (_, h) ↦ elim (Bool-cases c.connected) [
      | inl on ↦ inr (h, inr (on, ground (arith, h, on)))
      | inr off ↦ inr (h, inl (off, ground (arith, h, off)))
    ]
    | inr (e, h) ↦ inl (e, h, ground (arith, h))
  ]

  -- Read does one of the things of its specification, on every request of Go's types: it refuses
  -- the request, finds the client offline, cannot build the packet, or asks the transport once.
  pub read-Reads :
      (c : Client State) (r : ReadRequest) → IsWellTyped r → Reads c r (read library c r)
  unfolding read read_checked
  read-Reads c r well_typed =
      let through : Result (ClientError Fault) (Unit {0}) → Type 0 =
        λ k. Reads c r (read_checked library c r k) in
      elim (check_read-cases c r) [
        | inl (e, bad, k) ↦ subst through (sym k) (
            refused e
              (λ h. ok≢err (sym ((validate_read_request-IsReadable r well_typed).1 h) ∙ bad)))
        | inr (good, inl (off, k)) ↦
            subst through (sym k)
              (offline ((validate_read_request-IsReadable r well_typed).0 good) off)
        | inr (good, inr (on, k)) ↦
            subst through (sym k)
              (send-Reads c r ((validate_read_request-IsReadable r well_typed).0 good) on)
      ]
