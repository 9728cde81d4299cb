-- ===== src/Modbus/Client/Extraction.antt =====
-- The data that the Modbus client takes out of a response.
use iot_edge.Prelude.{
  ℕ, ◌≡◌, refl, sym, subst, true, Option, none, some, List, Result, ok, err, ◌⊎◌, inl, inr, arith,
  ◌↔◌, ◌≢◌, if-elim, if◌then◌else◌,
}
use iot_edge.Modbus.Client.{
  Response, Transport, ClientError, as_coils, as_discrete_inputs, as_holding_registers,
  as_input_registers, extract_read_data, typed, unexpected_response, is_nil,
}

some≢none : {bytes : List ℕ} → none ≢ some bytes
some≢none h = cc

-- A nil response has no data of any type.
nil_none :
    (response : Response)
    → (is_nil response ≡ true → as_coils response ≡ none)
      × (is_nil response ≡ true → as_discrete_inputs response ≡ none)
      × (is_nil response ≡ true → as_holding_registers response ≡ none)
      × (is_nil response ≡ true → as_input_registers response ≡ none)
nil_none Response.nil = (λ _. refl, λ _. refl, λ _. refl, λ _. refl)
nil_none _ = ground arith

-- The data that a response carries for a function code.
abbrev pub Carries : ℕ → Response → List ℕ → Type 0
Carries code response bytes =
    ((code ≡ 1) × (as_coils response ≡ some bytes))
    ⊎ (((code ≡ 2) × (as_discrete_inputs response ≡ some bytes))
        ⊎ (((code ≡ 3) × (as_holding_registers response ≡ some bytes))
            ⊎ ((code ≡ 4) × (as_input_registers response ≡ some bytes))))

module _ {Fault Packet State : Type 0} (library : Transport Fault Packet State) where
  -- What the data of a response is, for the result of its extraction.
  abbrev pub Extracted : ℕ → Response → Result (ClientError Fault) (List ℕ) → Type 0
  Extracted code response result =
      ((result ≡ err unexpected_response) × ((bytes : List ℕ) → ¬ Carries code response bytes))
      ⊎ ((bytes : List ℕ) × (result ≡ ok bytes) × Carries code response bytes)

  typed-Carries :
      (code : ℕ) (response : Response) (o : Option (List ℕ))
      → ((bytes : List ℕ) → Carries code response bytes ↔ (o ≡ some bytes))
      → Extracted code response (typed library o)
  typed-Carries code response none h =
      inl (refl, λ bytes k. let e : none ≡ some bytes = (h bytes).0 k in elim (some≢none e) [ ])
  typed-Carries code response (some bytes) h = inr (bytes, refl, (h bytes).1 refl)

  typed_unless_nil :
      (code : ℕ) (response : Response) (o : Option (List ℕ))
      → ((bytes : List ℕ) → Carries code response bytes ↔ (o ≡ some bytes))
      → (is_nil response ≡ true → o ≡ none)
      → Extracted code response
          (if is_nil response then err unexpected_response else typed library o)
  typed_unless_nil code response o h k =
      if-elim (Extracted code response) (is_nil response)
        (λ n.
          subst (λ p. Extracted code response (typed library p)) (k n)
            (typed-Carries code response o h))
        (λ _. typed-Carries code response o h)

  pub extract_read_data-Carries :
      (code : ℕ) (response : Response)
      → (((code ≡ 1) ⊎ (code ≡ 2)) ⊎ ((code ≡ 3) ⊎ (code ≡ 4)))
      → Extracted code response (extract_read_data library code response)
  unfolding extract_read_data
  extract_read_data-Carries code response (inl (inl h)) =
      subst (λ c. Extracted c response (extract_read_data library c response)) (sym h)
        (typed_unless_nil 1 response (as_coils response) (λ bytes. ground arith)
          (nil_none response).0)
  extract_read_data-Carries code response (inl (inr h)) =
      subst (λ c. Extracted c response (extract_read_data library c response)) (sym h)
        (typed_unless_nil 2 response (as_discrete_inputs response) (λ bytes. ground arith)
          (nil_none response).1)
  extract_read_data-Carries code response (inr (inl h)) =
      subst (λ c. Extracted c response (extract_read_data library c response)) (sym h)
        (typed_unless_nil 3 response (as_holding_registers response) (λ bytes. ground arith)
          (nil_none response).2)
  extract_read_data-Carries code response (inr (inr h)) =
      subst (λ c. Extracted c response (extract_read_data library c response)) (sym h)
        (typed_unless_nil 4 response (as_input_registers response) (λ bytes. ground arith)
          (nil_none response).3)
