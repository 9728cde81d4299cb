-- ===== src/Modbus/Failure.antt =====
-- backend/internal/protocol/modbus/error.go: what a failed request tells its user. The texts are
-- left out; they are printed from the failure and the request. What `errors.As` and `errors.Is` find
-- in an error is a view of it.
use iot_edge.Prelude.{ℕ, Bool, true, false, ◌||◌, Option, none, some, ◌==◌, if◌then◌else◌}
use iot_edge.Modbus.Request.{ReadRequest, last_address}

-- The exception codes that go-modbus-client names.
pub record ExceptionCodes : Type 0 where
  pub illegal_function : ℕ
  pub illegal_data_address : ℕ
  pub illegal_data_value : ℕ
  pub server_failure : ℕ
  pub acknowledge : ℕ
  pub server_busy : ℕ
  pub memory_parity_error : ℕ
  pub gateway_path_unavailable : ℕ
  pub gateway_targeted_device_response : ℕ

-- The names of exceptions, with what their explanations print.
pub data Exception : Type 0 where
  illegal_function : (function_code : ℕ) → Exception
  illegal_data_address : (first last : ℕ) → Exception
  illegal_data_value server_device_failure acknowledge server_device_busy : Exception
  memory_parity_error gateway_path_unavailable : Exception
  gateway_target_device_failed_to_respond unknown_exception : Exception

-- What an error's chain holds: a public request error, a Modbus exception and its code, a passed
-- deadline, a network error and whether that is a timeout, a cancelled context.
pub record View : Type 0 where
  pub is_public : Bool
  pub exception : Option ℕ
  pub deadline_exceeded : Bool
  pub net_timeout : Option Bool
  pub canceled : Bool

-- The member `failure_type` of the details, with the members that go with an exception.
pub data FailureType : Type 0 where
  timeout request_failed : FailureType
  exception : (code : ℕ) → Exception → FailureType

pub record Details : Type 0 where
  pub unit_id : ℕ
  pub function_code : ℕ
  pub start_address : ℕ
  pub quantity : ℕ
  pub failure_type : FailureType

-- An error as it was, or `requestError` around it.
pub data Classified : Type 0 where
  unchanged : Classified
  request_error : Details → Classified

unfoldable pub request_details : ReadRequest → FailureType → Details
request_details r failure = record {
  unit_id = r.unit_id;
  function_code = r.function_code;
  start_address = r.address;
  quantity = r.quantity;
  failure_type = failure;
}

module _ (codes : ExceptionCodes) where
  unfoldable pub modbus_exception_description : ℕ → ReadRequest → Exception
  modbus_exception_description code r =
      if code == codes.illegal_function
      then Exception.illegal_function r.function_code
      else if code == codes.illegal_data_address
      then Exception.illegal_data_address r.address (last_address r)
      else if code == codes.illegal_data_value
      then Exception.illegal_data_value
      else if code == codes.server_failure
      then Exception.server_device_failure
      else if code == codes.acknowledge
      then Exception.acknowledge
      else if code == codes.server_busy
      then Exception.server_device_busy
      else if code == codes.memory_parity_error
      then Exception.memory_parity_error
      else if code == codes.gateway_path_unavailable
      then Exception.gateway_path_unavailable
      else if code == codes.gateway_targeted_device_response
      then Exception.gateway_target_device_failed_to_respond
      else Exception.unknown_exception

  unfoldable pub new_modbus_exception_error : ReadRequest → ℕ → Classified
  unfolding request_details modbus_exception_description
  new_modbus_exception_error r code =
      request_error
        (request_details r (FailureType.exception code (modbus_exception_description code r)))

  abbrev pub is_timeout : View → Bool
  is_timeout v = v.deadline_exceeded || elim v.net_timeout [ none ↦ false | some t ↦ t ]

  abbrev pub exception_or_other : Option ℕ → View → ReadRequest → Classified
  exception_or_other (some code) v r = new_modbus_exception_error r code
  exception_or_other none v r =
      if is_timeout v
      then request_error (request_details r FailureType.timeout)
      else request_error (request_details r FailureType.request_failed)

  -- `classifyRequestError` of an error that is not nil.
  unfoldable pub classify_request_error : View → ReadRequest → Classified
  unfolding request_details new_modbus_exception_error
  classify_request_error v r = if v.is_public then unchanged else exception_or_other v.exception v r

-- `isModbusException`
abbrev pub is_modbus_exception : View → Bool
is_modbus_exception v = elim v.exception [ none ↦ false | some code ↦ true ]
