-- ===== src/Protocol/Errors.antt =====
-- crates/vasal-protocol/src/error.rs: error codes, their constructors and the conversions.
use vasal.Prelude.{String, Option, none, some, [], ◌∷◌, format}
use vasal.Prelude.Int.{ℤ, neg, int_text}
use vasal.Protocol.JsonRpc.{ErrorObject}

abbrev pub parse_error_code : ℤ
parse_error_code = neg 32700

abbrev pub invalid_request_code : ℤ
invalid_request_code = neg 32600

abbrev pub method_not_found_code : ℤ
method_not_found_code = neg 32601

abbrev pub invalid_params_code : ℤ
invalid_params_code = neg 32602

abbrev pub internal_error_code : ℤ
internal_error_code = neg 32603

abbrev pub execution_timeout_code : ℤ
execution_timeout_code = neg 32000

abbrev pub task_not_found_code : ℤ
task_not_found_code = neg 32001

abbrev pub task_already_cancelled_code : ℤ
task_already_cancelled_code = neg 32002

abbrev pub credential_error_code : ℤ
credential_error_code = neg 32003

abbrev pub target_unreachable_code : ℤ
target_unreachable_code = neg 32004

abbrev pub capacity_exceeded_code : ℤ
capacity_exceeded_code = neg 32005

pub record ProtocolError (V : Type 0) : Type 0 where
  pub code : ℤ
  pub message : String
  pub detail : Option V

module _ {V : Type 0} where
  abbrev pub new : ℤ → String → ProtocolError V
  new code message = record { code = code; message = message; detail = none }

  unfoldable pub with_data : ProtocolError V → V → ProtocolError V
  with_data e v = record e { detail = some v }

  unfoldable pub parse_error : String → ProtocolError V
  parse_error detail = new parse_error_code detail

  unfoldable pub invalid_request : String → ProtocolError V
  invalid_request detail = new invalid_request_code detail

  unfoldable pub method_not_found : String → ProtocolError V
  method_not_found method = new method_not_found_code (format ("method not found: " ∷ method ∷ []))

  unfoldable pub invalid_params : String → ProtocolError V
  invalid_params detail = new invalid_params_code detail

  unfoldable pub internal_error : String → ProtocolError V
  internal_error detail = new internal_error_code detail

  unfoldable pub execution_timeout : ProtocolError V
  execution_timeout = new execution_timeout_code "execution timeout"

  unfoldable pub task_not_found : String → ProtocolError V
  task_not_found task_id = new task_not_found_code (format ("task not found: " ∷ task_id ∷ []))

  unfoldable pub task_already_cancelled : String → ProtocolError V
  task_already_cancelled task_id =
      new task_already_cancelled_code (format ("task already cancelled: " ∷ task_id ∷ []))

  unfoldable pub credential_error : String → ProtocolError V
  credential_error detail = new credential_error_code detail

  unfoldable pub target_unreachable : String → ProtocolError V
  target_unreachable detail = new target_unreachable_code detail

  unfoldable pub capacity_exceeded : String → ProtocolError V
  capacity_exceeded detail = new capacity_exceeded_code detail

  -- `impl fmt::Display for ProtocolError`
  unfoldable pub error_text : ProtocolError V → String
  unfolding int_text
  error_text e = format ("[" ∷ int_text e.code ∷ "] " ∷ e.message ∷ [])

  -- `impl From<ProtocolError> for ErrorObject`
  unfoldable pub to_object : ProtocolError V → ErrorObject V
  to_object e = record { code = e.code; message = e.message; detail = e.detail }

  -- `impl From<ErrorObject> for ProtocolError`
  unfoldable pub from_object : ErrorObject V → ProtocolError V
  from_object e = record { code = e.code; message = e.message; detail = e.detail }
