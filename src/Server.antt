-- ===== src/Server.antt =====
-- crates/vasal-sidecar-sdk/src/server.rs and handler.rs: one connection of a sidecar, from the
-- frame that arrives to the frame that is sent. The accept loop, which runs `handle_connection` for
-- each stream, is tokio's.
pub mod Laws
use vasal.Prelude.{
  ℕ, String, str_eq, Bool, not, Option, none, some, List, [], ◌∷◌, format, if◌then◌else◌,
}
use vasal.Prelude.Int.{pos}
use vasal.Prelude.Results.{Result, ok, err, map_err}
use vasal.Protocol.JsonRpc.{
  RequestId, integer, Request, Response, ErrorObject, jsonrpc_version, success, failure,
}
use vasal.Protocol.Errors.{
  ProtocolError, parse_error, invalid_request, method_not_found, invalid_params, internal_error,
  to_object,
}
use vasal.Protocol.Sidecar.{SubmitResponse, StatusResponse, CancelResponse, HealthResponse}
use vasal.Codec.{Bytes, encode}
use vasal.Codec

-- `trait SidecarHandler`: what a sidecar implements, over its own state.
pub record SidecarHandler (V S : Type 0) : Type 0 where
  pub health : S → HealthResponse V × S
  pub submit : V → S → Result (ProtocolError V) SubmitResponse × S
  pub status : String → S → Result (ProtocolError V) StatusResponse × S
  pub cancel : String → S → Result (ProtocolError V) CancelResponse × S

module _ {V S : Type 0} where
  -- The methods that the trait gives a sidecar which completes every task in `submit`.
  unfoldable pub default_status : String → S → Result (ProtocolError V) StatusResponse × S
  unfolding method_not_found
  default_status _ s = (err (method_not_found "status"), s)

  unfoldable pub default_cancel : String → S → Result (ProtocolError V) CancelResponse × S
  unfolding method_not_found
  default_cancel _ s = (err (method_not_found "cancel"), s)

-- serde_json as the server uses it, and the stream: why it refuses to take a frame.
pub record Wire (V : Type 0) : Type 0 where
  pub null : V
  pub read_request : Bytes → Result String (Request V)
  pub read_task_id : V → Result String String
  pub write_health : HealthResponse V → Result String V
  pub write_submit : SubmitResponse → Result String V
  pub write_status : StatusResponse → Result String V
  pub write_cancel : CancelResponse → Result String V
  pub write_response : Response V → Result String Bytes
  -- `{:?}` of a string
  pub debug : String → String
  pub refuse : Bytes → Option String

module _ {V : Type 0} (wire : Wire V) where
  unfoldable pub to_success_or_internal_error : RequestId → Result String V → Response V
  unfolding success failure internal_error to_object
  to_success_or_internal_error id (ok v) = success id v
  to_success_or_internal_error id (err e) =
      failure id (to_object (internal_error (format ("response serialization failed: " ∷ e ∷ []))))

  unfoldable pub extract_task_id : V → Result (ErrorObject V) String
  unfolding invalid_params to_object
  extract_task_id params = map_err (λ e. to_object (invalid_params e)) (wire.read_task_id params)

  -- A handler's result as a response.
  unfoldable pub respond {ℓ} :
      {A : Type ℓ} → RequestId → (A → Result String V) → Result (ProtocolError V) A → Response V
  unfolding to_success_or_internal_error failure to_object
  respond id write (ok a) = to_success_or_internal_error id (write a)
  respond id write (err e) = failure id (to_object e)

module _ {V S : Type 0} (wire : Wire V) (handler : SidecarHandler V S) where
  -- `Request::params`, with `Value::Null` where it is missing
  unfoldable pub params_of : Request V → V
  params_of request = elim request.params [ none ↦ wire.null | some p ↦ p ]

  unfoldable pub dispatch_status : RequestId → Result (ErrorObject V) String → S → Response V × S
  unfolding respond failure
  dispatch_status id (err e) s = (failure id e, s)
  dispatch_status id (ok task_id) s =
      let (result, s') = handler.status task_id s in (respond wire id wire.write_status result, s')

  unfoldable pub dispatch_cancel : RequestId → Result (ErrorObject V) String → S → Response V × S
  unfolding respond failure
  dispatch_cancel id (err e) s = (failure id e, s)
  dispatch_cancel id (ok task_id) s =
      let (result, s') = handler.cancel task_id s in (respond wire id wire.write_cancel result, s')

  unfoldable pub dispatch : Request V → S → Response V × S
  unfolding params_of dispatch_status dispatch_cancel respond extract_task_id method_not_found
  dispatch request s =
      let id = request.id in
      let params = params_of request in
      if str_eq request.method "health"
      then (let (result, s') = handler.health s in
          (to_success_or_internal_error wire id (wire.write_health result), s'))
      else if str_eq request.method "submit"
      then (let (result, s') = handler.submit params s in
          (respond wire id wire.write_submit result, s'))
      else if str_eq request.method "status"
      then dispatch_status id (extract_task_id wire params) s
      else if str_eq request.method "cancel"
      then dispatch_cancel id (extract_task_id wire params) s
      else (failure id (to_object (method_not_found request.method)), s)

  -- The answer to a frame that holds a request, before it is sent.
  unfoldable pub answer : Request V → S → Response V × S
  unfolding dispatch invalid_request failure to_object
  answer request s = if str_eq request.jsonrpc jsonrpc_version then dispatch request s else (
    failure request.id (
        to_object (
          invalid_request (
            format (
              "expected jsonrpc \""
              ∷ jsonrpc_version
              ∷ "\", got "
              ∷ wire.debug request.jsonrpc
              ∷ [])))),
    s,
  )

  -- `framed.send`: the frame that goes out, or why none does.
  unfoldable pub send_frame : Result String (Unit {0}) × Bytes → Result String (Option Bytes)
  send_frame (err e, _) = err e
  send_frame (ok _, bytes) = elim (wire.refuse bytes) [ none ↦ ok (some bytes) | some e ↦ err e ]

  unfoldable pub send_response : Response V → Result String (Option Bytes)
  unfolding encode send_frame
  send_response response = elim (wire.write_response response) [
    | err e ↦ err e
    | ok payload ↦ send_frame (encode Codec.new payload [])
  ]

  -- The answer to a whole frame: a request that does not parse is answered under the id 0.
  unfoldable pub reply_to : Result String (Request V) → S → Response V × S
  unfolding answer parse_error failure to_object
  reply_to (err e) s = (failure (integer (pos 0)) (to_object (parse_error e)), s)
  reply_to (ok request) s = answer request s

  -- What arrives is nothing, an unreadable frame, or a frame. The outcome is the frame sent, none
  -- where the client left, or the error that the connection's task logs.
  unfoldable pub handle_connection :
      Option (Result String Bytes) → S → Result String (Option Bytes) × S
  unfolding reply_to send_response
  handle_connection none s = (ok none, s)
  handle_connection (some (err e)) s = (err e, s)
  handle_connection (some (ok received)) s =
      let (response, s') = reply_to (wire.read_request received) s in (send_response response, s')
