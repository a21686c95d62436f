-- ===== src/Server/Laws.antt =====
-- What a client of a sidecar may rely on.
use vasal.Prelude.{
  ◌≡◌, String, str_eq, Bool, false, ◌&&◌, ◌||◌, Option, none, some, [], arith, if◌then◌else◌,
  if_ind,
}
use vasal.Prelude.Int.{ℤ, pos}
use vasal.Prelude.Results.{Result, ok, err}
use vasal.Protocol.JsonRpc.{
  RequestId, integer, Request, Response, jsonrpc_version, failure, ErrorObject,
}
use vasal.Protocol.Errors.{
  method_not_found_code, invalid_request_code, parse_error_code, ProtocolError, to_object,
}
use vasal.Codec.{Bytes, encode, decode}
use vasal.Codec
use vasal.Codec.Frames.{Fits, frame, encode_ok}
use vasal.Server.{
  SidecarHandler, Wire, respond, dispatch_status, dispatch_cancel, dispatch, answer, send_response,
  reply_to, handle_connection, to_success_or_internal_error,
}

abbrev pub ExactlyOne : {A B : Type 0} → Option A → Option B → Type 0
ExactlyOne (some _) none = Unit
ExactlyOne none (some _) = Unit
ExactlyOne _ _ = ⊥

-- A JSON-RPC 2.0 response to the request `id`.
pub record Answers {V : Type 0} (id : RequestId) (r : Response V) : Type 0 where
  pub same_id : r.id ≡ id
  pub version : r.jsonrpc ≡ jsonrpc_version
  pub one_of : ExactlyOne r.result r.error

module _ {V : Type 0} (wire : Wire V) where
  failure-Answers : (id : RequestId) (e : ErrorObject V) → Answers id (failure id e)
  unfolding failure
  failure-Answers id e = ground arith

  written-Answers :
      (id : RequestId) (v : Result String V) → Answers id (to_success_or_internal_error wire id v)
  unfolding to_success_or_internal_error
  written-Answers id (ok v) = ground arith
  written-Answers id (err e) = ground arith

  respond-Answers :
      {A : Type 0} (id : RequestId) (write : A → Result String V) (r : Result (ProtocolError V) A)
      → Answers id (respond wire id write r)
  unfolding respond
  respond-Answers id write (ok a) = written-Answers id (write a)
  respond-Answers id write (err e) = failure-Answers id (to_object e)

-- The requests that reach the handler.
abbrev pub is_served : {V : Type 0} → Request V → Bool
is_served r =
    str_eq r.jsonrpc jsonrpc_version
    && (str_eq r.method "health"
        || str_eq r.method "submit"
        || str_eq r.method "status"
        || str_eq r.method "cancel")

abbrev pub error_code : {V : Type 0} → Response V → Option ℤ
error_code r = elim r.error [ none ↦ none | some e ↦ some e.code ]

module _ {V S : Type 0} (wire : Wire V) (handler : SidecarHandler V S) where
  send_response_sent :
      (response : Response V) (sent : Bytes)
      → send_response wire handler response ≡ ok (some sent)
      → (payload : Bytes) × (wire.write_response response ≡ ok payload)
        × (encode Codec.new payload [] ≡ (ok tt, sent))
  unfolding send_response
  send_response_sent response sent e = ground arith

  dispatch_status-Answers :
      (id : RequestId) (t : Result (ErrorObject V) String) (s : S)
      → Answers id (dispatch_status wire handler id t s).0
  unfolding dispatch_status
  dispatch_status-Answers id (err e) s = failure-Answers wire id e
  dispatch_status-Answers id (ok t) s = respond-Answers wire id wire.write_status _

  dispatch_cancel-Answers :
      (id : RequestId) (t : Result (ErrorObject V) String) (s : S)
      → Answers id (dispatch_cancel wire handler id t s).0
  unfolding dispatch_cancel
  dispatch_cancel-Answers id (err e) s = failure-Answers wire id e
  dispatch_cancel-Answers id (ok t) s = respond-Answers wire id wire.write_cancel _

  pub dispatch-Answers :
      (request : Request V) (s : S) → Answers request.id (dispatch wire handler request s).0
  unfolding dispatch
  dispatch-Answers request s =
      let P = λ (r : Response V × S). Answers request.id r.0 in
      if_ind P (str_eq request.method "health") (written-Answers wire request.id _) (
        if_ind P (str_eq request.method "submit")
          (respond-Answers wire request.id wire.write_submit _)
          (if_ind P (str_eq request.method "status") (dispatch_status-Answers request.id _ s) (
            if_ind P (str_eq request.method "cancel") (dispatch_cancel-Answers request.id _ s)
              (failure-Answers wire request.id _))))

  -- Every request that parses is answered under its own id, with a result or an error, never both.
  pub answer-Answers :
      (request : Request V) (s : S) → Answers request.id (answer wire handler request s).0
  unfolding answer
  answer-Answers request s =
      if_ind (λ (r : Response V × S). Answers request.id r.0)
        (str_eq request.jsonrpc jsonrpc_version) (dispatch-Answers request s)
        (failure-Answers wire request.id _)

  -- A request that is not served, for its version or its method, gets the error for that, and the
  -- handler is not run: its state stays.
  pub answer_unserved :
      (request : Request V) (s : S)
      → is_served request ≡ false
      → (error_code (answer wire handler request s).0
          ≡ some (
              if str_eq request.jsonrpc jsonrpc_version
              then method_not_found_code
              else invalid_request_code))
        × ((answer wire handler request s).1 ≡ s)
  unfolding answer
  answer_unserved request s h = ground arith

  -- A frame that is sent in answer is the frame of the response, serialised, to what was received.
  pub handle_connection_sent :
      (received sent : Bytes) (s s' : S)
      → handle_connection wire handler (some (ok received)) s ≡ (ok (some sent), s')
      → (payload : Bytes) × (wire.write_response
            (reply_to wire handler (wire.read_request received) s).0
          ≡ ok payload)
        × (sent ≡ frame payload)
        × Fits Codec.new payload
  unfolding handle_connection
  handle_connection_sent received sent s s' e =
      let response = (reply_to wire handler (wire.read_request received) s).0 in
      let (payload, written, encoded) = send_response_sent response sent (ground arith) in
      let (out, fits) = encode_ok Codec.new payload [] sent (omega arith) encoded in
      (payload, written, out, fits)

  -- Whatever arrives as a frame is answered as a JSON-RPC 2.0 response: under the request's id if it
  -- parses, else under the id 0 with the code of a parse error and without running the handler.
  pub reply_to-Answers : (read : Result String (Request V)) (s : S) → elim read as (λ _. Type 0) [
    | ok request ↦ Answers request.id (reply_to wire handler read s).0
    | err e ↦
        Answers (integer (pos 0)) (reply_to wire handler read s).0
        × (error_code (reply_to wire handler read s).0 ≡ some parse_error_code)
        × ((reply_to wire handler read s).1 ≡ s)
  ]
  unfolding reply_to
  reply_to-Answers (ok request) s = answer-Answers request s
  reply_to-Answers (err e) s =
      (failure-Answers wire (integer (pos 0)) _, ground arith, ground arith)
