-- ===== src/Exec/Call/Laws.antt =====
-- A call from crates/vasal-core to a server of crates/vasal-sidecar-sdk, from end to end.
use mathlib.Core.List.{append-nil}
use vasal.Prelude.{String, Option, none, some, [], ◌∷◌, ◌≡◌, refl, ap, subst, ◌∙◌, FilePath}
use vasal.Prelude.Int.{pos}
use vasal.Prelude.Results.{Result, ok, err}
use vasal.Protocol.JsonRpc.{Request, Response, integer, new_request}
use vasal.Codec
use vasal.Codec.{Bytes, encode, decode}
use vasal.Codec.Frames.{Fits, frame, encode-Fits, decode-frame}
use vasal.Host.{Env, Reply, closed}
use vasal.Host
use vasal.Host.Events.{connected}
use vasal.Host.Act.{World}
use vasal.Server.{
  SidecarHandler, Wire, answer, reply_to, send_frame, send_response, handle_connection,
}
use vasal.Server.Laws.{Answers, answer-Answers}
use vasal.Exec.Call.{connection, received, open_connection, exchange_frames, call_raw}

-- What a client reads of what a server sends: the payload of the frame, or a closed connection.
abbrev pub read_reply : Result String (Option Bytes) → Reply
read_reply (ok (some bytes)) = elim (decode Codec.new bytes).0 [
  | ok (some payload) ↦ Host.frame payload
  | ok none ↦ closed
  | err e ↦ closed
]
read_reply (ok none) = closed
read_reply (err e) = closed

read_reply-frame :
    (out : Bytes) → Fits Codec.new out → read_reply (ok (some (frame out))) ≡ Host.frame out
read_reply-frame out fits =
    let whole : decode Codec.new (frame out) ≡ (ok (some out), []) =
      subst (λ (l : Bytes). decode Codec.new l ≡ (ok (some out), [])) (append-nil (frame out))
        (decode-frame Codec.new out fits []) in
    rw (whole, read_reply) refl

module _ {V S : Type 0} (wire : Wire V) (handler : SidecarHandler V S) where
  response-sends :
      (response : Response V) (out : Bytes)
      → wire.write_response response ≡ ok out
      → wire.refuse (frame out) ≡ none
      → Fits Codec.new out
      → send_response wire handler response ≡ ok (some (frame out))
  unfolding send_response send_frame
  response-sends response out written taken fits =
      rw (written, send_response)
        (rw (encode-Fits Codec.new out [] fits) (rw (taken, send_frame) refl))

  connection-sends :
      (payload out : Bytes) (request : Request V) (s : S)
      → wire.read_request payload ≡ ok request
      → wire.write_response (answer wire handler request s).0 ≡ ok out
      → wire.refuse (frame out) ≡ none
      → Fits Codec.new out
      → (handle_connection wire handler (some (ok payload)) s).0 ≡ ok (some (frame out))
  unfolding handle_connection reply_to
  connection-sends payload out request s read written taken fits =
      rw read (response-sends (answer wire handler request s).0 out written taken fits)

module _ {V S : Type 0} (env : Env V) (wire : Wire V) (handler : SidecarHandler V S) where
  -- A call whose connection is served by `handle_connection`, where both sides read what the other
  -- writes and no frame is too large: the client gets the response that the handler's dispatch made
  -- for its request, and it answers the id 1.
  pub call_raw-answer :
      (path : FilePath) (method : String) (params : Option V) (payload out : Bytes) (s : S)
      (w : World V)
      → env.connect w.trace path ≡ none
      → env.encode_request (new_request method params (integer (pos 1))) ≡ ok payload
      → Fits Codec.new payload
      → wire.read_request payload ≡ ok (new_request method params (integer (pos 1)))
      → wire.write_response (answer wire handler (new_request method params (integer (pos 1))) s).0
        ≡ ok out
      → Fits Codec.new out
      → wire.refuse (frame out) ≡ none
      → env.decode_response out
        ≡ ok (answer wire handler (new_request method params (integer (pos 1))) s).0
      → env.exchange (connected path ∷ w.trace) path payload
        ≡ read_reply (handle_connection wire handler (some (ok payload)) s).0
      → ((call_raw env path method params w).0
          ≡ ok (answer wire handler (new_request method params (integer (pos 1))) s).0)
        × Answers
            (integer (pos 1))
            (answer wire handler (new_request method params (integer (pos 1))) s).0
  unfolding call_raw open_connection connection exchange_frames received
  call_raw-answer path method params payload out s w connects encoded fits read written fits' taken
        decoded served =
      let sends =
        connection-sends wire handler payload out (new_request method params (integer (pos 1))) s
          read written taken fits' in
      let reply : env.exchange (connected path ∷ w.trace) path payload ≡ Host.frame out =
        served ∙ ap read_reply sends ∙ read_reply-frame out fits' in
      (
        rw connects
            (rw encoded (rw (encode-Fits Codec.new payload [] fits) (rw reply (rw decoded refl)))),
        answer-Answers wire handler (new_request method params (integer (pos 1))) s,
      )
