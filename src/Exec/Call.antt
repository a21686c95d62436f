-- ===== src/Exec/Call.antt =====
-- crates/vasal-core/src/task/sidecar.rs: `call_raw`, one JSON-RPC request over a fresh connection.
pub mod Laws
use vasal.Prelude.{String, Option, none, some, [], ◌∷◌, FilePath, format}
use vasal.Prelude.Int.{pos}
use vasal.Prelude.Results.{Result, ok, err, map_err}
use vasal.Protocol.JsonRpc.{Response, integer, new_request}
use vasal.Codec
use vasal.Codec.{Bytes, encode}
use vasal.Host.{Env, Reply, never_answered, send_failed, closed, read_failed, frame}
use vasal.Host.Events.{connected, requested}
use vasal.Host.Act.{happen}
use vasal.Host.Attempt.{Error, unanswered, transport, json, Attempt, of_result, ◌>>=◌, ◌>>◌}

unfoldable pub connection : FilePath → Option String → Result Error (Unit {0})
connection path none = ok tt
connection path (some e) =
    err (transport (format ("failed to connect to sidecar at " ∷ path ∷ ": " ∷ e ∷ [])))

unfoldable pub send_error : String → Error
send_error e = transport (format ("failed to send to sidecar: " ∷ e ∷ []))

unfoldable pub received : Reply → Result Error Bytes
received never_answered = err unanswered
received (send_failed e) = err (send_error e)
received closed = err (transport "sidecar closed connection without responding")
received (read_failed e) = err (transport (format ("failed to read sidecar response: " ∷ e ∷ [])))
received (frame bytes) = ok bytes

module _ {V : Type 0} (env : Env V) where
  unfoldable pub open_connection : FilePath → Attempt V (Unit {0})
  unfolding connection
  open_connection path w = (connection path (env.connect w.trace path), happen (connected path) w)

  unfoldable pub exchange_frames : FilePath → Bytes → Attempt V Bytes
  unfolding received send_error
  exchange_frames path bytes w =
      (received (env.exchange w.trace path bytes), happen (requested path bytes) w)

  unfoldable pub call_raw : FilePath → String → Option V → Attempt V (Response V)
  unfolding open_connection exchange_frames new_request encode send_error
  call_raw path method params = do
    open_connection path
    payload ←
        of_result (map_err json (env.encode_request (new_request method params (integer (pos 1)))))
    of_result (map_err send_error (encode Codec.new payload []).0)
    reply ← exchange_frames path payload
    of_result (map_err json (env.decode_response reply))
