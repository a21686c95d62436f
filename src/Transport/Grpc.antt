-- ===== src/Transport/Grpc.antt =====
-- crates/vasal-core/src/transport/grpc.rs: the stream to the control plane, with reconnection. A
-- stream is its number; the two halves that `GrpcInner` holds are of the same stream.
pub mod Laws
use vasal.Prelude.{ℕ, ◌*◌, min, String, Option, none, some, List, [], ◌∷◌, Bool, format}
use vasal.Prelude.Results.{Result, ok, err}
use vasal.Codec.{Bytes}
use vasal.Protocol.Task.{Task, TaskChain, TaskResult}
use vasal.Host.Events.{rested, opened, read_stream, queued}
use vasal.Host.Act
use vasal.Host.Act.{Act, happen, ask}
use vasal.Host.Attempt
use vasal.Host.Attempt.{Error, transport, json, Attempt, of_result, ◌>>=◌, ◌>>◌}
use vasal.Transport.{
  Wire, ReceivedWork, single, chain, Opening, connect_failed, hello_failed, open_failed,
  established, Payload, task_bytes, chain_bytes, ack, no_payload, Incoming, message, ended, broken,
}

-- `MAX_BACKOFF` and `INITIAL_BACKOFF`, in seconds
abbrev pub max_backoff : ℕ
max_backoff = 30

abbrev pub initial_backoff : ℕ
initial_backoff = 1

pub record GrpcInner : Type 0 where
  pub outbound_tx : Option ℕ
  pub inbound_stream : Option ℕ
  pub backoff : ℕ

pub record GrpcTransport : Type 0 where
  pub endpoint : String
  pub agent_id : String
  pub agent_version : String

-- `GrpcTransport::new`, its inner state
abbrev pub new : GrpcInner
new = record { outbound_tx = none; inbound_stream = none; backoff = initial_backoff }

unfoldable pub connection : Opening → Result Error ℕ
connection (connect_failed e) = err (transport (format ("gRPC connect failed: " ∷ e ∷ [])))
connection (hello_failed e) = err (transport (format ("failed to enqueue hello: " ∷ e ∷ [])))
connection (open_failed e) = err (transport (format ("gRPC stream open failed: " ∷ e ∷ [])))
connection (established stream) = ok stream

module _ {V : Type 0} (wire : Wire V) where
  unfoldable pub connect : GrpcTransport → Attempt V ℕ
  unfolding connection
  connect self = do
    answer ← Attempt.lift (
        ask (λ t. wire.open_stream t self.endpoint self.agent_id self.agent_version)
          (opened self.endpoint))
    of_result (connection answer)

  unfoldable pub task_work : Result String (Task V) → List (ReceivedWork V)
  task_work (ok t) = single t ∷ []
  task_work (err _) = []

  unfoldable pub chain_work : Result String (TaskChain V) → List (ReceivedWork V)
  chain_work (ok c) = chain c ∷ []
  chain_work (err _) = []

  -- `decode_work`, its result as the list that is returned
  unfoldable pub decode_work : Payload → List (ReceivedWork V)
  unfolding task_work chain_work
  decode_work (task_bytes bytes) = task_work (wire.task_of_bytes bytes)
  decode_work (chain_bytes bytes) = chain_work (wire.chain_of_bytes bytes)
  decode_work (ack accepted text) = []
  decode_work no_payload = []

  abbrev pub Received : Type 0
  Received = Result Error (List (ReceivedWork V)) × GrpcInner

  -- The stream and the channel let go.
  unfoldable pub closed : GrpcInner → GrpcInner
  closed inner = record inner { outbound_tx = none; inbound_stream = none }

  unfoldable pub on_incoming : GrpcInner → Incoming → Received
  unfolding decode_work closed
  on_incoming inner (message payload) = (ok (decode_work payload), inner)
  on_incoming inner ended = (ok [], closed inner)
  on_incoming inner (broken e) =
      (err (transport (format ("gRPC stream error: " ∷ e ∷ []))), closed inner)

  unfoldable pub read_from : GrpcInner → (stream : ℕ) → Act V Received
  unfolding on_incoming
  read_from inner stream w =
      (on_incoming inner (wire.next_message w.trace stream), happen (read_stream stream) w)

  -- The outcome of connecting: the stream is read, or the backoff is waited for and doubled.
  unfoldable pub on_connect : GrpcInner → Result Error ℕ → Act V Received
  unfolding read_from
  on_connect inner (ok stream) w =
      read_from
        (record {
          outbound_tx = some stream;
          inbound_stream = some stream;
          backoff = initial_backoff;
        })
        stream w
  on_connect inner (err _) w = (
    (ok [], record inner { backoff = min (inner.backoff * 2) max_backoff }),
    happen (rested (inner.backoff * 1000)) w,
  )

  unfoldable pub reconnect : GrpcTransport → GrpcInner → Act V Received
  unfolding connect on_connect
  reconnect self inner w = let (r, w') = connect self w in on_connect inner r w'

  unfoldable pub recv_with :
      GrpcTransport → GrpcInner → (inbound outbound : Option ℕ) → Act V Received
  unfolding reconnect read_from
  recv_with self inner none outbound = reconnect self inner
  recv_with self inner (some stream) none = reconnect self inner
  recv_with self inner (some stream) (some tx) = read_from inner stream

  unfoldable pub recv_tasks : GrpcTransport → GrpcInner → Act V Received
  unfolding recv_with
  recv_tasks self inner = recv_with self inner inner.inbound_stream inner.outbound_tx

  unfoldable pub bytes_of : Result String Bytes → Result Error Bytes
  bytes_of (ok bytes) = ok bytes
  bytes_of (err e) = err (json e)

  unfoldable pub enqueued : Option String → Result Error (Unit {0})
  enqueued none = ok tt
  enqueued (some e) = err (transport (format ("failed to send result via gRPC: " ∷ e ∷ [])))

  unfoldable pub send_on : Option ℕ → TaskResult → Attempt V (Unit {0})
  unfolding bytes_of enqueued
  send_on none result = Attempt.fail (transport "gRPC not connected")
  send_on (some tx) result = do
    bytes ← of_result (bytes_of (wire.result_bytes result))
    answer ← Attempt.lift (ask (λ t. wire.enqueue t tx bytes) (queued tx bytes))
    of_result (enqueued answer)

  unfoldable pub send_result : GrpcInner → TaskResult → Attempt V (Unit {0})
  unfolding send_on
  send_result inner result = send_on inner.outbound_tx result
