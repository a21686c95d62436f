-- ===== src/Transport/Poll.antt =====
-- crates/vasal-core/src/transport/poll.rs: tasks fetched and results reported over HTTP.
pub mod Laws
use vasal.Prelude.{
  ℕ, ◌*◌, String, str_eq, Option, none, some, List, [], ◌∷◌, Bool, true, false, ◌||◌, format,
  if◌then◌else◌,
}
use vasal.Prelude.Results.{Result, ok, err}
use vasal.Protocol.Task.{Task, TaskChain, TaskResult}
use vasal.Host.{Env, HttpReply, send_error, bad_status, body_error, body}
use vasal.Host.Events.{rested, downloaded, posted}
use vasal.Host.Act.{emit, ask}
use vasal.Host.Attempt
use vasal.Host.Attempt.{Error, http, transport, json, Attempt, of_result, ◌>>=◌, ◌>>◌}
use vasal.Host.System.{System}
use vasal.Transport.{Wire, ReceivedWork, single, chain}

pub record PollTransport : Type 0 where
  pub endpoint : String
  pub poll_interval_sec : ℕ

-- The text of a reply, and the error of a status that is no success.
unfoldable pub polled : HttpReply → Result Error String
polled (send_error e) = err (http e)
polled (bad_status status) = err (transport (format ("task poll returned HTTP " ∷ status ∷ [])))
polled (body_error e) = err (http e)
polled (body text) = ok text

-- The status of the reply to a result; its body is not read.
unfoldable pub reported : HttpReply → Result Error (Unit {0})
reported (send_error e) = err (http e)
reported (bad_status status) =
    err (transport (format ("result report returned HTTP " ∷ status ∷ [])))
reported (body_error e) = ok tt
reported (body text) = ok tt

module _ {V : Type 0} (env : Env V) (sys : System V) (wire : Wire V) where
  -- What cannot be read is logged and left out.
  unfoldable pub push_chain :
      Result String (TaskChain V) → List (ReceivedWork V) → List (ReceivedWork V)
  push_chain (ok c) work = chain c ∷ work
  push_chain (err _) work = work

  unfoldable pub push_task : Result String (Task V) → List (ReceivedWork V) → List (ReceivedWork V)
  push_task (ok t) work = single t ∷ work
  push_task (err _) work = work

  unfoldable pub push_item : V → List (ReceivedWork V) → List (ReceivedWork V)
  unfolding push_chain push_task
  push_item item work = elim (env.get item "steps") [
    | some _ ↦ push_chain (wire.read_chain item) work
    | none ↦ push_task (wire.read_task item) work
  ]

  unfoldable pub decode_items : List V → List (ReceivedWork V)
  unfolding push_item
  decode_items [] = []
  decode_items (item ∷ items) = push_item item (decode_items items)

  unfoldable pub parsed : Result String (List V) → Result Error (List (ReceivedWork V))
  unfolding decode_items
  parsed (ok items) = ok (decode_items items)
  parsed (err e) = err (json e)

  unfoldable pub decode_body : String → Result Error (List (ReceivedWork V))
  unfolding parsed
  decode_body text =
      if str_eq (sys.trim text) "" || str_eq (sys.trim text) "[]"
      then ok []
      else parsed (wire.parse_items text)

  unfoldable pub recv_tasks : PollTransport → Attempt V (List (ReceivedWork V))
  unfolding polled decode_body
  recv_tasks self = do
    Attempt.lift (emit (rested (self.poll_interval_sec * 1000)))
    let url = format (self.endpoint ∷ "/tasks/pending" ∷ [])
    reply ← Attempt.lift (ask (λ t. wire.get_text t url) (downloaded url))
    text ← of_result (polled reply)
    of_result (decode_body text)

  unfoldable pub send_result : PollTransport → TaskResult → Attempt V (Unit {0})
  unfolding reported
  send_result self result = do
    let url = format (self.endpoint ∷ "/tasks/result" ∷ [])
    let payload = some (wire.result_json result)
    reply ← Attempt.lift (ask (λ t. env.post t url payload) (posted url payload))
    of_result (reported reply)
