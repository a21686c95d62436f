-- ===== src/Host.antt =====
-- What the agent runs on. The operating system, tokio, SQLite, reqwest, serde_json, uuid and sha2
-- are not part of the repository: `Env` takes them as parameters. An answer of the outside may
-- depend on all that happened before it, so it is a function of the trace, which holds what the
-- agent did, the latest first. Between two events the clock stands still.
pub mod Events
pub mod Act
pub mod Attempt
pub mod Files
pub mod Hoare
pub mod System
pub mod Run
use vasal.Prelude.{ℕ, String, Bool, Option, List, FilePath}
use vasal.Prelude.Int.{ℤ}
use vasal.Prelude.Results.{Result}
use vasal.Protocol.JsonRpc.{Request, Response}
use vasal.Protocol.Sidecar.{SubmitResponse, StatusResponse}
use vasal.Protocol.Credential.{CredentialRef}
use vasal.Protocol.Task.{Uuid}
use vasal.Codec.{Bytes}
use vasal.Host.Events.{Event, Command}

abbrev pub Trace : Type 0 → Type 0
Trace V = List (Event V)

-- What a connected socket answers to one request, if it ever does.
pub data Reply : Type 0 where
  never_answered : Reply
  send_failed : String → Reply
  closed : Reply
  read_failed : String → Reply
  frame : Bytes → Reply

-- `std::process::ExitStatus`: the code, and none after a signal.
pub record ExitStatus : Type 0 where
  pub code : Option ℤ

-- Which branch of the `select!` over a child process ran, with what it gave.
pub data ChildEnd : Type 0 where
  cancelled timed_out : ChildEnd
  exited : (status : ExitStatus) (stdout stderr : Bytes) → ChildEnd
  -- it exited, and another process keeps its output open for ever
  left_open : ChildEnd
  wait_failed : String → ChildEnd

-- What `send().await` and `text().await` give.
pub data HttpReply : Type 0 where
  send_error : String → HttpReply
  bad_status : (status : String) → HttpReply
  body_error : String → HttpReply
  body : String → HttpReply

pub record Env (V : Type 0) : Type 0 where
  -- serde_json
  pub null : V
  pub is_null : V → Bool
  pub get : V → String → Option V
  pub as_str : V → Option String
  pub is_object : V → Bool
  pub insert : V → String → V → V
  pub json_text : V → String
  pub parse_json : String → Result String V
  pub encode_request : Request V → Result String Bytes
  pub decode_response : Bytes → Result String (Response V)
  pub read_submit : V → Result String SubmitResponse
  pub read_status : V → Result String StatusResponse
  -- `json!`
  pub text : String → V
  pub number : ℕ → V
  pub array : List V → V
  pub object : List (String × V) → V
  pub task_id_json : String → V
  pub credentials_json : List (String × String) → V
  pub references_json : List (CredentialRef V) → Result String V
  -- `String::from_utf8_lossy`
  pub lossy : Bytes → String
  -- uuid: the text of one, and the file under /tmp/vasal/output that a fresh one names
  pub spill_path : Trace V → FilePath
  pub uuid_text : Uuid → String
  -- the clocks: a monotonic one in nanoseconds, and the wall's milliseconds
  pub instant : Trace V → ℕ
  pub wall_ms : Trace V → ℕ
  -- tokio: whether a token is cancelled, and whether it was before a sleep ended
  pub is_cancelled : Trace V → Bool
  pub cancelled_in_sleep : Trace V → ℕ → Bool
  -- sockets, HTTP, processes
  pub connect : Trace V → FilePath → Option String
  pub exchange : Trace V → FilePath → Bytes → Reply
  pub post : Trace V → String → Option V → HttpReply
  pub spawn : Trace V → Command → Option String
  pub wait : Trace V → ℕ → ChildEnd
  -- SQLite: why it refuses a statement
  pub refuse : Trace V → Option String
