-- ===== src/Transport.antt =====
-- crates/vasal-core/src/transport: how the agent receives work and reports results. serde_json on
-- what is received, HTTP and tonic's streams are parameters.
pub mod Poll
pub mod Grpc
use vasal.Prelude.{ℕ, String, Option, List, Bool, FilePath}
use vasal.Prelude.Results.{Result}
use vasal.Protocol.Task.{Task, TaskChain, TaskResult}
use vasal.Codec.{Bytes}
use vasal.Host.{HttpReply}
use vasal.Host.Events.{Event}

-- `ReceivedWork`
pub data ReceivedWork (V : Type 0) : Type 0 where
  single : Task V → ReceivedWork V
  chain : TaskChain V → ReceivedWork V

-- Where opening a stream fails, or the number of the stream that is open.
pub data Opening : Type 0 where
  connect_failed hello_failed open_failed : String → Opening
  established : ℕ → Opening

-- The payload of a message of the control plane.
pub data Payload : Type 0 where
  task_bytes chain_bytes : Bytes → Payload
  ack : (accepted : Bool) (message : String) → Payload
  no_payload : Payload

-- What the next read of a stream gives.
pub data Incoming : Type 0 where
  message : Payload → Incoming
  ended : Incoming
  broken : String → Incoming

pub record Wire (V : Type 0) : Type 0 where
  -- the text that a GET gives
  pub get_text : List (Event V) → String → HttpReply
  pub parse_items : String → Result String (List V)
  pub read_task : V → Result String (Task V)
  pub read_chain : V → Result String (TaskChain V)
  pub result_json : TaskResult → V
  pub task_of_bytes : Bytes → Result String (Task V)
  pub chain_of_bytes : Bytes → Result String (TaskChain V)
  pub result_bytes : TaskResult → Result String Bytes
  -- tonic: a stream opened with the hello of an agent, read from, and written to
  pub open_stream : List (Event V) → (endpoint agent_id agent_version : String) → Opening
  pub next_message : List (Event V) → (stream : ℕ) → Incoming
  pub enqueue : List (Event V) → (stream : ℕ) → Bytes → Option String
