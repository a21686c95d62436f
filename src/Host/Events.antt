-- ===== src/Host/Events.antt =====
-- What the agent does to the outside.
use vasal.Prelude.{ℕ, String, Option, List, FilePath}
use vasal.Protocol.Task.{Uuid, TaskResult}
use vasal.Codec.{Bytes}

-- `tokio::process::Command` for `/bin/sh -c script`: its environment and working directory.
pub record Command : Type 0 where
  pub script : String
  pub variables : List (String × String)
  pub working_dir : Option String

-- What is done to a file, or to a directory.
pub data FileOp : Type 0 where
  write_file copy_file rename_file remove_file read_file set_mode create_dir : FileOp

pub data Event (V : Type 0) : Type 0 where
  -- a connection attempt, and the request sent over a connection
  connected : FilePath → Event V
  requested : FilePath → Bytes → Event V
  posted : String → Option V → Event V
  spawned : Command → Event V
  -- a wait for a child, for at most so many milliseconds, and the kill that follows a lost race
  waited : ℕ → Event V
  killed : Event V
  -- output written to a spill file
  spilled : FilePath → Bytes → Event V
  filed : FileOp → FilePath → Event V
  -- a file fetched over HTTP
  downloaded : String → Event V
  -- a stream to the control plane: opened, read from, written to
  opened : String → Event V
  read_stream : ℕ → Event V
  queued : ℕ → Bytes → Event V
  -- a program run with its arguments: waited for, or left running
  ran : (program : String) (arguments : List String) → Event V
  started : (program : String) (arguments : List String) → Event V
  -- a sleep of so many milliseconds
  slept : ℕ → Event V
  -- a sleep that nothing interrupts
  rested : ℕ → Event V
  -- a statement sent to the state database
  sql : Event V
  -- a result put on the channel to the reporting loop
  sent : TaskResult → Event V
  -- log lines of the chain executor, with the chain and the step
  chain_step : Uuid → ℕ → Event V
  chain_cancelled : Uuid → ℕ → Event V
  rollback_step : Uuid → ℕ → Event V
  rollback_skipped : Uuid → ℕ → Event V
