-- ===== src/Protocol/Sidecar.antt =====
-- crates/vasal-protocol/src/sidecar.rs: the payloads of sidecar calls.
use vasal.Prelude.{String, Bool, true, false, Option}

pub data SubmitResponse : Type 0 where
  completed : (stdout stderr : String) (truncated : Bool) → SubmitResponse
  failed : (error stderr : String) → SubmitResponse
  accepted : (task_id : String) → SubmitResponse

unfoldable pub submit_is_terminal : SubmitResponse → Bool
submit_is_terminal (accepted _) = false
submit_is_terminal _ = true

pub data StatusResponse : Type 0 where
  running : StatusResponse
  completed : (stdout stderr : String) (truncated : Bool) → StatusResponse
  failed : (error stderr : String) → StatusResponse
  cancelled : StatusResponse

unfoldable pub status_is_terminal : StatusResponse → Bool
status_is_terminal running = false
status_is_terminal _ = true

pub record TaskIdParams : Type 0 where
  pub task_id : String

pub record CancelResponse : Type 0 where
  pub cancelled : Bool

pub data HealthStatus : Type 0 where
  healthy degraded unhealthy : HealthStatus

pub record HealthResponse (V : Type 0) : Type 0 where
  pub status : HealthStatus
  pub version : Option String
  pub error : Option String
  pub metadata : Option V
