-- ===== src/Protocol/Heartbeat.antt =====
-- crates/vasal-protocol/src/heartbeat.rs: what the agent reports about itself.
use vasal.Prelude.{ℕ, String, Option, List}
use vasal.Protocol.Sidecar.{HealthStatus}
use vasal.Protocol.Units.{UnitKind}
use vasal.Protocol.Task.{Uuid}

pub record ActiveTaskCounts : Type 0 where
  pub oneshot : ℕ
  pub continuous : ℕ
  pub total : ℕ

pub record UnitReport : Type 0 where
  pub name : String
  pub kind : UnitKind
  pub version : String
  pub state : String
  pub health : Option HealthStatus
  pub pid : Option ℕ
  pub health_error : Option String

pub record Heartbeat : Type 0 where
  pub agent_id : Uuid
  pub agent_version : String
  pub uptime_sec : ℕ
  pub timestamp : ℕ
  pub units : List UnitReport
  pub active_tasks : ActiveTaskCounts
