-- ===== src/Protocol/Units.antt =====
-- crates/vasal-protocol/src/unit.rs: managed units.
use vasal.Prelude.{ℕ, String, Option, FilePath}

pub data UnitKind : Type 0 where
  sidecar package_unit : UnitKind

pub data UnitState : Type 0 where
  installed running stopped absent : UnitState

abbrev pub default_state : UnitState
default_state = absent

pub record Artifact : Type 0 where
  pub url : String
  pub sha256 : String

pub record HealthCheck : Type 0 where
  pub command : String
  pub timeout_ms : ℕ

abbrev pub default_health_timeout_ms : ℕ
default_health_timeout_ms = 5000

pub record ManagedUnit (V : Type 0) : Type 0 where
  pub name : String
  pub kind : UnitKind
  pub version : String
  pub artifact : Artifact
  pub state : UnitState
  pub health_check : Option HealthCheck
  pub config : Option V
  pub socket_path : Option FilePath
