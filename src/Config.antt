-- ===== src/Config.antt =====
-- crates/vasal-core/src/config.rs: the configuration, its hot-reloadable part, its lints and what a
-- reload logs. TOML (`Config::load`) is not modelled; a default below is what serde puts for a
-- missing field.
pub mod Defaults
pub mod Laws
use vasal.Prelude.{
  ℕ, String, str_eq, Option, none, some, List, [], ◌∷◌, ◌++◌, Bool, true, false, not, ◌||◌, ◌==◌,
  FilePath, format, if◌then◌else◌,
}

pub record AgentConfig : Type 0 where
  pub id : Option ℕ
  pub name : Option String
  pub data_dir : FilePath
  pub socket_dir : FilePath
  pub log_level : String

pub data TransportMode : Type 0 where
  poll grpc : TransportMode

abbrev pub default_mode : TransportMode
default_mode = poll

pub record PollConfig : Type 0 where
  pub endpoint : String
  pub interval_sec : ℕ

pub record GrpcConfig : Type 0 where
  pub endpoint : String
  pub reconnect_interval_sec : ℕ

pub record TransportConfig : Type 0 where
  pub mode : TransportMode
  pub poll_section : Option PollConfig
  pub grpc_section : Option GrpcConfig

pub record HeartbeatConfig : Type 0 where
  pub interval_sec : ℕ
  pub endpoint : String

pub record AuditConfig : Type 0 where
  pub endpoint : String
  pub batch_size : ℕ
  pub flush_interval_sec : ℕ

pub record AuthConfig : Type 0 where
  pub provider : String
  pub token_file : FilePath

pub record ShellConfig : Type 0 where
  pub default_timeout_ms : ℕ
  pub max_concurrent : ℕ
  pub working_dir : FilePath

pub record UnitsConfig : Type 0 where
  pub artifact_cache_dir : FilePath
  pub health_check_interval_sec : ℕ

pub record TelemetryConfig : Type 0 where
  pub enabled : Bool
  pub otlp_endpoint : String
  pub service_name : String

pub record Config : Type 0 where
  pub agent : AgentConfig
  pub transport : TransportConfig
  pub heartbeat : HeartbeatConfig
  pub audit : AuditConfig
  pub auth : AuthConfig
  pub shell : ShellConfig
  pub units : UnitsConfig
  pub telemetry : TelemetryConfig

-- `TelemetryConfig::default`
abbrev pub default_telemetry : TelemetryConfig
default_telemetry = record {
  enabled = false;
  otlp_endpoint = Defaults.otlp_endpoint;
  service_name = Defaults.service_name;
}

pub record RuntimeConfig : Type 0 where
  pub log_level : String
  pub max_concurrent : ℕ
  pub heartbeat_interval_sec : ℕ
  pub health_check_interval_sec : ℕ
  pub audit_batch_size : ℕ
  pub audit_flush_interval_sec : ℕ

unfoldable pub runtime : Config → RuntimeConfig
runtime c = record {
  log_level = c.agent.log_level;
  max_concurrent = c.shell.max_concurrent;
  heartbeat_interval_sec = c.heartbeat.interval_sec;
  health_check_interval_sec = c.units.health_check_interval_sec;
  audit_batch_size = c.audit.batch_size;
  audit_flush_interval_sec = c.audit.flush_interval_sec;
}

pub data LintSeverity : Type 0 where
  error warning : LintSeverity

pub record ConfigLint : Type 0 where
  pub severity : LintSeverity
  pub message : String

-- `if test { results.push(lint) }`
unfoldable pub lint_if : Bool → LintSeverity → String → List ConfigLint
lint_if test severity message =
    if test then record { severity = severity; message = message } ∷ [] else []

abbrev pub is_missing : {A : Type 0} → Option A → Bool
is_missing none = true
is_missing (some a) = false

unfoldable pub lint_transport : TransportConfig → TransportMode → List ConfigLint
unfolding lint_if
lint_transport t poll =
    lint_if (is_missing t.poll_section) error "transport.mode=poll but [transport.poll] missing"
lint_transport t grpc =
    lint_if (is_missing t.grpc_section) error "transport.mode=grpc but [transport.grpc] missing"

-- `exists` is `Path::exists` at the time of the call, and `debug` the `{:?}` of a path.
unfoldable pub lint :
    (exists : FilePath → Bool) → (debug : FilePath → String) → Config → List ConfigLint
unfolding lint_if lint_transport
lint exists debug c =
    lint_if (str_eq c.auth.provider "" || str_eq c.auth.provider "none") warning
      "auth disabled, running unauthenticated"
    ++ lint_transport c.transport c.transport.mode
    ++ lint_if (c.shell.max_concurrent == 0) error "shell.max_concurrent is 0"
    ++ lint_if (not (exists c.agent.data_dir)) warning
        (format ("agent.data_dir " ∷ debug c.agent.data_dir ∷ " does not exist" ∷ []))
    ++ lint_if (str_eq c.heartbeat.endpoint "") warning "heartbeat.endpoint empty"

abbrev pub mode_eq : TransportMode → TransportMode → Bool
mode_eq poll poll = true
mode_eq poll grpc = false
mode_eq grpc poll = false
mode_eq grpc grpc = true

-- A logged line, where the two values differ: `log_field_change!`, `warn_if_changed!`.
unfoldable pub changed : Bool → String → List String
changed same name = if same then [] else name ∷ []

-- The lines that are logged, each by the name of its field.
unfoldable pub log_config_diff : (old new : RuntimeConfig) → List String
unfolding changed
log_config_diff old new =
    changed (str_eq old.log_level new.log_level) "log_level"
    ++ changed (old.max_concurrent == new.max_concurrent) "max_concurrent"
    ++ changed (old.heartbeat_interval_sec == new.heartbeat_interval_sec) "heartbeat_interval_sec"
    ++ changed (old.health_check_interval_sec == new.health_check_interval_sec)
        "health_check_interval_sec"
    ++ changed (old.audit_batch_size == new.audit_batch_size) "audit_batch_size"
    ++ changed (old.audit_flush_interval_sec == new.audit_flush_interval_sec)
        "audit_flush_interval_sec"

unfoldable pub warn_restart_required : (old new : Config) → List String
unfolding changed
warn_restart_required old new =
    changed (mode_eq old.transport.mode new.transport.mode) "transport.mode"
    ++ changed (str_eq old.agent.data_dir new.agent.data_dir) "agent.data_dir"
    ++ changed (str_eq old.agent.socket_dir new.agent.socket_dir) "agent.socket_dir"
    ++ changed (str_eq old.auth.provider new.auth.provider) "auth.provider"
