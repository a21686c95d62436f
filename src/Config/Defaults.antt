-- ===== src/Config/Defaults.antt =====
-- crates/vasal-core/src/config.rs: `mod defaults`, what serde puts for a missing field.
use vasal.Prelude.{ℕ, String, FilePath}

abbrev pub data_dir : FilePath
data_dir = "/var/lib/vasal"

abbrev pub socket_dir : FilePath
socket_dir = "/run/vasal"

abbrev pub log_level : String
log_level = "info"

abbrev pub poll_interval_sec : ℕ
poll_interval_sec = 10

abbrev pub reconnect_interval_sec : ℕ
reconnect_interval_sec = 5

abbrev pub heartbeat_interval_sec : ℕ
heartbeat_interval_sec = 10

abbrev pub audit_batch_size : ℕ
audit_batch_size = 50

abbrev pub audit_flush_interval_sec : ℕ
audit_flush_interval_sec = 5

abbrev pub token_file : FilePath
token_file = "/var/lib/vasal/token.json"

abbrev pub shell_timeout_ms : ℕ
shell_timeout_ms = 300_000

abbrev pub max_concurrent : ℕ
max_concurrent = 4

abbrev pub working_dir : FilePath
working_dir = "/tmp/vasal"

abbrev pub artifact_cache_dir : FilePath
artifact_cache_dir = "/var/cache/vasal"

abbrev pub health_check_interval_sec : ℕ
health_check_interval_sec = 30

abbrev pub otlp_endpoint : String
otlp_endpoint = "http://localhost:4318"

abbrev pub service_name : String
service_name = "vasal"
