-- ===== src/Agent.antt =====
-- crates/vasal-core/src/main.rs: the reload of the configuration, the choice of the transport, and
-- what the main loop does with a result. Signals and channels are tokio's.
pub mod Laws
pub mod Loop
use vasal.Prelude.{
  ℕ, String, Option, none, some, List, [], ◌∷◌, Bool, true, false, not, ◌&&◌, ◌==◌, str_eq,
}
use vasal.Prelude.Results.{Result, ok, err}
use vasal.Config.{
  Config, RuntimeConfig, runtime, log_config_diff, warn_restart_required, TransportMode, poll, grpc,
  TransportConfig, PollConfig, GrpcConfig,
}
use vasal.Protocol.Task.{TaskResult}
use vasal.Host.Act.{Act, World, pure, ◌>>=◌, ◌>>◌}
use vasal.Host.Attempt
use vasal.Host.Attempt.{Error, config, Attempt}
use vasal.Transport.Poll.{PollTransport}
use vasal.Transport.Grpc.{GrpcTransport}

-- The shared configuration, what the watch channel holds, and the log lines, the latest last.
pub record Settings : Type 0 where
  pub full_config : Config
  pub published : RuntimeConfig
  pub restart_warnings : List String
  pub changes : List String

-- `old_runtime != new_runtime`, by the derived comparison
unfoldable pub differs : (old new : RuntimeConfig) → Bool
differs old new = not (
    str_eq old.log_level new.log_level
    && (old.max_concurrent == new.max_concurrent)
    && (old.heartbeat_interval_sec == new.heartbeat_interval_sec)
    && (old.health_check_interval_sec == new.health_check_interval_sec)
    && (old.audit_batch_size == new.audit_batch_size)
    && (old.audit_flush_interval_sec == new.audit_flush_interval_sec))

unfoldable pub publish : Bool → (old new : Config) → Settings → Settings
unfolding runtime log_config_diff warn_restart_required
publish true old new s = record {
  full_config = new;
  published = runtime new;
  restart_warnings = warn_restart_required old new;
  changes = log_config_diff (runtime old) (runtime new);
}
publish false old new s = record {
  full_config = new;
  published = s.published;
  restart_warnings = warn_restart_required old new;
  changes = [];
}

-- What a SIGHUP does, for what `Config::load` gives.
unfoldable pub reload : Result Error Config → Settings → Settings
unfolding publish differs runtime
reload (ok new) s = publish (differs (runtime s.full_config) (runtime new)) s.full_config new s
reload (err _) s = s

-- `Box<dyn Transport>`
pub data Chosen : Type 0 where
  chosen_poll : PollTransport → Chosen
  chosen_grpc : GrpcTransport → Chosen

unfoldable pub poll_section : Option PollConfig → Result Error Chosen
poll_section none = err (config "transport.mode = \"poll\" but [transport.poll] section is missing")
poll_section (some p) =
    ok (chosen_poll (record { endpoint = p.endpoint; poll_interval_sec = p.interval_sec }))

unfoldable pub grpc_section : (agent_id version : String) → Option GrpcConfig → Result Error Chosen
grpc_section agent_id version none =
    err (config "transport.mode = \"grpc\" but [transport.grpc] section is missing")
grpc_section agent_id version (some g) =
    ok
      (chosen_grpc (record { endpoint = g.endpoint; agent_id = agent_id; agent_version = version }))

unfoldable pub select_mode :
    (agent_id version : String) → TransportConfig → TransportMode → Result Error Chosen
unfolding poll_section grpc_section
select_mode agent_id version t poll = poll_section t.poll_section
select_mode agent_id version t grpc = grpc_section agent_id version t.grpc_section

unfoldable pub select_transport :
    (agent_id version : String) → TransportConfig → Result Error Chosen
unfolding select_mode
select_transport agent_id version t = select_mode agent_id version t t.mode

module _ {V : Type 0} (send_result : TaskResult → Attempt V (Unit {0})) where
  -- A result forwarded: a failure is logged, and the result stays in the journal.
  unfoldable pub forward : TaskResult → Act V (Unit {0})
  forward result w = (tt, (send_result result w).1)

  -- The results still in the channel at shutdown, and how many they were.
  unfoldable pub drain : List TaskResult → Act V (Unit {0})
  unfolding forward
  drain [] = pure tt
  drain (result ∷ results) = do forward result; drain results
