-- ===== src/Examples/Agents.antt =====
-- Transports, tokens, configuration and sidecars on concrete input.
use vasal.Prelude.{
  ℕ, ◌+◌, ◌^◌, ◌<◌, min, false, String, none, some, [], ◌≡◌, ◌≢◌, ◌↔◌, refl, All, arith,
}
use vasal.Prelude.Results.{ok, err}
use vasal.Host.{body}
use vasal.Host.Attempt.{transport}
use vasal.Host.Act.{World}
use vasal.Transport.{Wire, connect_failed, ended}
use vasal.Transport.Grpc.{GrpcTransport, new, max_backoff, recv_tasks, connect}
use vasal.Transport.Grpc.Laws.{IsSound, new-IsSound, recv_tasks-IsSound, after, recv_tasks-backoff}
use vasal.Auth.{
  TokenResponse, PersistedTokens, Provider, access_token, from_response, save, load, tokens,
}
use vasal.Auth.Laws.{access_token-margin, load-save}
use vasal.Config.{Config, default_telemetry, poll, runtime, lint}
use vasal.Config.Defaults
use vasal.Config.Laws.{IsWarning}
use vasal.Agent.{Settings, reload, select_transport}
use vasal.Agent.Laws.{IsPublished, reload-IsPublished, IsChosen, lint-select_transport}
use vasal.Sidecars.Sql
use vasal.Sidecars.Sql.{Rusqlite, SqlCtrl, selected, get_connection, parse_args, unknown_argument}
use vasal.Sidecars.Laws.{get_connection-again}
use vasal.Examples.{host, world}
use vasal.Examples.Machine.{machine, installed}

-- A control plane that cannot be reached.
abbrev unreachable : Wire String
unreachable = record {
  get_text = λ t url. body "[]";
  parse_items = λ text. ok [];
  read_task = λ v. err "no task";
  read_chain = λ v. err "no chain";
  result_json = λ r. "{}";
  task_of_bytes = λ bytes. err "no task";
  chain_of_bytes = λ bytes. err "no chain";
  result_bytes = λ r. ok [];
  open_stream = λ t endpoint id version. connect_failed "refused";
  next_message = λ t stream. ended;
  enqueue = λ t stream bytes. none;
}

abbrev agent : GrpcTransport
agent = record { endpoint = "https://cp"; agent_id = "a"; agent_version = "1" }

recv_tasks-IsSound_example : IsSound (recv_tasks unreachable agent new world).0.1
recv_tasks-IsSound_example = recv_tasks-IsSound unreachable agent new world new-IsSound

recv_tasks-backoff_example :
    (after unreachable agent 6 (record new { backoff = min (2 ^ 0) max_backoff }) world).0
    ≡ record new { backoff = min (2 ^ (6 + 0)) max_backoff }
unfolding connect
recv_tasks-backoff_example =
    recv_tasks-backoff unreachable agent (λ w. (transport "gRPC connect failed: refused", refl)) 6 0
      world

abbrev token : TokenResponse
token = record { access_token = "t"; refresh_token = none; expires_in = some 60; token_type = none }

access_token-margin_example :
    (access_token 1020 (from_response 1000 token) ≡ some "t") ↔ (1020 + 30 < 1000 + 60)
access_token-margin_example =
    access_token-margin 1000 1020 60 token refl (omega arith) (omega arith)

abbrev kept : PersistedTokens
kept = record { access_token = "t"; refresh_token = some "r"; expires_at = none }

abbrev provider : Provider String
provider = record {
  grant = λ t url v. tokens token;
  tokens_text = λ t. ok "state";
  parse_tokens = λ text. ok kept;
  parse_key = λ text. ok "key";
  parent = λ path. some "/var";
}

abbrev saved : World String
saved = (save host machine provider (some kept) "/var/token.json" installed).1

load-save_example : (load host machine provider "/var/token.json" saved).0 ≡ some kept
unfolding save
load-save_example =
    load-save host machine provider (λ t. refl) kept "/var/token.json" installed (λ text h. h)
      (λ text h. refl) refl

abbrev configuration : Config
configuration = record {
  agent = record {
    id = none;
    name = none;
    data_dir = Defaults.data_dir;
    socket_dir = Defaults.socket_dir;
    log_level = Defaults.log_level;
  };
  transport = record {
    mode = poll;
    poll_section =
        some (record { endpoint = "https://cp"; interval_sec = Defaults.poll_interval_sec });
    grpc_section = none;
  };
  heartbeat = record { interval_sec = Defaults.heartbeat_interval_sec; endpoint = "https://cp/hb" };
  audit = record {
    endpoint = "https://cp/audit";
    batch_size = Defaults.audit_batch_size;
    flush_interval_sec = Defaults.audit_flush_interval_sec;
  };
  auth = record { provider = "none"; token_file = Defaults.token_file };
  shell = record {
    default_timeout_ms = Defaults.shell_timeout_ms;
    max_concurrent = Defaults.max_concurrent;
    working_dir = Defaults.working_dir;
  };
  units = record {
    artifact_cache_dir = Defaults.artifact_cache_dir;
    health_check_interval_sec = Defaults.health_check_interval_sec;
  };
  telemetry = default_telemetry;
}

lint-select_transport_example : All IsWarning (lint (λ p. false) (λ p. p) configuration) ↔ (
    IsChosen (select_transport "a" "1" configuration.transport)
    × (configuration.shell.max_concurrent ≢ 0))
lint-select_transport_example = lint-select_transport (λ p. false) (λ p. p) "a" "1" configuration

abbrev settings : Settings
settings = record {
  full_config = configuration;
  published = runtime configuration;
  restart_warnings = [];
  changes = [];
}

-- The same configuration with another log level.
abbrev louder : Config
louder = record configuration { agent = record configuration.agent { log_level = "debug" } }

reload-IsPublished_example : IsPublished (reload (ok louder) settings)
reload-IsPublished_example = reload-IsPublished (ok louder) settings (record { in_step = refl })

-- Databases of which only the number of opened ones is kept.
abbrev sqlite : Rusqlite String ℕ
sqlite = record {
  open_database = λ dsn n. (ok n, n + 1);
  execute_batch = λ conn sql n. (none, n);
  query = λ conn sql params n. (selected [] [], n);
  execute = λ conn sql params n. (ok ("0", "0"), n);
  discover = λ conn n. (Sql.tables [], n);
  read_params = λ v. err "no parameters";
  null = "null";
  text = λ s. s;
  number = λ n. "0";
  array = λ vs. "[]";
  object = λ fields. "{}";
  json_text = λ v. v;
}

abbrev fresh : SqlCtrl ℕ
fresh = record { default_dsn = none; connections = []; databases = 3 }

get_connection-again_example :
    get_connection sqlite "1" "a.db" (get_connection sqlite "1" "a.db" fresh).1
    ≡ (ok 3, (get_connection sqlite "1" "a.db" fresh).1)
unfolding get_connection
get_connection-again_example = get_connection-again sqlite "1" "a.db" fresh 3 refl
