-- ===== src/Units.antt =====
-- crates/vasal-core/src/unit: the managed units, from a manifest to a row of the state database.
pub mod Install
pub mod Upgrade
pub mod Health
pub mod Digest
use vasal.Prelude.{ℕ, String, Option, none, some, [], ◌∷◌, FilePath, format, join}
use vasal.Protocol.Units.{
  UnitKind, sidecar, package_unit, UnitState, installed, running, stopped, absent, ManagedUnit,
}
use vasal.Store.Sql.{UnitRow}
use vasal.Host.{Env}
use vasal.Host.Act.{Act, observe}

unfoldable pub kind_text : UnitKind → String
kind_text sidecar = "sidecar"
kind_text package_unit = "package"

unfoldable pub state_text : UnitState → String
state_text running = "running"
state_text installed = "installed"
state_text stopped = "stopped"
state_text absent = "absent"

-- `socket_path_for`
unfoldable pub socket_path_for : FilePath → String → FilePath
unfolding join
socket_path_for socket_dir unit_name = join socket_dir (format (unit_name ∷ ".sock" ∷ []))

module _ {V : Type 0} (env : Env V) where
  -- `unit.config.as_ref().map(|c| c.to_string())`
  unfoldable pub config_text : Option V → Option String
  config_text none = none
  config_text (some c) = some (env.json_text c)

  unfoldable pub unit_to_row : ManagedUnit V → Act V UnitRow
  unfolding kind_text state_text config_text
  unit_to_row unit = observe λ t. record {
    name = unit.name;
    kind = kind_text unit.kind;
    version = unit.version;
    state = state_text unit.state;
    health = none;
    health_error = none;
    pid = none;
    socket_path = unit.socket_path;
    config_json = config_text unit.config;
    updated_at = env.wall_ms t;
  }
