-- ===== src/Examples/Units.antt =====
-- Installs and upgrades of units on concrete input.
use vasal.Prelude.{String, str_eq, none, some, [], ◌∷◌, ◌≡◌, refl, arith, if◌then◌else◌}
use vasal.Prelude.Results.{err}
use vasal.Protocol.Units.{ManagedUnit, sidecar, running}
use vasal.Store.Sql.{UnitRow, empty, find_unit}
use vasal.Host.{Env}
use vasal.Host.Act.{World, happen}
use vasal.Host.Attempt.{state, sha256_mismatch}
use vasal.Host.Events.{downloaded}
use vasal.SelfUpgrade
use vasal.Units.Install.{install}
use vasal.Units.Install.Kept.{install_failed}
use vasal.Units.Install.Laws.{install-IsRecorded, IsRecorded}
use vasal.Units.Upgrade.{upgrade, perform_rollback}
use vasal.Units.Upgrade.Ends.{upgrade-Returns}
use vasal.Units.Upgrade.Laws.{upgrade-AtVersion}
use vasal.Units.Health.Laws.{Rests}
use vasal.Units.Digest.{mismatch-touches_nothing}
use vasal.Exec.Trace.Ends.{Returns}
use vasal.Exec.Route.{execute_exec}
use vasal.Exec.Route.Laws.{execute_exec-IsFor}
use vasal.Exec.Chain.Named.{IsFor}
use vasal.Protocol.Task.{ExecKind, ExecTask}
use vasal.Examples.{host, host-Clock, host-Answers, clock_of, duration, script}
use vasal.Examples.Machine.{machine, states, installed, differ}

abbrev unit : ManagedUnit String
unit = record {
  name = "echo";
  kind = sidecar;
  version = "1";
  artifact = record { url = "https://a/echo"; sha256 = "d" };
  state = running;
  health_check = none;
  config = none;
  socket_path = none;
}

-- A database that refuses every statement.
abbrev locked : Env String
locked = record host { refuse = λ t. some "locked" }

install_failed_example :
    (install locked machine unit "/cache" "/run" installed).1.store ≡ installed.store
unfolding install
install_failed_example =
    install_failed locked machine unit "/cache" "/run" installed (state "locked") refl

install-IsRecorded_example :
    IsRecorded host machine unit "/run" (install host machine unit "/cache" "/run" installed).1
unfolding install
install-IsRecorded_example = install-IsRecorded host machine unit "/cache" "/run" installed refl

abbrev other : ManagedUnit String
other = record unit { artifact = record { url = "https://a/echo"; sha256 = "e" } }

mismatch-touches_nothing_example :
    let error = sha256_mismatch "e" "d" in
    let w = happen (downloaded "https://a/echo") installed in
    (install host machine other "/cache" "/run" installed ≡ (err error, w))
    × (perform_rollback host machine "echo"
          (record { version = "0"; artifact = other.artifact })
          "/cache"
          "/run"
          installed
        ≡ (err error, w))
    × (upgrade host machine "echo" "2" none "/cache" "/run" "https://a/echo" "e" installed
        ≡ (some (err error), w))
    × (SelfUpgrade.execute host machine states "https://a/echo" "e" "2" "1" "/var" installed
        ≡ (err error, w))
mismatch-touches_nothing_example =
    mismatch-touches_nothing host machine states other "0" none "/cache" "/run" "/var" "2" "1"
      (7 ∷ []) installed refl (differ "d" "e" refl)

-- The sidecar of version 1, with its binary.
abbrev with_echo : World String
with_echo = record {
  trace = [];
  store = record empty {
    units =
        record {
          name = "echo";
          kind = "sidecar";
          version = "1";
          state = "running";
          health = none;
          health_error = none;
          pid = some 41;
          socket_path = none;
          config_json = none;
          updated_at = 0;
        }
        ∷ [];
  };
  files =
      λ p. if str_eq p "/cache/echo/echo" then some (record { content = []; mode = 493 }) else none;
}

upgrade-AtVersion_example :
    (row : UnitRow) × (find_unit "echo"
        (upgrade host machine "echo" "2" none "/cache" "/run" "https://a" "d"
          with_echo).1.store.units
      ≡ some row)
    × (row.version ≡ "2")
unfolding upgrade find_unit clock_of
upgrade-AtVersion_example =
    upgrade-AtVersion host machine "echo" "2" none "/cache" "/run" "https://a" "d" with_echo refl

host-Rests : Rests host
unfolding clock_of duration
host-Rests = record { rests = λ ms t. omega arith }

upgrade-Returns_example :
    Returns (upgrade host machine "echo" "2" none "/cache" "/run" "https://a" "d" with_echo).0
upgrade-Returns_example =
    upgrade-Returns host machine "echo" "2" none "/cache" "/run" host-Clock host-Rests host-Answers
      "https://a" "d" with_echo

abbrev repeated : ExecTask String
repeated = record (script 8 "ok") { kind = ExecKind.continuous; interval_ms = some 100 }

execute_exec-IsFor_example : IsFor 8 (execute_exec host machine 3 "/run" repeated installed).0
execute_exec-IsFor_example = execute_exec-IsFor host machine 3 "/run" repeated installed
