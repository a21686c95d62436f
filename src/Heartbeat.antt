-- ===== src/Heartbeat.antt =====
-- crates/vasal-core/src/heartbeat.rs: the periodic report to the control plane.
use vasal.Prelude.{
  ℕ, zero, suc, ◌-◌, ◌*◌, ◌/◌, String, str_eq, Option, none, some, List, [], map, if◌then◌else◌,
}
use vasal.Prelude.Results.{Result, ok, err}
use vasal.Protocol.Heartbeat.{Heartbeat, UnitReport, ActiveTaskCounts}
use vasal.Protocol.Sidecar.{HealthStatus, healthy, degraded, unhealthy}
use vasal.Protocol.Task.{Uuid}
use vasal.Protocol.Units.{UnitKind, sidecar, package_unit}
use vasal.Store.{list_units}
use vasal.Store.Sql.{UnitRow}
use vasal.Host.{Env, Trace}
use vasal.Host.Events.{posted, slept}
use vasal.Host.Act.{Act, happen}
use vasal.Host.Run.{Run}
use vasal.Host.Attempt.{Error}
use vasal.Host.System.{System}

unfoldable pub kind_of : String → UnitKind
kind_of kind = if str_eq kind "sidecar" then sidecar else package_unit

unfoldable pub health_of : String → HealthStatus
health_of h = if str_eq h "ok" then healthy else if str_eq h "degraded" then degraded else unhealthy

abbrev status_of : Option String → Option HealthStatus
status_of none = none
status_of (some h) = some (health_of h)

unfoldable pub unit_report : UnitRow → UnitReport
unfolding kind_of health_of
unit_report r = record {
  name = r.name;
  kind = kind_of r.kind;
  version = r.version;
  state = r.state;
  health = status_of r.health;
  pid = r.pid;
  health_error = r.health_error;
}

-- The units that a heartbeat reports: none where the database refuses.
unfoldable pub reports : Result Error (List UnitRow) → List UnitReport
unfolding unit_report
reports (ok rows) = map unit_report rows
reports (err _) = []

-- What the sender runs with: `counts` and `interval_sec` are what the watch channels hold.
pub record Sender (V : Type 0) : Type 0 where
  pub agent_id : Uuid
  pub agent_version : String
  pub endpoint : String
  pub heartbeat_json : Heartbeat → V
  pub counts : Trace V → ActiveTaskCounts
  pub interval_sec : Trace V → ℕ

module _ {V : Type 0} (env : Env V) (sys : System V) (self : Sender V) where
  unfoldable pub heartbeat :
      (started_at instant : ℕ) → ActiveTaskCounts → List UnitReport → (now_ms : ℕ) → Heartbeat
  heartbeat started_at instant counts units now_ms = record {
    agent_id = self.agent_id;
    agent_version = self.agent_version;
    uptime_sec = (instant - started_at) / 1_000_000_000;
    timestamp = now_ms;
    units = units;
    active_tasks = counts;
  }

  -- A beat after its sleep. How the endpoint answers is logged only.
  unfoldable pub beat : (started_at : ℕ) → Act V (Unit {0})
  unfolding heartbeat list_units reports
  beat started_at w =
      let (units, w') = list_units env w in
      let hb =
        heartbeat started_at (env.instant w.trace) (self.counts w.trace) (reports units)
          (env.wall_ms w'.trace) in
      (tt, happen (posted self.endpoint (some (self.heartbeat_json hb))) w')

  unfoldable pub run_from : (fuel started_at : ℕ) → Run V (Unit {0})
  unfolding beat
  run_from zero started_at w = (none, w)
  run_from (suc fuel) started_at w =
      let ms = self.interval_sec w.trace * 1000 in
      let woken = happen (slept ms) w in
      let next = run_from fuel started_at (beat started_at woken).1 in
      if sys.shut_down_in_sleep w.trace ms then (some tt, woken) else next

  unfoldable pub run : (fuel : ℕ) → Run V (Unit {0})
  unfolding run_from
  run fuel w = run_from fuel (env.instant w.trace) w
