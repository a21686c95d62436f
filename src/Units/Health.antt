-- ===== src/Units/Health.antt =====
-- crates/vasal-core/src/unit/health.rs: the probe after an upgrade, and the periodic checks.
pub mod Laws
use vasal.Prelude.{
  ℕ, zero, suc, ◌+◌, ◌*◌, String, str_eq, Option, none, some, List, [], ◌∷◌, Bool, true, false, not,
  ◌||◌, ◌&&◌, leb, FilePath, format, if◌then◌else◌,
}
use vasal.Prelude.Results.{Result, ok, err}
use vasal.Protocol.JsonRpc.{Response}
use vasal.Protocol.Sidecar.{HealthResponse, HealthStatus, healthy, degraded, unhealthy}
use vasal.Store.{upsert_unit, list_units}
use vasal.Store.Sql.{UnitRow}
use vasal.Exec.Call.{call_raw}
use vasal.Host.{Env}
use vasal.Host.Events.{Event, slept, rested, ran}
use vasal.Host.Act.{Act, pure, emit, ask, happen, ◌>>=◌, ◌>>◌}
use vasal.Host.Run
use vasal.Host.Run.{Run}
use vasal.Host.Attempt.{Error, error_text}
use vasal.Host.System.{System, Output, elapsed, not_started, finished}
use vasal.Units.{socket_path_for}
use vasal.Units.Install.{code_text, is_zero}

-- A health word with an error.
abbrev pub Health : Type 0
Health = String × Option String

unfoldable pub of_status : HealthStatus → Option String → Health
of_status healthy error = ("ok", none)
of_status degraded error = ("degraded", error)
of_status unhealthy error = ("unhealthy", error)

-- `health == "ok" || health == "degraded"`
unfoldable pub passes : Health → Bool
passes h = str_eq h.0 "ok" || str_eq h.0 "degraded"

-- Rounds that are enough for a timeout in seconds: each one sleeps half a second.
abbrev pub probe_fuel : ℕ → ℕ
probe_fuel timeout_sec = timeout_sec * 2 + 1

module _ {V : Type 0} (env : Env V) (sys : System V) where
  -- What remains where the result is not a health report.
  unfoldable pub of_error : Response V → Health
  of_error resp = elim resp.error [ some e ↦ ("unhealthy", some e.message) | none ↦ ("ok", none) ]

  unfoldable pub of_report : Response V → Result String (HealthResponse V) → Health
  unfolding of_status of_error
  of_report resp (ok hr) = of_status hr.status hr.error
  of_report resp (err _) = of_error resp

  unfoldable pub of_reply : Result Error (Response V) → Health
  unfolding of_report of_error error_text
  of_reply (err e) = ("unhealthy", some (error_text e))
  of_reply (ok resp) = elim resp.result [
    | some v ↦ of_report resp (sys.read_health v)
    | none ↦ of_error resp
  ]

  unfoldable pub answered : Result Error (Response V) → Run V Health
  unfolding of_reply Run.handled
  answered (ok resp) = Run.return (of_reply (ok resp))
  answered (err e) = Run.handled e (Run.return (of_reply (err e)))

  unfoldable pub check_sidecar : FilePath → String → Run V Health
  unfolding call_raw answered socket_path_for
  check_sidecar socket_dir unit_name =
      Run.◌>>=◌ (Run.lift (call_raw env (socket_path_for socket_dir unit_name) "health" none))
        answered

  -- What a round does with what it saw.
  unfoldable pub looked : Health → Run V (Option Bool)
  unfolding passes
  looked health w =
      if passes health then (some (some true), w) else (some none, happen (rested 500) w)

  -- One round of the probe from `start` on: passed or timed out, or `some none` where it goes on.
  unfoldable pub probe_once : (start : ℕ) → FilePath → String → ℕ → Run V (Option Bool)
  unfolding check_sidecar looked
  probe_once start socket_dir unit_name timeout_sec w =
      let (health, w') = check_sidecar socket_dir unit_name w in
      if leb (start + timeout_sec * 1_000_000_000) (env.instant w.trace)
      then (some (some false), w)
      else Run.continue health looked w'

  unfoldable pub probe_from : (fuel start : ℕ) → FilePath → String → ℕ → Run V Bool
  unfolding probe_once
  probe_from zero start socket_dir unit_name timeout_sec w = (none, w)
  probe_from (suc fuel) start socket_dir unit_name timeout_sec w =
      let (r, w') = probe_once start socket_dir unit_name timeout_sec w in
      elim r [
        | some (some passed) ↦ (some passed, w')
        | some none ↦ probe_from fuel start socket_dir unit_name timeout_sec w'
        | none ↦ (none, w')
      ]

  unfoldable pub probe_sidecar : FilePath → String → ℕ → Run V Bool
  unfolding probe_from
  probe_sidecar socket_dir unit_name timeout_sec w =
      probe_from (probe_fuel timeout_sec) (env.instant w.trace) socket_dir unit_name timeout_sec w

  -- `value.get(a).and_then(|hc| hc.get(b))`
  unfoldable pub get_in : V → String → String → Option V
  get_in v a b = elim (env.get v a) [ none ↦ none | some hc ↦ env.get hc b ]

  unfoldable pub command_of : V → Option String
  unfolding get_in
  command_of config = elim (get_in config "health_check" "command") [
    | none ↦ none
    | some c ↦ env.as_str c
  ]

  unfoldable pub number_or : Option ℕ → ℕ → ℕ
  number_or none d = d
  number_or (some n) d = n

  unfoldable pub timeout_of : V → ℕ
  unfolding get_in number_or
  timeout_of config = elim (get_in config "health_check" "timeout_ms") [
    | none ↦ 5000
    | some t ↦ number_or (sys.as_u64 t) 5000
  ]

  unfoldable pub of_output : Output → Health
  unfolding code_text
  of_output (finished code stderr) = if is_zero code then ("ok", none) else (
    "unhealthy",
    some (format ("exit code " ∷ code_text code ∷ ": " ∷ sys.trim (env.lossy stderr) ∷ [])),
  )
  of_output (not_started e) = ("unhealthy", some e)
  of_output elapsed = ("unhealthy", some "health check timed out")

  unfoldable pub run_check : Option String → ℕ → Act V Health
  unfolding of_output
  run_check none timeout_ms = pure ("ok", none)
  run_check (some command) timeout_ms = do
    out ← ask (λ t. sys.output t command timeout_ms) (ran "/bin/sh" ("-c" ∷ command ∷ []))
    pure (of_output out)

  unfoldable pub check_config : Result String V → Act V Health
  unfolding run_check command_of timeout_of
  check_config (err _) = pure ("ok", none)
  check_config (ok config) = run_check (command_of config) (timeout_of config)

  unfoldable pub check_package : UnitRow → Act V Health
  unfolding check_config
  check_package unit = elim unit.config_json [
    | none ↦ pure ("ok", none)
    | some c ↦ check_config (env.parse_json c)
  ]

  -- The check that a unit's kind asks for: none for another kind.
  unfoldable pub check_kind : FilePath → UnitRow → Run V (Option Health)
  unfolding check_sidecar check_package
  check_kind socket_dir unit =
      if str_eq unit.kind "sidecar"
      then (Run.◌>>=◌ (check_sidecar socket_dir unit.name) (λ h. Run.return (some h)))
      else if str_eq unit.kind "package"
      then (Run.◌>>=◌ (Run.lift (check_package unit)) (λ h. Run.return (some h)))
      else Run.return none

  unfoldable pub same_text : Option String → Option String → Bool
  same_text none none = true
  same_text none (some t) = false
  same_text (some s) none = false
  same_text (some s) (some t) = str_eq s t

  -- `changed`
  unfoldable pub has_changed : UnitRow → Health → Bool
  unfolding same_text
  has_changed unit h =
      not (same_text unit.health (some h.0)) || not (same_text unit.health_error h.1)

  unfoldable pub record_health : UnitRow → Option Health → Act V (Unit {0})
  unfolding has_changed upsert_unit
  record_health unit none w = (tt, w)
  record_health unit (some h) w =
      let updated : UnitRow = record unit {
        health = some h.0;
        health_error = h.1;
        updated_at = env.wall_ms w.trace;
      } in
      (tt, if has_changed unit h then (upsert_unit env updated w).1 else w)

  -- `unit.state != "running" && unit.state != "installed"` leaves a unit out.
  unfoldable pub is_checked : UnitRow → Bool
  is_checked unit = str_eq unit.state "running" || str_eq unit.state "installed"

  unfoldable pub check_unit : FilePath → UnitRow → Run V (Unit {0})
  unfolding is_checked check_kind record_health
  check_unit socket_dir unit =
      if is_checked unit
      then (Run.◌>>=◌ (check_kind socket_dir unit) (λ h. Run.lift (record_health unit h)))
      else Run.return tt

  unfoldable pub check_units : FilePath → List UnitRow → Run V (Unit {0})
  unfolding check_unit
  check_units socket_dir [] = Run.return tt
  check_units socket_dir (unit ∷ units) =
      Run.◌>>◌ (check_unit socket_dir unit) (check_units socket_dir units)

  unfoldable pub check_listed : FilePath → Result Error (List UnitRow) → Run V (Unit {0})
  unfolding check_units
  check_listed socket_dir (err _) = Run.return tt
  check_listed socket_dir (ok units) = check_units socket_dir units

  -- What a round of `run` does after its sleep.
  unfoldable pub check_all : FilePath → Run V (Unit {0})
  unfolding list_units check_listed
  check_all socket_dir = Run.◌>>=◌ (Run.lift (list_units env)) (check_listed socket_dir)

  -- `interval_sec` is what the watch channel holds at the time.
  unfoldable pub run :
      (fuel : ℕ) → (interval_sec : List (Event V) → ℕ) → FilePath → Run V (Unit {0})
  unfolding check_all
  run zero interval_sec socket_dir w = (none, w)
  run (suc fuel) interval_sec socket_dir w =
      let ms = interval_sec w.trace * 1000 in
      let rested = happen (slept ms) w in
      let (checked, seen) = check_all socket_dir rested in
      let next = Run.continue checked (λ _. run fuel interval_sec socket_dir) seen in
      if sys.shut_down_in_sleep w.trace ms then (some tt, rested) else next
