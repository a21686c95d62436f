-- ===== src/Exec/Continuous.antt =====
-- crates/vasal-core/src/task/continuous.rs: a task repeated at an interval until it is cancelled or
-- the agent shuts down.
use vasal.Prelude.{ℕ, zero, suc, Option, none, some, FilePath}
use vasal.Prelude.Int.{signed}
use vasal.Protocol.Task.{ExecTask, TaskResult, TaskResultStatus}
use vasal.Store.Sql.{TaskResultRow}
use vasal.Store.{record_task_result}
use vasal.Manager.Report.{status_text}
use vasal.Host.{Env}
use vasal.Host.Events.{slept}
use vasal.Host.Act.{Act, World, happen}
use vasal.Host.Run
use vasal.Host.Run.{Run}
use vasal.Host.System.{System, cancelled, shut_down, slept_through}
use vasal.Exec.Credentials.{resolve_eager}
use vasal.Exec.Outcome.{make_result}
use vasal.Exec.Router.{with_resolved}

-- `exec.interval_ms.unwrap_or(30_000)`
unfoldable pub interval_of : Option ℕ → ℕ
interval_of none = 30_000
interval_of (some ms) = ms

module _ {V : Type 0} (env : Env V) (sys : System V) (socket_dir : FilePath) where
  unfoldable pub tick_row : TaskResult → TaskResultRow
  unfolding status_text
  tick_row r = record {
    task_id = env.uuid_text r.task_id;
    chain_id = none;
    step_index = none;
    status = status_text r.status;
    exit_code = r.exit_code;
    stdout = r.stdout;
    stderr = r.stderr;
    duration_ms = signed 64 r.duration_ms;
    created_at = signed 64 r.timestamp;
  }

  -- A refused statement is logged and goes no further.
  unfoldable pub record_tick : TaskResult → Act V (Unit {0})
  unfolding tick_row record_task_result
  record_tick r w = (tt, (record_task_result env (tick_row r) w).1)

  unfoldable pub recorded : Option TaskResult → Run V TaskResult
  unfolding record_tick
  recorded none w = (none, w)
  recorded (some r) w = (some r, (record_tick r w).1)

  -- One tick: the credentials, the task, the journal.
  unfoldable pub tick : ExecTask V → Run V TaskResult
  unfolding resolve_eager with_resolved recorded
  tick t w =
      let (creds, w') = resolve_eager env t.credentials socket_dir w in
      let (r, w'') = with_resolved env socket_dir t (env.instant w.trace) creds w' in recorded r w''

  unfoldable pub cancelled_result : ExecTask V → Act V TaskResult
  unfolding make_result
  cancelled_result t = make_result env t.id TaskResultStatus.cancelled none "" "" 0 none

  -- The loop, for at most `fuel` ticks: none where they are used up.
  unfoldable pub run_from : (fuel : ℕ) → ExecTask V → (last : TaskResult) → Run V TaskResult
  unfolding tick interval_of cancelled_result
  run_from zero t last w = (none, w)
  run_from (suc fuel) t last w =
      let ms = interval_of t.interval_ms in
      let woken = happen (slept ms) w in
      let (r, ticked) = tick t woken in
      let next : Option TaskResult × World V = elim r [
        | none ↦ (none, ticked)
        | some result ↦ run_from fuel t result ticked
      ] in
      elim (sys.select_tick w.trace ms) [
        | cancelled ↦ Run.lift (cancelled_result t) woken
        | shut_down ↦ (some last, woken)
        | slept_through ↦ next
      ]

  unfoldable pub run : (fuel : ℕ) → ExecTask V → Run V TaskResult
  unfolding run_from make_result
  run fuel t w =
      let (first, w') = make_result env t.id TaskResultStatus.success none "" "" 0 none w in
      run_from fuel t first w'
