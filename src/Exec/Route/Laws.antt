-- ===== src/Exec/Route/Laws.antt =====
-- What the results of the router carry.
use vasal.Prelude.{ℕ, zero, suc, String, Option, none, some, ◌≡◌, refl, FilePath}
use vasal.Prelude.Results.{Result, ok, err}
use vasal.Protocol.Task.{
  ExecTask, ExecKind, Task, TaskResult, exec, cancel, install, upgrade, remove, self_upgrade,
  task_id,
}
use vasal.Host.{Env}
use vasal.Host.Act.{World, happen}
use vasal.Host.Events.{slept}
use vasal.Host.Run
use vasal.Host.Attempt.{Error}
use vasal.Host.System.{System, Woken, cancelled, shut_down, slept_through}
use vasal.SelfUpgrade
use vasal.SelfUpgrade.{StateFormat}
use vasal.Exec.Credentials.{ResolvedCredentials}
use vasal.Exec.Outcome.{make_result}
use vasal.Exec.Router.{with_resolved, execute_oneshot}
use vasal.Exec.Continuous.{recorded, tick, interval_of, cancelled_result, run_from, run}
use vasal.Exec.Route.{execute_as, execute_exec, upgraded, route_from, route_task}
use vasal.Exec.Chain.Named.{IsFor, handled-IsFor, run_once-IsFor}

module _ {V : Type 0} (env : Env V) (sys : System V) where
  resolved-IsFor :
      (socket_dir : FilePath) (t : ExecTask V) (start : ℕ)
      (creds : Result Error ResolvedCredentials) (w : World V)
      → IsFor t.id (with_resolved env socket_dir t start creds w).0
  unfolding with_resolved make_result
  resolved-IsFor socket_dir t start (ok creds) w = run_once-IsFor env socket_dir t creds w
  resolved-IsFor socket_dir t start (err e) w = handled-IsFor t.id e _ w refl

  recorded-IsFor :
      (id : ℕ) (socket_dir : FilePath) (r : Option TaskResult) (w : World V)
      → IsFor id r
      → IsFor id (recorded env sys socket_dir r w).0
  unfolding recorded
  recorded-IsFor id socket_dir none w h = tt
  recorded-IsFor id socket_dir (some r) w h = h

  tick-IsFor :
      (socket_dir : FilePath) (t : ExecTask V) (w : World V)
      → IsFor t.id (tick env sys socket_dir t w).0
  unfolding tick
  tick-IsFor socket_dir t w =
      recorded-IsFor t.id socket_dir _ _ (resolved-IsFor socket_dir t (env.instant w.trace) _ _)

  next-IsFor :
      (id : ℕ) (m : Option TaskResult × World V)
      (f : TaskResult → World V → Option TaskResult × World V)
      → IsFor id m.0
      → ((r : TaskResult) (w : World V) → r.task_id ≡ id → IsFor id (f r w).0)
      → IsFor id
          (elim m.0 as (λ _. Option TaskResult × World V) [
            | none ↦ (none, m.1)
            | some result ↦ f result m.1
          ]).0
  next-IsFor id (none, w) f h k = tt
  next-IsFor id (some r, w) f h k = k r w h

  woken-IsFor :
      (id : ℕ) (woken : Woken) (a b c : Option TaskResult × World V)
      → IsFor id a.0
      → IsFor id b.0
      → IsFor id c.0
      → IsFor id
          (elim woken as (λ _. Option TaskResult × World V) [
            | cancelled ↦ a
            | shut_down ↦ b
            | slept_through ↦ c
          ]).0
  woken-IsFor id cancelled a b c ha hb hc = ha
  woken-IsFor id shut_down a b c ha hb hc = hb
  woken-IsFor id slept_through a b c ha hb hc = hc

  run_from-IsFor :
      (socket_dir : FilePath) (fuel : ℕ) (t : ExecTask V) (last : TaskResult) (w : World V)
      → last.task_id ≡ t.id
      → IsFor t.id (run_from env sys socket_dir fuel t last w).0
  unfolding run_from cancelled_result make_result
  run_from-IsFor socket_dir zero t last w h = tt
  run_from-IsFor socket_dir (suc fuel) t last w h =
      let ms = interval_of t.interval_ms in
      let woken = happen (slept ms) w in
      woken-IsFor t.id (sys.select_tick w.trace ms)
        (Run.lift (cancelled_result env sys socket_dir t) woken) (some last, woken)
        (elim (tick env sys socket_dir t woken).0 as (λ _. Option TaskResult × World V) [
          | none ↦ (none, (tick env sys socket_dir t woken).1)
          | some result ↦
              run_from env sys socket_dir fuel t result (tick env sys socket_dir t woken).1
        ])
        refl h
        (next-IsFor t.id (tick env sys socket_dir t woken) (run_from env sys socket_dir fuel t)
          (tick-IsFor socket_dir t woken) (λ r w' e. run_from-IsFor socket_dir fuel t r w' e))

  run-IsFor :
      (socket_dir : FilePath) (fuel : ℕ) (t : ExecTask V) (w : World V)
      → IsFor t.id (run env sys socket_dir fuel t w).0
  unfolding run make_result
  run-IsFor socket_dir fuel t w = run_from-IsFor socket_dir fuel t _ w refl

  oneshot-IsFor :
      (socket_dir : FilePath) (t : ExecTask V) (w : World V)
      → IsFor t.id (execute_oneshot env socket_dir t w).0
  unfolding execute_oneshot
  oneshot-IsFor socket_dir t w = resolved-IsFor socket_dir t (env.instant w.trace) _ _

  execute_as-IsFor :
      (kind : ExecKind) (fuel : ℕ) (socket_dir : FilePath) (t : ExecTask V) (w : World V)
      → IsFor t.id (execute_as env sys kind fuel socket_dir t w).0
  unfolding execute_as
  execute_as-IsFor ExecKind.oneshot fuel socket_dir t w = oneshot-IsFor socket_dir t w
  execute_as-IsFor ExecKind.continuous fuel socket_dir t w = run-IsFor socket_dir fuel t w

  -- The result of an exec task, one run or repeated, carries the task's id, in whichever branch it
  -- comes about.
  pub execute_exec-IsFor :
      (fuel : ℕ) (socket_dir : FilePath) (t : ExecTask V) (w : World V)
      → IsFor t.id (execute_exec env sys fuel socket_dir t w).0
  unfolding execute_exec
  execute_exec-IsFor fuel socket_dir t w = execute_as-IsFor t.kind fuel socket_dir t w

  module _ (states : StateFormat) (data_dir : FilePath) (version : String) where
    upgraded-id :
        (start id : ℕ) (target : String) (done : Result Error (Unit {0})) (w : World V)
        → (upgraded env sys states data_dir version start id target done w).0.task_id ≡ id
    unfolding upgraded make_result
    upgraded-id start id target (ok _) w = refl
    upgraded-id start id target (err e) w = refl

    -- The result of a task that is routed carries the task's id.
    pub route_task-id :
        (t : Task V) (w : World V)
        → (route_task env sys states data_dir version t w).0.task_id ≡ task_id t
    unfolding route_task route_from task_id make_result
    route_task-id (exec t) w = refl
    route_task-id (cancel t) w = refl
    route_task-id (install t) w = refl
    route_task-id (upgrade t) w = refl
    route_task-id (remove t) w = refl
    route_task-id (self_upgrade t) w =
        upgraded-id (env.instant w.trace) t.id t.target_version
          (SelfUpgrade.execute env sys states _ _ _ version data_dir w).0
          (SelfUpgrade.execute env sys states _ _ _ version data_dir w).1
