-- ===== src/Exec/Route.antt =====
-- crates/vasal-core/src/task/router.rs: `execute_exec`, and `route_task` for the tasks that are not
-- exec tasks.
pub mod Laws
use vasal.Prelude.{ℕ, String, Option, none, some, [], ◌∷◌, FilePath, format, ◌≡◌, refl}
use vasal.Prelude.Results.{Result, ok, err}
use vasal.Protocol.Task.{
  ExecTask, ExecKind, Task, TaskResult, TaskResultStatus, exec, cancel, install, upgrade, remove,
  self_upgrade, task_id,
}
use vasal.Host.{Env}
use vasal.Host.Act.{Act, World, ◌>>=◌}
use vasal.Host.Run
use vasal.Host.Run.{Run}
use vasal.Host.Attempt.{Error, error_text}
use vasal.Host.System.{System}
use vasal.Exec.Outcome.{now, result_since}
use vasal.Exec.Router.{execute_oneshot}
use vasal.Exec.Continuous
use vasal.SelfUpgrade
use vasal.SelfUpgrade.{StateFormat}

module _ {V : Type 0} (env : Env V) (sys : System V) where
  -- A continuous task runs for at most `fuel` ticks.
  unfoldable pub execute_as : ExecKind → (fuel : ℕ) → FilePath → ExecTask V → Run V TaskResult
  unfolding execute_oneshot Continuous.run
  execute_as ExecKind.oneshot fuel socket_dir t = execute_oneshot env socket_dir t
  execute_as ExecKind.continuous fuel socket_dir t = Continuous.run env sys socket_dir fuel t

  unfoldable pub execute_exec : (fuel : ℕ) → FilePath → ExecTask V → Run V TaskResult
  unfolding execute_as
  execute_exec fuel socket_dir t = execute_as t.kind fuel socket_dir t

  -- The version is `CARGO_PKG_VERSION`.
  module _ (states : StateFormat) (data_dir : FilePath) (version : String) where
    unfoldable pub upgraded : (start id : ℕ) → String → Result Error (Unit {0}) → Act V TaskResult
    unfolding error_text
    upgraded start id target (ok _) =
        result_since env start id TaskResultStatus.success none
          (format ("self-upgrade to " ∷ target ∷ " prepared — restart required" ∷ [])) "" none
    upgraded start id target (err e) =
        result_since env start id TaskResultStatus.failed none "" (error_text e)
          (some (error_text e))

    abbrev misrouted : (start id : ℕ) → Act V TaskResult
    misrouted start id =
        result_since env start id TaskResultStatus.failed none "" "internal routing error"
          (some "exec/cancel should not reach route_task")

    unfoldable pub route_from : (start : ℕ) → Task V → Act V TaskResult
    unfolding upgraded SelfUpgrade.execute
    route_from start (install t) =
        result_since env start t.id TaskResultStatus.success none
          (format ("installed unit " ∷ t.unit.name ∷ [])) "" none
    route_from start (upgrade t) =
        result_since env start t.id TaskResultStatus.success none
          (format ("upgraded unit " ∷ t.unit_name ∷ " to " ∷ t.target_version ∷ [])) "" none
    route_from start (remove t) =
        result_since env start t.id TaskResultStatus.success none
          (format ("removed unit " ∷ t.unit_name ∷ [])) "" none
    route_from start (self_upgrade t) = do
      done ←
          SelfUpgrade.execute env sys states t.artifact.url t.artifact.sha256 t.target_version
            version data_dir
      upgraded start t.id t.target_version done
    route_from start (exec t) = misrouted start t.id
    route_from start (cancel t) = misrouted start t.id

    unfoldable pub route_task : Task V → Act V TaskResult
    unfolding route_from
    route_task t = do start ← now env; route_from start t
