-- ===== src/Exec/Router.antt =====
-- crates/vasal-core/src/task/router.rs: one execution of a task, and the tasks that are not exec
-- tasks. `run_once` is the code that `execute_oneshot`, the chain executor and the ticks of a
-- continuous task share: the `match` on the executor.
use vasal.Prelude.{ℕ, String, Option, none, some, FilePath}
use vasal.Prelude.Results.{Result, ok, err}
use vasal.Protocol.Task.{Executor, ExecTask, TaskResult, TaskResultStatus}
use vasal.Host.{Env}
use vasal.Host.Act.{◌>>=◌}
use vasal.Host.Run
use vasal.Host.Run.{Run}
use vasal.Host.Attempt.{Error, error_text}
use vasal.Exec.Credentials.{ResolvedCredentials, resolve_eager}
use vasal.Exec.Outcome.{now, result_since}
use vasal.Exec.Shell
use vasal.Exec.Sidecar

-- `as_deref().unwrap_or(default)`
abbrev or_else : Option String → String → String
or_else none default = default
or_else (some s) default = s

module _ {V : Type 0} (env : Env V) (socket_dir : FilePath) where
  unfoldable pub run_once : ExecTask V → ResolvedCredentials → Run V TaskResult
  unfolding Shell.execute Sidecar.execute
  run_once t creds = elim t.executor [
    | Executor.shell ↦ Shell.execute env t creds
    | Executor.sidecar ↦
        Sidecar.execute env t.id (or_else t.target "unknown") (or_else t.method "submit") t.payload
          t.credentials creds t.timeout_ms socket_dir
  ]

  -- What follows the resolution of the credentials.
  unfoldable pub with_resolved :
      ExecTask V → ℕ → Result Error ResolvedCredentials → Run V TaskResult
  unfolding run_once error_text Run.handled
  with_resolved t start (ok creds) = run_once t creds
  with_resolved t start (err e) = Run.handled e (
      Run.lift (
        result_since env start t.id TaskResultStatus.failed none "" (error_text e)
          (some (error_text e))))

  unfoldable pub execute_oneshot : ExecTask V → Run V TaskResult
  unfolding with_resolved resolve_eager
  execute_oneshot t = do
    start ← now env
    creds ← resolve_eager env t.credentials socket_dir
    with_resolved t start creds
