-- ===== src/Exec/Trace/Once.antt =====
-- One execution of a task ends, at a sidecar or in a shell.
use vasal.Prelude.{ℕ, String, Option, none, some, ◌≡◌, ◌≢◌, refl, FilePath}
use vasal.Protocol.Task.{ExecTask, Executor}
use vasal.Host.{Env, ChildEnd}
use vasal.Host.Act.{World}
use vasal.Exec.Credentials.{ResolvedCredentials, text_at}
use vasal.Exec.Shell
use vasal.Exec.Shell.{finish, run_child, run_script}
use vasal.Exec.Sidecar
use vasal.Exec.Router.{run_once}
use vasal.Exec.Trace.{Clock, instant-Quiet}
use vasal.Exec.Trace.Answers.{Answers, call_raw-IsAnswered}
use vasal.Exec.Trace.Parts.{call_raw-IsQuiet}
use vasal.Exec.Trace.Ends.{Returns, on_response-Returns}

module _ {V : Type 0} (env : Env V) (clock : Clock env) (host : Answers env)
    (socket_dir : FilePath) where
  shell_finish-Returns :
      (t : ExecTask V) (start : ℕ) (end : ChildEnd) (w : World V)
      → end ≢ ChildEnd.left_open
      → Returns (finish env t start end w).0
  unfolding finish
  shell_finish-Returns t start ChildEnd.cancelled w h = tt
  shell_finish-Returns t start ChildEnd.timed_out w h = tt
  shell_finish-Returns t start ChildEnd.left_open w h = absurd (h refl)
  shell_finish-Returns t start (ChildEnd.exited status stdout stderr) w h = tt
  shell_finish-Returns t start (ChildEnd.wait_failed e) w h = tt

  run_child-Returns :
      (t : ExecTask V) (start : ℕ) (refused : Option String) (w : World V)
      → Returns (run_child env t start refused w).0
  unfolding run_child
  run_child-Returns t start (some e) w = tt
  run_child-Returns t start none w =
      shell_finish-Returns t start (env.wait w.trace t.timeout_ms) _
        (host.closes w.trace t.timeout_ms)

  run_script-Returns :
      (t : ExecTask V) (creds : ResolvedCredentials) (start : ℕ) (script : Option String)
      (w : World V)
      → Returns (run_script env t creds start script w).0
  unfolding run_script
  run_script-Returns t creds start none w = tt
  run_script-Returns t creds start (some script) w = run_child-Returns t start _ _

  shell-Returns :
      (t : ExecTask V) (creds : ResolvedCredentials) (w : World V)
      → Returns (Shell.execute env t creds w).0
  unfolding Shell.execute
  shell-Returns t creds w = run_script-Returns t creds _ (text_at env t.payload "script") w

  executor-Returns :
      (t : ExecTask V) (creds : ResolvedCredentials) (w : World V) (x : Executor)
      → t.executor ≡ x
      → Returns (run_once env socket_dir t creds w).0
  unfolding run_once Sidecar.execute
  executor-Returns t creds w Executor.shell p = rw p (shell-Returns t creds w)
  executor-Returns t creds w Executor.sidecar p = rw p (
      on_response-Returns env clock host t.id _ t.timeout_ms (env.instant w.trace) _ _ _
        (instant-Quiet env clock ((call_raw-IsQuiet env _ _ _).quiet w))
        (call_raw-IsAnswered env host _ _ _ w))

  -- Where the monotonic clock does not go back, an uninterrupted sleep takes its time and every call
  -- and every child comes back, running a task returns a result: the polling of an accepted task is
  -- within its fuel.
  pub run_once-Returns :
      (t : ExecTask V) (creds : ResolvedCredentials) (w : World V)
      → Returns (run_once env socket_dir t creds w).0
  run_once-Returns t creds w = executor-Returns t creds w t.executor refl
