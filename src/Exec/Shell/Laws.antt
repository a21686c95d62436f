-- ===== src/Exec/Shell/Laws.antt =====
-- When a shell task succeeds.
use vasal.Prelude.{ℕ, suc, zero, String, Option, none, some, ◌∷◌, true, ◌≡◌, ◌↔◌, arith}
use vasal.Prelude.Int.{ℤ, pos, negsuc}
use vasal.Protocol.Task.{ExecTask, TaskResult, TaskResultStatus}
use vasal.Host.{Env, Trace, ChildEnd}
use vasal.Host.Act.{World, happen}
use vasal.Host.Events.{Command, spawned}
use vasal.Exec.Credentials.{ResolvedCredentials, text_at}
use vasal.Exec.Outcome.{make_result}
use vasal.Exec.Shell.{is_success, finish, run_child, run_script, execute}

-- The child ended by itself, with the exit code 0.
abbrev pub ExitedZero : ChildEnd → Type 0
ExitedZero (ChildEnd.exited status stdout stderr) = status.code ≡ some (pos 0)
ExitedZero _ = ⊥

-- The child was started, and ended so.
abbrev pub StartedAndExitedZero : Option String → ChildEnd → Type 0
StartedAndExitedZero none end = ExitedZero end
StartedAndExitedZero (some e) end = ⊥

is_success_iff : (c : Option ℤ) → (is_success c ≡ true) ↔ (c ≡ some (pos 0))
unfolding is_success
is_success_iff none = ground arith
is_success_iff (some (pos zero)) = ground arith
is_success_iff (some (pos (suc n))) = ground arith
is_success_iff (some (negsuc n)) = ground arith

-- It returned a result that is a success.
abbrev pub Succeeds : Option TaskResult → Type 0
Succeeds none = ⊥
Succeeds (some r) = r.status ≡ TaskResultStatus.success

-- The command that a task runs.
abbrev pub command_of : {V : Type 0} → Env V → ExecTask V → ResolvedCredentials → String → Command
command_of env t creds script = record {
  script = script;
  variables = creds;
  working_dir = text_at env t.payload "working_dir";
}

module _ {V : Type 0} (env : Env V) where
  finish-success :
      (t : ExecTask V) (start : ℕ) (end : ChildEnd) (w : World V)
      → Succeeds (finish env t start end w).0 ↔ ExitedZero end
  unfolding finish make_result
  finish-success t start ChildEnd.cancelled w = ground arith
  finish-success t start ChildEnd.timed_out w = ground arith
  finish-success t start ChildEnd.left_open w = ground arith
  finish-success t start (ChildEnd.exited status stdout stderr) w =
      ground (arith, is_success_iff status.code)
  finish-success t start (ChildEnd.wait_failed e) w = ground arith

  -- The payload has a script, which was started after the trace `l` and exited with 0.
  abbrev pub RanWell : ExecTask V → ResolvedCredentials → Trace V → Option String → Type 0
  RanWell t creds l none = ⊥
  RanWell t creds l (some script) =
      let cmd = command_of env t creds script in
      StartedAndExitedZero (env.spawn l cmd) (env.wait (spawned cmd ∷ l) t.timeout_ms)

  child-success :
      (t : ExecTask V) (start : ℕ) (refused : Option String) (w : World V)
      → Succeeds (run_child env t start refused w).0
        ↔ StartedAndExitedZero refused (env.wait w.trace t.timeout_ms)
  unfolding run_child make_result
  child-success t start none w = finish-success t start (env.wait w.trace t.timeout_ms) _
  child-success t start (some e) w = ground arith

  script-success :
      (t : ExecTask V) (creds : ResolvedCredentials) (start : ℕ) (script : Option String)
      (w : World V)
      → Succeeds (run_script env t creds start script w).0 ↔ RanWell t creds w.trace script
  unfolding run_script make_result
  script-success t creds start none w = ground arith
  script-success t creds start (some script) w =
      child-success t start _ (happen (spawned (command_of env t creds script)) w)

  -- A shell task succeeds exactly where its payload has a script and the child that runs it, with the
  -- credentials as variables, is started and exits by itself with the code 0, and its
  -- output is closed: never after a cancellation, a timeout, a signal or another code.
  pub execute-success :
      (t : ExecTask V) (creds : ResolvedCredentials) (w : World V)
      → Succeeds (execute env t creds w).0
        ↔ RanWell t creds w.trace (text_at env t.payload "script")
  unfolding execute
  execute-success t creds w = script-success t creds _ (text_at env t.payload "script") w
