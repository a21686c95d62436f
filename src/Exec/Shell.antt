-- ===== src/Exec/Shell.antt =====
-- crates/vasal-core/src/task/shell.rs: a script run by /bin/sh.
pub mod Laws
use vasal.Prelude.{
  ℕ, ◌*◌, ◌==◌, String, Option, none, some, [], ◌∷◌, Bool, false, leb, length, take, decimal,
  format, if◌then◌else◌,
}
use vasal.Prelude.Int.{ℤ, pos, neg, int_text}
use vasal.Protocol.Task.{ExecTask, TaskResult, TaskResultStatus}
use vasal.Codec.{Bytes}
use vasal.Host.{Env, ChildEnd}
use vasal.Host.Events.{Command, spawned, waited, killed, spilled}
use vasal.Host.Run
use vasal.Host.Run.{Run}
use vasal.Host.Act.{Act, pure, emit, happen, ask, ◌>>=◌, ◌>>◌}
use vasal.Exec.Credentials.{ResolvedCredentials, text_at}
use vasal.Exec.Outcome.{now, make_result, result_since}

-- `MAX_OUTPUT_SIZE`
abbrev pub max_output_size : ℕ
max_output_size = 16 * 1024 * 1024

-- `ExitStatus::success`
unfoldable pub is_success : Option ℤ → Bool
is_success (some (pos n)) = n == 0
is_success _ = false

-- `exit_status.code().unwrap_or(-1)`
unfoldable pub code_or_minus_one : Option ℤ → ℤ
code_or_minus_one none = neg 1
code_or_minus_one (some c) = c

module _ {V : Type 0} (env : Env V) where
  unfoldable pub truncate_output : Bytes → Act V String
  truncate_output bytes =
      if leb (length bytes) max_output_size then pure (env.lossy bytes) else (λ w.
        let path = env.spill_path w.trace in
        (
          format (
              env.lossy (take max_output_size bytes)
              ∷ "\n... [truncated — full output ("
              ∷ decimal (length bytes)
              ∷ " bytes) at "
              ∷ path
              ∷ "]"
              ∷ []),
          happen (spilled path bytes) w,
        ))

  -- The arms of the `select!`, after the branch that ran.
  unfoldable pub finish : ExecTask V → ℕ → ChildEnd → Run V TaskResult
  unfolding is_success code_or_minus_one truncate_output make_result decimal int_text
  finish exec start ChildEnd.cancelled =
      Run.lift
        (do emit killed; result_since env start exec.id TaskResultStatus.cancelled none "" "" none)
  finish exec start ChildEnd.timed_out = Run.lift (do
    emit killed
    result_since env start exec.id TaskResultStatus.timeout none "" ""
        (some (format ("timeout after " ∷ decimal exec.timeout_ms ∷ "ms" ∷ []))))
  finish exec start ChildEnd.left_open = Run.stuck
  finish exec start (ChildEnd.exited status stdout stderr) = Run.lift (do
    let exit_code = code_or_minus_one status.code
    out ← truncate_output stdout
    errors ← truncate_output stderr
    result_since env start exec.id
        (if is_success status.code then TaskResultStatus.success else TaskResultStatus.failed)
        (some exit_code) out errors
        (if is_success status.code
          then none
          else some (format ("exit code " ∷ int_text exit_code ∷ []))))
  finish exec start (ChildEnd.wait_failed e) = Run.lift (
      result_since env start exec.id TaskResultStatus.failed none "" e
        (some (format ("failed to wait for shell: " ∷ e ∷ []))))

  -- What follows `cmd.spawn()`.
  unfoldable pub run_child : ExecTask V → ℕ → Option String → Run V TaskResult
  unfolding finish
  run_child exec start (some e) = Run.lift (
      result_since env start exec.id TaskResultStatus.failed none "" e
        (some (format ("failed to spawn shell: " ∷ e ∷ []))))
  run_child exec start none = do
    end ← ask (λ t. env.wait t exec.timeout_ms) (waited exec.timeout_ms)
    finish exec start end

  unfoldable pub run_script :
      ExecTask V → ResolvedCredentials → ℕ → Option String → Run V TaskResult
  unfolding run_child text_at
  run_script exec creds start none = Run.lift (
      result_since env start exec.id TaskResultStatus.failed none ""
        "missing 'script' field in payload" (some "missing 'script' field in payload"))
  run_script exec creds start (some script) = do
    let cmd : Command = record {
      script = script;
      variables = creds;
      working_dir = text_at env exec.payload "working_dir";
    }
    refused ← ask (λ t. env.spawn t cmd) (spawned cmd)
    run_child exec start refused

  unfoldable pub execute : ExecTask V → ResolvedCredentials → Run V TaskResult
  unfolding run_script
  execute exec creds = do
    start ← now env
    run_script exec creds start (text_at env exec.payload "script")
