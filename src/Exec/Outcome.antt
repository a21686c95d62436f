-- ===== src/Exec/Outcome.antt =====
-- crates/vasal-core/src/task/router.rs: `make_result`, and the clock that executors read.
use vasal.Prelude.{ℕ, ◌-◌, ◌/◌, ◌%◌, ◌^◌, String, Option, none}
use vasal.Prelude.Int.{ℤ}
use vasal.Protocol.Task.{Uuid, TaskResult, TaskResultStatus}
use vasal.Host.{Env}
use vasal.Host.Act.{Act, observe, ◌>>=◌}

-- `elapsed.as_millis() as u64`
unfoldable pub as_millis : ℕ → ℕ
as_millis nanos = nanos / 1_000_000 % 2 ^ 64

module _ {V : Type 0} (env : Env V) where
  -- `Instant::now()`
  abbrev pub now : Act V ℕ
  now = observe env.instant

  -- `start.elapsed()`
  abbrev pub elapsed : ℕ → Act V ℕ
  elapsed start = observe (λ t. env.instant t - start)

  unfoldable pub make_result :
      Uuid
      → TaskResultStatus
      → Option ℤ
      → (stdout stderr : String) → (nanos : ℕ) → Option String
      → Act V TaskResult
  unfolding as_millis
  make_result task_id status exit_code stdout stderr nanos error = observe λ t. record {
    task_id = task_id;
    chain_id = none;
    step_index = none;
    status = status;
    exit_code = exit_code;
    stdout = stdout;
    stderr = stderr;
    duration_ms = as_millis nanos;
    timestamp = env.wall_ms t;
    error = error;
  }

  -- `make_result(…, start.elapsed(), error)`
  abbrev pub result_since :
      ℕ
      → Uuid
      → TaskResultStatus
      → Option ℤ
      → (stdout stderr : String) → Option String
      → Act V TaskResult
  result_since start task_id status exit_code stdout stderr error = do
    nanos ← elapsed start
    make_result task_id status exit_code stdout stderr nanos error
