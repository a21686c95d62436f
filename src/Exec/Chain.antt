-- ===== src/Exec/Chain.antt =====
-- crates/vasal-core/src/task/chain.rs: the steps of a chain in turn, and the rollbacks after one that
-- fails.
pub mod Named
pub mod Steps
pub mod Ends
pub mod Undo
pub mod Rollbacks
pub mod Undone
pub mod Runs
use vasal.Prelude.{
  ℕ, zero, suc, ◌+◌, ◌%◌, ◌^◌, String, Option, none, some, List, [], ◌∷◌, ◌++◌, Bool, true, false,
  length, get_elem?, FilePath, if◌then◌else◌,
}
use vasal.Prelude.Results.{Result, ok, err}
use vasal.Protocol.Task.{
  Uuid, ExecTask, ChainStep, TaskChain, RollbackStrategy, rollback_failed, rollback_all, TaskResult,
  TaskResultStatus,
}
use vasal.Host.{Env}
use vasal.Host.Events.{chain_step, chain_cancelled, rollback_step, rollback_skipped}
use vasal.Host.Act.{emit, observe}
use vasal.Host.Act
use vasal.Host.Run.{Run, return, lift, handled, ◌>>=◌, ◌>>◌}
use vasal.Host.Attempt.{Error, error_text}
use vasal.Audit
use vasal.Audit.{record_event}
use vasal.Exec.Credentials.{ResolvedCredentials, resolve_eager}
use vasal.Exec.Outcome.{make_result}
use vasal.Exec.Router.{run_once}

unfoldable pub succeeded : TaskResultStatus → Bool
succeeded TaskResultStatus.success = true
succeeded _ = false

-- `result.chain_id = Some(chain_id); result.step_index = Some(idx as u32);`
unfoldable pub mark_step : Uuid → ℕ → TaskResult → TaskResult
mark_step chain_id idx r = record r { chain_id = some chain_id; step_index = some (idx % 2 ^ 32) }

-- `(0..=n).rev()`
unfoldable pub down_from : ℕ → List ℕ
down_from zero = 0 ∷ []
down_from (suc n) = suc n ∷ down_from n

unfoldable pub rollback_range : RollbackStrategy → ℕ → List ℕ
unfolding down_from
rollback_range rollback_failed failed_step_idx = failed_step_idx ∷ []
rollback_range rollback_all failed_step_idx = down_from failed_step_idx

-- `{:?}` of the strategy
unfoldable pub strategy_text : RollbackStrategy → String
strategy_text rollback_failed = "RollbackFailed"
strategy_text rollback_all = "RollbackAll"

module _ {V : Type 0} (env : Env V) (socket_dir : FilePath) where
  -- A step after its credentials: a failure to resolve them is a failed result.
  unfoldable pub step_result : ExecTask V → Result Error ResolvedCredentials → Run V TaskResult
  unfolding run_once error_text make_result handled
  step_result t (ok creds) = run_once env socket_dir t creds
  step_result t (err e) = handled e (
      lift (
        make_result env t.id TaskResultStatus.failed none "" (error_text e) 0
          (some (error_text e))))

  -- A rollback after its credentials: where they fail it is given up, and its result is only logged.
  unfoldable pub rollback_result : ExecTask V → Result Error ResolvedCredentials → Run V (Unit {0})
  unfolding run_once handled
  rollback_result t (ok creds) = run_once env socket_dir t creds >>= λ _. return tt
  rollback_result t (err e) = handled e (return tt)

  unfoldable pub rollback_at : Uuid → ℕ → Option (ChainStep V) → Run V (Unit {0})
  unfolding rollback_result resolve_eager
  rollback_at chain_id idx none = return tt
  rollback_at chain_id idx (some step) = elim step.rollback [
    | none ↦ lift (emit (rollback_skipped chain_id idx))
    | some t ↦ (do
      lift (emit (rollback_step chain_id idx))
      creds ← lift (resolve_eager env t.credentials socket_dir)
      rollback_result t creds)
  ]

  unfoldable pub rollback_each : TaskChain V → List ℕ → Run V (Unit {0})
  unfolding rollback_at
  rollback_each chain [] = return tt
  rollback_each chain (idx ∷ range) = do
    rollback_at chain.id idx (get_elem? chain.steps idx)
    rollback_each chain range

  unfoldable pub run_rollbacks : TaskChain V → ℕ → Run V (Unit {0})
  unfolding rollback_each rollback_range record_event strategy_text
  run_rollbacks chain failed_step_idx = do
    lift (
        record_event env Audit.chain_rollback (some (env.uuid_text chain.id)) (
          env.object (
            ("strategy", env.text (strategy_text chain.on_failure))
            ∷ ("failed_step", env.number failed_step_idx)
            ∷ [])))
    rollback_each chain (rollback_range chain.on_failure failed_step_idx)

  -- The end of the loop, reached after the last step and after a cancellation.
  unfoldable pub complete : TaskChain V → List TaskResult → Run V (List TaskResult)
  unfolding record_event
  complete chain results = do
    lift (
        record_event env Audit.chain_completed (some (env.uuid_text chain.id))
          (env.object (("steps_completed", env.number (length results)) ∷ [])))
    return results

  unfoldable pub run_step : TaskChain V → ℕ → ExecTask V → Run V TaskResult
  unfolding step_result resolve_eager mark_step
  run_step chain idx t = do
    lift (emit (chain_step chain.id idx))
    creds ← lift (resolve_eager env t.credentials socket_dir)
    result ← step_result t creds
    return (mark_step chain.id idx result)

  -- The loop over the steps that are left, `idx` the index of the first of them.
  unfoldable pub run_steps :
      TaskChain V → ℕ → List (ChainStep V) → List TaskResult → Run V (List TaskResult)
  unfolding run_step complete run_rollbacks succeeded
  run_steps chain idx [] results = complete chain results
  run_steps chain idx (step ∷ steps) results = do
    cancelled ← lift (observe env.is_cancelled)
    elim cancelled [
      | true ↦ (do lift (emit (chain_cancelled chain.id idx)); complete chain results)
      | false ↦ (do
        result ← run_step chain idx step.task
        elim (succeeded result.status) [
          | true ↦ run_steps chain (idx + 1) steps (results ++ result ∷ [])
          | false ↦ (do run_rollbacks chain idx; return (results ++ result ∷ []))
        ])
    ]

  unfoldable pub execute : TaskChain V → Run V (List TaskResult)
  unfolding run_steps record_event
  execute chain = do
    lift (
        record_event env Audit.chain_started (some (env.uuid_text chain.id))
          (env.object (("steps", env.number (length chain.steps)) ∷ [])))
    run_steps chain 0 chain.steps []
