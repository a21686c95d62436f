-- ===== src/Exec/Chain/Ends.antt =====
-- crates/vasal-core/src/task/chain.rs: a chain ends.
use vasal.Prelude.{
  ℕ, ◌+◌, Bool, true, false, Option, none, some, List, [], ◌∷◌, ◌++◌, get_elem?, ◌≡◌, refl,
  FilePath,
}
use vasal.Prelude.Results.{Result, ok, err}
use vasal.Protocol.Task.{Uuid, ExecTask, ChainStep, TaskChain, TaskResult}
use vasal.Host.{Env}
use vasal.Host.Act.{World, Act, happen, emit, observe}
use vasal.Host.Events.{chain_step, chain_cancelled}
use vasal.Host.Run
use vasal.Host.Run.{Run}
use vasal.Host.Attempt.{Error}
use vasal.Exec.Credentials.{ResolvedCredentials, resolve_eager}
use vasal.Exec.Router.{run_once}
use vasal.Exec.Chain.{
  succeeded, mark_step, step_result, rollback_result, rollback_at, rollback_each, rollback_range,
  run_rollbacks, complete, run_step, run_steps, execute,
}
use vasal.Exec.Trace.{Clock}
use vasal.Exec.Trace.Answers.{Answers, IsAnswered, resolve_eager-IsAnswered}
use vasal.Exec.Trace.Ends.{Returns, handled-Returns}
use vasal.Exec.Trace.Once.{run_once-Returns}

-- An action that returns whatever happened before it.
pub record Total {V A : Type 0} (m : Run V A) : Type 0 where
  pub returns : (w : World V) → Returns (m w).0

module _ {V : Type 0} where
  continue-Returns :
      {A B : Type 0} (m : Option A × World V) (f : A → Run V B)
      → Returns m.0
      → ((a : A) → Total (f a))
      → Returns (Run.continue m.0 f m.1).0
  continue-Returns (none, w) f h k = absurd h
  continue-Returns (some a, w) f h k = (k a).returns w

  pub bind-Total :
      {A B : Type 0} {f : A → Run V B} (m : Run V A)
      → Total m
      → ((a : A) → Total (f a))
      → Total (Run.◌>>=◌ m f)
  bind-Total {f} m h k = record { returns = λ w. continue-Returns (m w) f (h.returns w) k }

  lift-Total : {A : Type 0} (m : Act V A) → Total (Run.lift m)
  lift-Total m = record { returns = λ w. tt }

  branch-Total :
      {A : Type 0} {x y : Run V A} (b : Bool)
      → Total x
      → Total y
      → Total (elim b as (λ _. Run V A) [ true ↦ x | false ↦ y ])
  branch-Total true h k = h
  branch-Total false h k = k

module _ {V : Type 0} (env : Env V) (clock : Clock env) (host : Answers env)
    (socket_dir : FilePath) where
  run_once-Total :
      (t : ExecTask V) (creds : ResolvedCredentials) → Total (run_once env socket_dir t creds)
  run_once-Total t creds = record { returns = run_once-Returns env clock host socket_dir t creds }

  step_result-Total :
      (t : ExecTask V) (creds : Result Error ResolvedCredentials)
      → IsAnswered creds
      → Total (step_result env socket_dir t creds)
  unfolding step_result
  step_result-Total t (ok creds) h = run_once-Total t creds
  step_result-Total t (err e) h = record { returns = λ w. handled-Returns e _ w h tt }

  rollback_result-Total :
      (t : ExecTask V) (creds : Result Error ResolvedCredentials)
      → IsAnswered creds
      → Total (rollback_result env socket_dir t creds)
  unfolding rollback_result
  rollback_result-Total t (ok creds) h =
      bind-Total (run_once env socket_dir t creds) (run_once-Total t creds)
        λ _. record { returns = λ w. tt }
  rollback_result-Total t (err e) h = record { returns = λ w. handled-Returns e _ w h tt }

  planned-Total :
      (chain_id : Uuid) (idx : ℕ) (step : ChainStep V) (o : Option (ExecTask V))
      → step.rollback ≡ o
      → Total (rollback_at env socket_dir chain_id idx (some step))
  unfolding rollback_at
  planned-Total chain_id idx step none e = rw e (lift-Total _)
  planned-Total chain_id idx step (some t) e = rw e (record {
    returns = λ w.
        (rollback_result-Total t _
            (resolve_eager-IsAnswered env host t.credentials socket_dir _)).returns
          _;
  })

  rollback_at-Total :
      (chain_id : Uuid) (idx : ℕ) (step : Option (ChainStep V))
      → Total (rollback_at env socket_dir chain_id idx step)
  unfolding rollback_at
  rollback_at-Total chain_id idx none = record { returns = λ w. tt }
  rollback_at-Total chain_id idx (some step) = planned-Total chain_id idx step step.rollback refl

  rollback_each-Total :
      (chain : TaskChain V) (range : List ℕ) → Total (rollback_each env socket_dir chain range)
  unfolding rollback_each
  rollback_each-Total chain [] = record { returns = λ w. tt }
  rollback_each-Total chain (idx ∷ range) =
      bind-Total (rollback_at env socket_dir chain.id idx (get_elem? chain.steps idx))
        (rollback_at-Total chain.id idx (get_elem? chain.steps idx))
        λ _. rollback_each-Total chain range

  run_rollbacks-Total :
      (chain : TaskChain V) (idx : ℕ) → Total (run_rollbacks env socket_dir chain idx)
  unfolding run_rollbacks
  run_rollbacks-Total chain idx = record {
    returns = λ w. (rollback_each-Total chain (rollback_range chain.on_failure idx)).returns _;
  }

  run_step-Total :
      (chain : TaskChain V) (idx : ℕ) (t : ExecTask V) → Total (run_step env socket_dir chain idx t)
  unfolding run_step
  run_step-Total chain idx t = record {
    returns = λ w.
        let noted = happen (chain_step chain.id idx) w in
        let creds = resolve_eager env t.credentials socket_dir noted in
        continue-Returns (step_result env socket_dir t creds.0 creds.1) _
          ((step_result-Total t creds.0
              (resolve_eager-IsAnswered env host t.credentials socket_dir noted)).returns
            creds.1)
          (λ result. lift-Total (λ w. (mark_step chain.id idx result, w)));
  }

  complete-Total :
      (chain : TaskChain V) (results : List TaskResult)
      → Total (complete env socket_dir chain results)
  unfolding complete
  complete-Total chain results = record { returns = λ w. tt }

  run_steps-Total :
      (chain : TaskChain V) (idx : ℕ) (steps : List (ChainStep V)) (results : List TaskResult)
      → Total (run_steps env socket_dir chain idx steps results)
  unfolding run_steps
  run_steps-Total chain idx [] results = complete-Total chain results
  run_steps-Total chain idx (step ∷ steps) results =
      bind-Total (Run.lift (observe env.is_cancelled)) (lift-Total _) λ cancelled.
        branch-Total cancelled
          (bind-Total (Run.lift (emit (chain_cancelled chain.id idx))) (lift-Total _)
            λ _. complete-Total chain results)
          (bind-Total (run_step env socket_dir chain idx step.task)
            (run_step-Total chain idx step.task)
            λ result.
              branch-Total (succeeded result.status)
                (run_steps-Total chain (idx + 1) steps (results ++ result ∷ []))
                (bind-Total (run_rollbacks env socket_dir chain idx) (run_rollbacks-Total chain idx)
                  λ _. lift-Total (λ w. (results ++ result ∷ [], w))))

  -- Where the monotonic clock does not go back, an uninterrupted sleep takes its time, every call to a
  -- sidecar is answered and the output of every child is closed, a chain returns its results: no step
  -- and no rollback polls for ever.
  pub execute-Returns :
      (chain : TaskChain V) (w : World V) → Returns (execute env socket_dir chain w).0
  unfolding execute
  execute-Returns chain w = (run_steps-Total chain 0 chain.steps []).returns _
