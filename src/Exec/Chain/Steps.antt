-- ===== src/Exec/Chain/Steps.antt =====
-- crates/vasal-core/src/task/chain.rs: how the results of a chain follow its steps.
use mathlib.Core.List.{append_assoc, append-nil}
use vasal.Prelude.{
  ℕ, ◌+◌, ◌%◌, ◌^◌, Bool, true, false, Option, none, some, List, [], ◌∷◌, ◌++◌, ◌≡◌, refl, sym, ap,
  subst, ◌∙◌, inl, inr, Bool-cases, FilePath,
}
use vasal.Prelude.Results.{Result, ok, err}
use vasal.Protocol.Task.{Uuid, ExecTask, ChainStep, TaskChain, TaskResult}
use vasal.Host.{Env, Trace}
use vasal.Host.Act.{World}
use vasal.Host.Run
use vasal.Host.Run.{Run}
use vasal.Host.Attempt.{Error}
use vasal.Exec.Credentials.{ResolvedCredentials}
use vasal.Exec.Outcome.{make_result}
use vasal.Exec.Chain.{
  succeeded, mark_step, step_result, run_step, run_steps, run_rollbacks, complete, execute,
}
use vasal.Exec.Chain.Named.{handled-IsFor, IsFor, run_once-IsFor}

-- The result of step `idx` of a chain.
pub record IsStepResult {V : Type 0} (chain_id : Uuid) (idx : ℕ) (step : ChainStep V)
    (r : TaskResult) : Type 0 where
  pub for_task : r.task_id ≡ step.task.id
  pub in_chain : r.chain_id ≡ some chain_id
  pub at_step : r.step_index ≡ some (idx % 2 ^ 32)

-- One result for each step from `idx` on, in order, until one does not succeed or a cancellation
-- is seen.
abbrev pub Follows : {V : Type 0} → Env V → Uuid → ℕ → List (ChainStep V) → List TaskResult → Type 0
Follows env chain_id idx [] rs = rs ≡ []
Follows env chain_id idx (s ∷ steps) [] = (t : Trace _) × (env.is_cancelled t ≡ true)
Follows env chain_id idx (s ∷ steps) (r ∷ rs) =
    IsStepResult chain_id idx s r × (elim (succeeded r.status) [
      | true ↦ Follows env chain_id (idx + 1) steps rs
      | false ↦ rs ≡ []
    ])

module _ {V : Type 0} (env : Env V) (socket_dir : FilePath) where
  step_result-IsFor :
      (t : ExecTask V) (creds : Result Error ResolvedCredentials) (w : World V)
      → IsFor t.id (step_result env socket_dir t creds w).0
  unfolding step_result make_result
  step_result-IsFor t (ok creds) w = run_once-IsFor env socket_dir t creds w
  step_result-IsFor t (err e) w = handled-IsFor t.id e _ w refl

  -- The results so far, and those of the steps that are left.
  Extends :
      TaskChain V → ℕ → List (ChainStep V) → List TaskResult → Option (List TaskResult) → Type 0
  Extends chain idx steps results none = Unit
  Extends chain idx steps results (some out) =
      (rs : List TaskResult) × (out ≡ results ++ rs) × Follows env chain.id idx steps rs

  IsStep : Uuid → ℕ → ChainStep V → Option TaskResult → Type 0
  IsStep chain_id idx step none = Unit
  IsStep chain_id idx step (some r) = IsStepResult chain_id idx step r

  marked :
      (chain_id : Uuid) (idx : ℕ) (step : ChainStep V) (m : Option TaskResult × World V)
      → IsFor step.task.id m.0
      → IsStep chain_id idx step
          (Run.continue m.0 (λ r. Run.return (mark_step chain_id idx r)) m.1).0
  unfolding mark_step IsStep
  marked chain_id idx step (none, w) h = tt
  marked chain_id idx step (some r, w) h = record { for_task = h; in_chain = refl; at_step = refl }

  run_step-IsStep :
      (chain : TaskChain V) (idx : ℕ) (step : ChainStep V) (w : World V)
      → IsStep chain.id idx step (run_step env socket_dir chain idx step.task w).0
  unfolding run_step
  run_step-IsStep chain idx step w =
      marked chain.id idx step (step_result env socket_dir step.task _ _)
        (step_result-IsFor step.task _ _)

  -- A successful step, and what the steps after it add.
  Extends-cons :
      (chain : TaskChain V) (idx : ℕ) (step : ChainStep V) (steps : List (ChainStep V))
      (results : List TaskResult) (r : TaskResult) (o : Option (List TaskResult))
      → IsStepResult chain.id idx step r
      → succeeded r.status ≡ true
      → Extends chain (idx + 1) steps (results ++ r ∷ []) o
      → Extends chain idx (step ∷ steps) results o
  unfolding Extends
  Extends-cons chain idx step steps results r none h p k = tt
  Extends-cons chain idx step steps results r (some out) h p k =
      (r ∷ k.0, k.1 ∙ append_assoc results (r ∷ []) k.0, (h, rw p k.2))

  -- A failed step ends the loop once its rollbacks are done.
  Extends-failed :
      (chain : TaskChain V) (idx : ℕ) (step : ChainStep V) (steps : List (ChainStep V))
      (results : List TaskResult) (r : TaskResult) (m : Option (Unit {0}) × World V)
      → IsStepResult chain.id idx step r
      → succeeded r.status ≡ false
      → Extends chain idx
          (step ∷ steps)
          results
          (Run.continue m.0 (λ _. Run.return (results ++ r ∷ [])) m.1).0
  unfolding Extends
  Extends-failed chain idx step steps results r (none, w) h p = tt
  Extends-failed chain idx step steps results r (some _, w) h p = (r ∷ [], refl, (h, rw p refl))

  -- What the loop does with a result, `b` whether it is a success.
  successful-Extends :
      (chain : TaskChain V) (idx : ℕ) (step : ChainStep V) (steps : List (ChainStep V))
      (results : List TaskResult) (r : TaskResult) (w : World V)
      → IsStepResult chain.id idx step r
      → ((more : List TaskResult) (w : World V)
          → Extends chain
              (idx + 1)
              steps
              more
              (run_steps env socket_dir chain (idx + 1) steps more w).0)
      → (b : Bool) → succeeded r.status ≡ b
      → Extends chain idx
          (step ∷ steps)
          results
          ((elim b as (λ _. Run V (List TaskResult)) [
            | true ↦ run_steps env socket_dir chain (idx + 1) steps (results ++ r ∷ [])
            | false ↦
                (Run.◌>>◌ (run_rollbacks env socket_dir chain idx) (Run.return (results ++ r ∷ [])))
          ])
            w).0
  successful-Extends chain idx step steps results r w h k true p =
      Extends-cons chain idx step steps results r _ h p (k (results ++ r ∷ []) w)
  successful-Extends chain idx step steps results r w h k false p =
      Extends-failed chain idx step steps results r (run_rollbacks env socket_dir chain idx w) h p

  -- What the loop does with the result of a step.
  after_step-Extends :
      (chain : TaskChain V) (idx : ℕ) (step : ChainStep V) (steps : List (ChainStep V))
      (results : List TaskResult) (m : Option TaskResult × World V)
      → IsStep chain.id idx step m.0
      → ((more : List TaskResult) (w : World V)
          → Extends chain
              (idx + 1)
              steps
              more
              (run_steps env socket_dir chain (idx + 1) steps more w).0)
      → Extends chain idx
          (step ∷ steps)
          results
          (Run.continue m.0
            (λ (result : TaskResult).
              elim (succeeded result.status) as (λ _. Run V (List TaskResult)) [
                | true ↦ run_steps env socket_dir chain (idx + 1) steps (results ++ result ∷ [])
                | false ↦
                    (Run.◌>>◌
                      (run_rollbacks env socket_dir chain idx)
                      (Run.return (results ++ result ∷ [])))
              ])
            m.1).0
  unfolding Extends IsStep
  after_step-Extends chain idx step steps results (none, w) h k = tt
  after_step-Extends chain idx step steps results (some r, w) h k =
      successful-Extends chain idx step steps results r w h k (succeeded r.status) refl

  run_steps-Extends :
      (chain : TaskChain V) (idx : ℕ) (steps : List (ChainStep V)) (results : List TaskResult)
      (w : World V)
      → Extends chain idx steps results (run_steps env socket_dir chain idx steps results w).0
  unfolding run_steps complete Extends
  run_steps-Extends chain idx [] results w = ([], sym (append-nil results), refl)
  run_steps-Extends chain idx (step ∷ steps) results w =
      elim (Bool-cases (env.is_cancelled w.trace)) [
        | inl p ↦ rw p ([], sym (append-nil results), (w.trace, p))
        | inr p ↦ rw p (
            after_step-Extends chain idx step steps results
              (run_step env socket_dir chain idx step.task w) (run_step-IsStep chain idx step w)
              (λ more w'. run_steps-Extends chain (idx + 1) steps more w'))
      ]

  -- The results of a chain that returns follow its steps: result `i` carries the id of the task of
  -- step `i`, the id of the chain and the step index modulo 2 ^ 32; every result but the last is a
  -- success; and there are fewer results than steps only where the last one is no success or a
  -- cancellation was seen.
  pub execute-Follows :
      (chain : TaskChain V) (results : List TaskResult) (w w' : World V)
      → execute env socket_dir chain w ≡ (some results, w')
      → Follows env chain.id 0 chain.steps results
  unfolding execute Extends
  execute-Follows chain results w w' e =
      let h = run_steps-Extends chain 0 chain.steps [] _ in
      let r : Extends chain 0 chain.steps [] (some results) =
        subst (λ (o : Option (List TaskResult)). Extends chain 0 chain.steps [] o) (ap (λ x. x.0) e)
          h in
      subst (λ (l : List TaskResult). Follows env chain.id 0 chain.steps l) (sym r.1) r.2
