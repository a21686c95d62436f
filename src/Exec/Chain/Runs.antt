-- ===== src/Exec/Chain/Runs.antt =====
-- crates/vasal-core/src/task/chain.rs: what a chain runs, as a relation between the world before and
-- the world after: which tasks, in which order, with which credentials.
use vasal.Prelude.{
  ℕ, ◌+◌, length, Bool, true, false, Option, none, some, List, [], ◌∷◌, ◌++◌, ◌≡◌, refl, sym, ap,
  subst, ◌∙◌, FilePath, inl, inr, Bool-cases,
}
use mathlib.Core.List.{append_assoc, append-nil}
use vasal.Prelude.Results.{Result, ok, err}
use vasal.Protocol.Task.{ExecTask, ChainStep, TaskChain, TaskResult, TaskResultStatus}
use vasal.Host.{Env}
use vasal.Host.Act.{World, happen}
use vasal.Host.Events.{chain_step, chain_cancelled}
use vasal.Host.Run
use vasal.Host.Run.{Run}
use vasal.Host.Attempt.{Error}
use vasal.Exec.Credentials.{ResolvedCredentials, resolve_eager}
use vasal.Exec.Outcome.{make_result}
use vasal.Audit
use vasal.Audit.{record_event}
use vasal.Exec.Chain.{
  strategy_text, rollback_range, succeeded, mark_step, step_result, run_rollbacks, complete,
  run_step, run_steps, execute,
}
use vasal.Exec.Trace.{notes}
use vasal.Exec.Chain.Rollbacks.{history, execute-history}
use vasal.Exec.Chain.Undone.{
  Ran, executed, unresolved, Undone, world_of, value_or, handled-some, bind-some,
  rollback_each-Undone,
}

module _ {V : Type 0} (env : Env V) (socket_dir : FilePath) where
  -- The audit events before the first step and before the first rollback.
  abbrev pub started : TaskChain V → World V → World V
  started chain w =
      (record_event env Audit.chain_started (some (env.uuid_text chain.id))
        (env.object (("steps", env.number (length chain.steps)) ∷ [])) w).1

  abbrev pub rolling_back : TaskChain V → ℕ → World V → World V
  rolling_back chain idx w =
      (record_event env Audit.chain_rollback (some (env.uuid_text chain.id))
        (env.object (
          ("strategy", env.text (strategy_text chain.on_failure))
          ∷ ("failed_step", env.number idx)
          ∷ []))
        w).1

  -- The result that the chain keeps of a step, for what the step's task gave.
  abbrev pub IsKept : TaskChain V → ℕ → ExecTask V → Option TaskResult → TaskResult → Type 0
  IsKept chain idx t (some given) r = r ≡ mark_step chain.id idx given
  IsKept chain idx t none r = (r.status ≡ TaskResultStatus.failed) × (r.task_id ≡ t.id)

  -- The steps from `idx` on, after the results `before`, with the results that they give. A step is
  -- run only where the chain is not cancelled; after the first that is no success come the rollbacks
  -- of its range and nothing else.
  pub data Chained (chain : TaskChain V)
      : ℕ
        → List (ChainStep V)
        → List TaskResult
        → List TaskResult
        → World V
        → World V
        → Type 0 where
    all_run :
        {idx : ℕ} {before : List TaskResult} {w : World V}
        → Chained chain idx [] before [] w (complete env socket_dir chain before w).1
    stopped :
        {idx : ℕ} {step : ChainStep V} {steps : List (ChainStep V)} {before : List TaskResult}
        {w : World V}
        → env.is_cancelled w.trace ≡ true
        → Chained chain idx
            (step ∷ steps)
            before
            []
            w
            (complete env socket_dir chain before (happen (chain_cancelled chain.id idx) w)).1
    succeeds :
        {idx : ℕ} {step : ChainStep V} {steps : List (ChainStep V)}
        {before results : List TaskResult} {w w' w'' : World V} (given : Option TaskResult)
        (r : TaskResult)
        → env.is_cancelled w.trace ≡ false
        → Ran env socket_dir step.task (happen (chain_step chain.id idx) w) given w'
        → IsKept chain idx step.task given r
        → succeeded r.status ≡ true
        → Chained chain (idx + 1) steps (before ++ r ∷ []) results w' w''
        → Chained chain idx (step ∷ steps) before (r ∷ results) w w''
    fails :
        {idx : ℕ} {step : ChainStep V} {steps : List (ChainStep V)} {before : List TaskResult}
        {w w' w'' : World V} (given : Option TaskResult) (r : TaskResult)
        → env.is_cancelled w.trace ≡ false
        → Ran env socket_dir step.task (happen (chain_step chain.id idx) w) given w'
        → IsKept chain idx step.task given r
        → succeeded r.status ≡ false
        → Undone env socket_dir chain
            (rollback_range chain.on_failure idx)
            (rolling_back chain idx w')
            w''
        → Chained chain idx (step ∷ steps) before (r ∷ []) w w''

  step_result-Ran :
      (chain : TaskChain V) (idx : ℕ) (t : ExecTask V) (w : World V)
      (m : Result Error ResolvedCredentials × World V) (r : TaskResult) (w' : World V)
      → resolve_eager env t.credentials socket_dir w ≡ m
      → step_result env socket_dir t m.0 m.1 ≡ (some r, w')
      → (given : Option TaskResult) × Ran env socket_dir t w given w'
        × IsKept chain idx t given (mark_step chain.id idx r)
  unfolding step_result make_result mark_step
  step_result-Ran chain idx t w (ok creds, v) r w' e h = (some r, executed creds v w' r e h, refl)
  step_result-Ran chain idx t w (err x, v) r w' e h =
      let given = handled-some env socket_dir x _ r v w' h in
      (
        none,
        subst (Ran env socket_dir t w none) (ap (world_of env socket_dir) given) (unresolved x v e),
        subst
            (λ (o : Option TaskResult). elim o as (λ _. Type 0) [
              | some r ↦ (r.status ≡ TaskResultStatus.failed) × (r.task_id ≡ t.id)
              | none ↦ Unit
            ])
            (ap (λ (m : Option TaskResult × World V). m.0) given) (refl, refl),
      )

  run_step-Ran :
      (chain : TaskChain V) (idx : ℕ) (t : ExecTask V) (w : World V) (r : TaskResult) (w' : World V)
      → run_step env socket_dir chain idx t w ≡ (some r, w')
      → (given : Option TaskResult) × Ran env socket_dir t
          (happen (chain_step chain.id idx) w)
          given
          w'
        × IsKept chain idx t given r
  unfolding run_step
  run_step-Ran chain idx t w r w' h =
      let noted = happen (chain_step chain.id idx) w in
      let creds = resolve_eager env t.credentials socket_dir noted in
      let (given, v, ran, left) =
        bind-some env socket_dir (step_result env socket_dir t creds.0 creds.1) _ r w' h in
      let (out, did, kept) = step_result-Ran chain idx t noted creds given v refl ran in
      (
        out,
        subst (Ran env socket_dir t noted out) (ap (world_of env socket_dir) left) did,
        subst (IsKept chain idx t out) (ap (value_or env socket_dir r) left) kept,
      )

  -- The results are those before with those of the steps that are left.
  abbrev Continues :
      TaskChain V
      → ℕ
      → List (ChainStep V)
      → List TaskResult
      → List TaskResult
      → World V
      → World V
      → Type 0
  Continues chain idx steps before out w w' =
      (results : List TaskResult) × (out ≡ before ++ results)
      × Chained chain idx steps before results w w'

  kept_going :
      (chain : TaskChain V) (idx : ℕ) (step : ChainStep V) (steps : List (ChainStep V))
      (before out : List TaskResult) (r : TaskResult) (given : Option TaskResult) (w v w' : World V)
      → env.is_cancelled w.trace ≡ false
      → Ran env socket_dir step.task (happen (chain_step chain.id idx) w) given v
      → IsKept chain idx step.task given r
      → ((out : List TaskResult) (w' : World V)
          → run_steps env socket_dir chain (idx + 1) steps (before ++ r ∷ []) v ≡ (some out, w')
          → Continues chain (idx + 1) steps (before ++ r ∷ []) out v w')
      → (b : Bool) → succeeded r.status ≡ b
      → (elim b as (λ _. Run V (List TaskResult)) [
        | true ↦ run_steps env socket_dir chain (idx + 1) steps (before ++ r ∷ [])
        | false ↦
            (Run.◌>>◌ (run_rollbacks env socket_dir chain idx) (Run.return (before ++ r ∷ [])))
      ])
          v
        ≡ (some out, w')
      → Continues chain idx (step ∷ steps) before out w w'
  unfolding run_rollbacks
  kept_going chain idx step steps before out r given w v w' c ran kept next true p h =
      let (results, more, rest) = next out w' h in
      (r ∷ results, more ∙ append_assoc before (r ∷ []) results, succeeds given r c ran kept p rest)
  kept_going chain idx step steps before out r given w v w' c ran kept next false p h =
      let (_, u, rolled, left) =
        bind-some env socket_dir (run_rollbacks env socket_dir chain idx v)
          (λ _. Run.return (before ++ r ∷ [])) out w' h in
      (
        r ∷ [],
        sym (ap (value_or env socket_dir out) left),
        fails given r c ran kept p (
            rollback_each-Undone env socket_dir chain (rollback_range chain.on_failure idx)
              (rolling_back chain idx v) w'
              (rolled ∙ ap (λ (m : Option (List TaskResult) × World V). (some tt, m.1)) left)),
      )

  run_steps-Chained :
      (chain : TaskChain V) (idx : ℕ) (steps : List (ChainStep V)) (before out : List TaskResult)
      (w w' : World V)
      → run_steps env socket_dir chain idx steps before w ≡ (some out, w')
      → Continues chain idx steps before out w w'
  unfolding run_steps complete
  run_steps-Chained chain idx [] before out w w' h = (
    [],
    sym (ap (value_or env socket_dir out) h) ∙ sym (append-nil before),
    subst (Chained chain idx [] before [] w) (ap (world_of env socket_dir) h) all_run,
  )
  run_steps-Chained chain idx (step ∷ steps) before out w w' h =
      elim (Bool-cases (env.is_cancelled w.trace)) [
        | inl c ↦
            let ends : run_steps env socket_dir chain idx (step ∷ steps) before w
                ≡ complete env socket_dir chain before (happen (chain_cancelled chain.id idx) w) =
              rw c refl in
            (
              [],
              sym (ap (value_or env socket_dir out) (sym ends ∙ h)) ∙ sym (append-nil before),
              subst (Chained chain idx (step ∷ steps) before [] w)
                  (ap (world_of env socket_dir) (sym ends ∙ h)) (stopped c),
            )
        | inr c ↦
            let goes : run_steps env socket_dir chain idx (step ∷ steps) before w
                ≡ Run.continue (run_step env socket_dir chain idx step.task w).0
                    (λ (result : TaskResult).
                      elim (succeeded result.status) as (λ _. Run V (List TaskResult)) [
                        | true ↦
                            run_steps env socket_dir chain (idx + 1) steps (before ++ result ∷ [])
                        | false ↦
                            (Run.◌>>◌ (run_rollbacks env socket_dir chain idx)
                              (Run.return (before ++ result ∷ [])))
                      ])
                    (run_step env socket_dir chain idx step.task w).1 =
              rw c refl in
            let (r, v, did, rest) =
              bind-some env socket_dir (run_step env socket_dir chain idx step.task w) _ out w'
                (sym goes ∙ h) in
            let (given, ran, kept) = run_step-Ran chain idx step.task w r v did in
            kept_going chain idx step steps before out r given w v w' c ran kept
              (λ out' w''. run_steps-Chained chain (idx + 1) steps (before ++ r ∷ []) out' v w'')
              (succeeded r.status) refl rest
      ]

  -- A chain that returns has run what the relation Chained describes: each step with its own
  -- credentials where the chain was not cancelled, then, after the first result that is no success,
  -- the rollbacks of its range in their order, each the rollback of its own step, run unless its
  -- credentials fail; and its notes are the history of its results.
  pub execute-Chained :
      (chain : TaskChain V) (results : List TaskResult) (w w' : World V)
      → execute env socket_dir chain w ≡ (some results, w')
      → Chained chain 0 chain.steps [] results (started chain w) w'
        × (notes w'.trace ≡ history chain 0 chain.steps results (notes w.trace))
  unfolding execute
  execute-Chained chain results w w' h =
      let (rs, same, ran) =
        run_steps-Chained chain 0 chain.steps [] results (started chain w) w' h in
      (
        subst (λ out. Chained chain 0 chain.steps [] out (started chain w) w') (sym same) ran,
        execute-history env socket_dir chain results w w' h,
      )
