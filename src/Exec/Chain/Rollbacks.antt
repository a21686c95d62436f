-- ===== src/Exec/Chain/Rollbacks.antt =====
-- crates/vasal-core/src/task/chain.rs: in which order a chain runs its steps and its rollbacks.
use mathlib.Core.List.{append_assoc, append-nil}
use vasal.Exec.Outcome.{make_result}
use vasal.Prelude.{
  ℕ, zero, suc, ◌+◌, ◌-◌, ◌≤◌, Bool, true, false, Option, none, some, List, [], ◌∷◌, ◌++◌, length,
  get_elem?, ◌≡◌, refl, sym, ap, subst, ◌∙◌, inl, inr, Bool-cases, FilePath, arith,
}
use vasal.Prelude.Results.{Result, ok, err}
use vasal.Protocol.Task.{ExecTask, ChainStep, TaskChain, TaskResult, rollback_all, rollback_failed}
use vasal.Host.{Env}
use vasal.Host.Act.{World, happen}
use vasal.Host.Events.{Event, chain_step, chain_cancelled}
use vasal.Host.Run
use vasal.Host.Run.{Run}
use vasal.Host.Attempt.{Error}
use vasal.Exec.Credentials.{ResolvedCredentials, resolve_eager}
use vasal.Exec.Chain.{
  down_from, rollback_range, succeeded, mark_step, step_result, run_rollbacks, complete, run_step,
  run_steps, execute,
}
use vasal.Exec.Trace.{silent, handled-IsQuiet, act-bind, run-bind, notes, notes-Quiet, IsQuiet}
use vasal.Exec.Trace.Parts.{resolve_eager-IsQuiet, record_event-IsQuiet}
use vasal.Exec.Trace.Polling.{run_once-IsQuiet}
use vasal.Exec.Chain.Undo.{after_rollbacks, Leaves, run_rollbacks-Leaves}

-- What a chain logs while it gives the results `rs` for the steps from `idx` on, added to the notes
-- before; the latest note is the first. Fewer results than steps after a success is a cancellation.
abbrev pub history :
    {V : Type 0}
    → TaskChain V
    → ℕ
    → List (ChainStep V)
    → List TaskResult
    → List (Event V)
    → List (Event V)
history chain idx [] rs past = past
history chain idx (step ∷ steps) [] past = chain_cancelled chain.id idx ∷ past
history chain idx (step ∷ steps) (r ∷ rs) past = elim (succeeded r.status) [
  | true ↦ history chain (idx + 1) steps rs (chain_step chain.id idx ∷ past)
  | false ↦
      after_rollbacks chain (rollback_range chain.on_failure idx) (chain_step chain.id idx ∷ past)
]

module _ {V : Type 0} (env : Env V) (socket_dir : FilePath) where
  step_result-Quiet :
      (t : ExecTask V) (creds : Result Error ResolvedCredentials)
      → IsQuiet (step_result env socket_dir t creds)
  unfolding step_result make_result
  step_result-Quiet t (ok creds) = run_once-IsQuiet env socket_dir t creds
  step_result-Quiet t (err e) = handled-IsQuiet e _ (silent _)

  run_step-notes :
      (chain : TaskChain V) (idx : ℕ) (t : ExecTask V) (w : World V)
      → notes (run_step env socket_dir chain idx t w).1.trace
        ≡ chain_step chain.id idx ∷ notes w.trace
  unfolding run_step
  run_step-notes chain idx t w = notes-Quiet (
      (act-bind (resolve_eager env t.credentials socket_dir)
          (resolve_eager-IsQuiet env t.credentials socket_dir)
          λ creds.
            run-bind (step_result env socket_dir t creds) (step_result-Quiet t creds)
              λ r. silent (λ _. some (mark_step chain.id idx r))).quiet
        (happen (chain_step chain.id idx) w))

  -- The results so far with those of the steps that are left, and the notes they leave.
  Records :
      TaskChain V
      → ℕ
      → List (ChainStep V)
      → List TaskResult
      → List (Event V)
      → Option (List TaskResult)
      → List (Event V)
      → Type 0
  Records chain idx steps results past none now = Unit
  Records chain idx steps results past (some out) now =
      (rs : List TaskResult) × (out ≡ results ++ rs) × (now ≡ history chain idx steps rs past)

  abbrev Recorded :
      TaskChain V
      → ℕ
      → List (ChainStep V)
      → List TaskResult
      → List (Event V)
      → Option (List TaskResult) × World V
      → Type 0
  Recorded chain idx steps results past m =
      Records chain idx steps results past m.0 (notes m.1.trace)

  Records-cons :
      (chain : TaskChain V) (idx : ℕ) (step : ChainStep V) (steps : List (ChainStep V))
      (results : List TaskResult) (r : TaskResult) (past : List (Event V))
      (m : Option (List TaskResult) × World V)
      → succeeded r.status ≡ true
      → Recorded chain (idx + 1) steps (results ++ r ∷ []) (chain_step chain.id idx ∷ past) m
      → Recorded chain idx (step ∷ steps) results past m
  unfolding Records
  Records-cons chain idx step steps results r past (none, w) p k = tt
  Records-cons chain idx step steps results r past (some out, w) p k =
      (r ∷ k.0, k.1 ∙ append_assoc results (r ∷ []) k.0, rw (p, history) k.2)

  Records_failed :
      (chain : TaskChain V) (idx : ℕ) (step : ChainStep V) (steps : List (ChainStep V))
      (results : List TaskResult) (r : TaskResult) (past : List (Event V))
      (m : Option (Unit {0}) × World V)
      → succeeded r.status ≡ false
      → Leaves env socket_dir m (
          after_rollbacks chain
            (rollback_range chain.on_failure idx)
            (chain_step chain.id idx ∷ past))
      → Recorded chain idx
          (step ∷ steps)
          results
          past
          (Run.continue m.0 (λ _. Run.return (results ++ r ∷ [])) m.1)
  unfolding Records Leaves
  Records_failed chain idx step steps results r past (none, w) p k = tt
  Records_failed chain idx step steps results r past (some _, w) p k =
      (r ∷ [], refl, rw (p, history) (k tt))

  successful-Records :
      (chain : TaskChain V) (idx : ℕ) (step : ChainStep V) (steps : List (ChainStep V))
      (results : List TaskResult) (past : List (Event V)) (r : TaskResult) (w : World V)
      → notes w.trace ≡ chain_step chain.id idx ∷ past
      → ((more : List TaskResult) (past : List (Event V)) (w : World V)
          → notes w.trace ≡ past
          → Recorded chain
              (idx + 1)
              steps
              more
              past
              (run_steps env socket_dir chain (idx + 1) steps more w))
      → (b : Bool) → succeeded r.status ≡ b
      → Recorded chain idx (step ∷ steps) results past (
          (elim b as (λ _. Run V (List TaskResult)) [
            | true ↦ run_steps env socket_dir chain (idx + 1) steps (results ++ r ∷ [])
            | false ↦
                (Run.◌>>◌ (run_rollbacks env socket_dir chain idx) (Run.return (results ++ r ∷ [])))
          ])
            w)
  successful-Records chain idx step steps results past r w h k true p =
      Records-cons chain idx step steps results r past
        (run_steps env socket_dir chain (idx + 1) steps (results ++ r ∷ []) w) p
        (k (results ++ r ∷ []) _ w h)
  successful-Records chain idx step steps results past r w h k false p =
      Records_failed chain idx step steps results r past (run_rollbacks env socket_dir chain idx w)
        p (run_rollbacks-Leaves env socket_dir chain idx _ w h)

  after_step-Records :
      (chain : TaskChain V) (idx : ℕ) (step : ChainStep V) (steps : List (ChainStep V))
      (results : List TaskResult) (past : List (Event V)) (m : Option TaskResult × World V)
      → notes m.1.trace ≡ chain_step chain.id idx ∷ past
      → ((more : List TaskResult) (past : List (Event V)) (w : World V)
          → notes w.trace ≡ past
          → Recorded chain
              (idx + 1)
              steps
              more
              past
              (run_steps env socket_dir chain (idx + 1) steps more w))
      → Recorded chain idx (step ∷ steps) results past (
          Run.continue m.0
            (λ (result : TaskResult).
              elim (succeeded result.status) as (λ _. Run V (List TaskResult)) [
                | true ↦ run_steps env socket_dir chain (idx + 1) steps (results ++ result ∷ [])
                | false ↦
                    (Run.◌>>◌
                      (run_rollbacks env socket_dir chain idx)
                      (Run.return (results ++ result ∷ [])))
              ])
            m.1)
  unfolding Records
  after_step-Records chain idx step steps results past (none, w) h k = tt
  after_step-Records chain idx step steps results past (some r, w) h k =
      successful-Records chain idx step steps results past r w h k (succeeded r.status) refl

  complete-notes :
      (chain : TaskChain V) (results : List TaskResult) (w : World V)
      → notes (complete env socket_dir chain results w).1.trace ≡ notes w.trace
  unfolding complete
  complete-notes chain results w = notes-Quiet ((record_event-IsQuiet env _ _ _).quiet w)

  run_steps-Records :
      (chain : TaskChain V) (idx : ℕ) (steps : List (ChainStep V)) (results : List TaskResult)
      (past : List (Event V)) (w : World V)
      → notes w.trace ≡ past
      → Recorded chain idx steps results past (run_steps env socket_dir chain idx steps results w)
  unfolding run_steps complete Records
  run_steps-Records chain idx [] results past w h =
      ([], sym (append-nil results), complete-notes chain results w ∙ h)
  run_steps-Records chain idx (step ∷ steps) results past w h =
      elim (Bool-cases (env.is_cancelled w.trace)) [
        | inl p ↦ rw p (
          [],
          sym (append-nil results),
          complete-notes chain results _ ∙ ap (λ l. chain_cancelled chain.id idx ∷ l) h,
        )
        | inr p ↦ rw p (
            after_step-Records chain idx step steps results past
              (run_step env socket_dir chain idx step.task w)
              (run_step-notes chain idx step.task w ∙ ap (λ l. chain_step chain.id idx ∷ l) h)
              (λ more past' w' h'. run_steps-Records chain (idx + 1) steps more past' w' h'))
      ]

  -- Where a chain returns, its notes are the history of its results: each step is started after the
  -- one before it; the first result that is no success is followed by the rollbacks of the range of
  -- its index, each looked up in the steps, and by nothing else; a chain that stops short with no failure has logged its cancellation, and
  -- rolls nothing back.
  pub execute-history :
      (chain : TaskChain V) (results : List TaskResult) (w w' : World V)
      → execute env socket_dir chain w ≡ (some results, w')
      → notes w'.trace ≡ history chain 0 chain.steps results (notes w.trace)
  unfolding execute Records
  execute-history chain results w w' e =
      let h =
        run_steps-Records chain 0 chain.steps [] (notes w.trace) _
          (notes-Quiet ((record_event-IsQuiet env _ _ _).quiet w)) in
      let r : Recorded chain 0 chain.steps [] (notes w.trace) (some results, w') =
        subst
          (λ (m : Option (List TaskResult) × World V).
            Recorded chain 0 chain.steps [] (notes w.trace) m)
          e h in
      subst
        (λ (rs : List TaskResult). notes w'.trace ≡ history chain 0 chain.steps rs (notes w.trace))
        (sym r.1) r.2

length-down_from : (n : ℕ) → length (down_from n) ≡ n + 1
unfolding down_from
length-down_from zero = omega arith
length-down_from (suc n) = omega (arith, length-down_from n)

get-down_from : (n i : ℕ) → i ≤ n → get_elem? (down_from n) i ≡ some (n - i)
unfolding down_from
get-down_from zero zero h = refl
get-down_from zero (suc i) h = absurd (omega arith)
get-down_from (suc n) zero h = ap some (omega arith)
get-down_from (suc n) (suc i) h = get-down_from n i (omega arith) ∙ ap some (omega arith)

-- The range that a failed step rolls back: with the strategy rollback_all every step from the failed
-- one down to the first, once each; with rollback_failed the failed step alone.
pub rollback_range-descends :
    (failed i : ℕ)
    → i ≤ failed
    → (length (rollback_range rollback_all failed) ≡ failed + 1)
      × (get_elem? (rollback_range rollback_all failed) i ≡ some (failed - i))
      × (rollback_range rollback_failed failed ≡ failed ∷ [])
unfolding rollback_range
rollback_range-descends failed i h = (length-down_from failed, get-down_from failed i h, refl)
