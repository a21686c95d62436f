-- ===== src/Exec/Chain/Undo.antt =====
-- crates/vasal-core/src/task/chain.rs: what the rollbacks of a chain log.
use vasal.Prelude.{
  ℕ, Option, none, some, List, [], ◌∷◌, ◌++◌, get_elem?, ◌≡◌, refl, ap, ◌∙◌, FilePath,
}
use vasal.Prelude.Results.{Result, ok, err}
use vasal.Protocol.Task.{Uuid, ExecTask, ChainStep, TaskChain}
use vasal.Host.{Env}
use vasal.Host.Act.{World}
use vasal.Host.Events.{Event, rollback_step, rollback_skipped}
use vasal.Host.Run
use vasal.Host.Run.{Run}
use vasal.Host.Attempt.{Error}
use vasal.Exec.Credentials.{ResolvedCredentials}
use vasal.Exec.Router.{run_once}
use vasal.Exec.Chain.{rollback_range, rollback_result, rollback_at, rollback_each, run_rollbacks}
use vasal.Exec.Trace.{silent, handled-IsQuiet, run-bind, notes, notes-Quiet, Quiet, Quiet-trans}
use vasal.Exec.Trace.Parts.{resolve_eager-IsQuiet, record_event-IsQuiet}
use vasal.Exec.Trace.Polling.{run_once-IsQuiet}
use vasal.Exec.Trace.Ends.{Returns}

-- The attempt to roll step `idx` back: nothing beyond the last step, a note that there is no
-- rollback, or one that it is run.
abbrev pub rollback_notes : {V : Type 0} → Uuid → ℕ → Option (ChainStep V) → List (Event V)
rollback_notes id idx none = []
rollback_notes id idx (some step) = elim step.rollback [
  | none ↦ rollback_skipped id idx ∷ []
  | some _ ↦ rollback_step id idx ∷ []
]

-- The rollbacks of a range in turn, added to the notes so far; the latest note is the first.
abbrev pub after_rollbacks : {V : Type 0} → TaskChain V → List ℕ → List (Event V) → List (Event V)
after_rollbacks chain [] past = past
after_rollbacks chain (idx ∷ range) past =
    after_rollbacks chain range (rollback_notes chain.id idx (get_elem? chain.steps idx) ++ past)

module _ {V : Type 0} (env : Env V) (socket_dir : FilePath) where
  -- Where an action returns, its notes.
  unfoldable pub Leaves : {A : Type 0} → Option A × World V → List (Event V) → Type 0
  Leaves m past = Returns m.0 → notes m.1.trace ≡ past

  rollback_result-Quiet :
      (t : ExecTask V) (creds : Result Error ResolvedCredentials) (w : World V)
      → Quiet w.trace (rollback_result env socket_dir t creds w).1.trace
  unfolding rollback_result
  rollback_result-Quiet t (ok creds) w =
      (run-bind (run_once env socket_dir t creds) (run_once-IsQuiet env socket_dir t creds)
          (λ _. silent (λ _. some tt))).quiet
        w
  rollback_result-Quiet t (err e) w = (handled-IsQuiet e _ (silent _)).quiet w

  planned-notes :
      (id : Uuid) (idx : ℕ) (step : ChainStep V) (o : Option (ExecTask V)) (w : World V)
      → step.rollback ≡ o
      → notes (rollback_at env socket_dir id idx (some step) w).1.trace
        ≡ rollback_notes id idx (some step) ++ notes w.trace
  unfolding rollback_at
  planned-notes id idx step none w e = rw e refl
  planned-notes id idx step (some t) w e = rw e (
      notes-Quiet (
        Quiet-trans ((resolve_eager-IsQuiet env t.credentials socket_dir).quiet _)
          (rollback_result-Quiet t _ _)))

  rollback_at-notes :
      (id : Uuid) (idx : ℕ) (step : Option (ChainStep V)) (w : World V)
      → notes (rollback_at env socket_dir id idx step w).1.trace
        ≡ rollback_notes id idx step ++ notes w.trace
  unfolding rollback_at
  rollback_at-notes id idx none w = refl
  rollback_at-notes id idx (some step) w = planned-notes id idx step step.rollback w refl

  -- One action and the one that follows it.
  Leaves-continue :
      {A B : Type 0} (m : Option A × World V) (f : A → Run V B) (past past' : List (Event V))
      → notes m.1.trace ≡ past
      → ((a : A) (w : World V) → notes w.trace ≡ past → Leaves (f a w) past')
      → Leaves (Run.continue m.0 f m.1) past'
  unfolding Leaves
  Leaves-continue (none, w) f past past' h k r = absurd r
  Leaves-continue (some a, w) f past past' h k r = k a w h r

  rollback_each-Leaves :
      (chain : TaskChain V) (range : List ℕ) (past : List (Event V)) (w : World V)
      → notes w.trace ≡ past
      → Leaves (rollback_each env socket_dir chain range w) (after_rollbacks chain range past)
  unfolding rollback_each Leaves
  rollback_each-Leaves chain [] past w h r = h
  rollback_each-Leaves chain (idx ∷ range) past w h r =
      let step = get_elem? chain.steps idx in
      Leaves-continue (rollback_at env socket_dir chain.id idx step w)
        (λ _. rollback_each env socket_dir chain range) (rollback_notes chain.id idx step ++ past) _
        (rollback_at-notes chain.id idx step w ∙ ap (λ l. rollback_notes chain.id idx step ++ l) h)
        (λ _ w' p. rollback_each-Leaves chain range (rollback_notes chain.id idx step ++ past) w' p)
        r

  pub run_rollbacks-Leaves :
      (chain : TaskChain V) (idx : ℕ) (past : List (Event V)) (w : World V)
      → notes w.trace ≡ past
      → Leaves
          (run_rollbacks env socket_dir chain idx w)
          (after_rollbacks chain (rollback_range chain.on_failure idx) past)
  unfolding run_rollbacks Leaves
  run_rollbacks-Leaves chain idx past w h r =
      rollback_each-Leaves chain (rollback_range chain.on_failure idx) past _
        (notes-Quiet ((record_event-IsQuiet env _ _ _).quiet w) ∙ h) r
