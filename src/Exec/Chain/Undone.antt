-- ===== src/Exec/Chain/Undone.antt =====
-- crates/vasal-core/src/task/chain.rs: what a task of a chain and its rollbacks run, as relations
-- between the world before and the world after.
use vasal.Prelude.{
  true, false, inl, inr, Bool-cases, ℕ, Option, none, some, List, [], ◌∷◌, get_elem?, ◌≡◌, refl,
  sym, ap, subst, ◌∙◌, FilePath,
}
use vasal.Prelude.Results.{Result, ok, err}
use vasal.Protocol.Task.{ExecTask, ChainStep, TaskChain, TaskResult}
use vasal.Host.{Env}
use vasal.Host.Act.{World, happen}
use vasal.Host.Events.{rollback_step, rollback_skipped}
use vasal.Host.Run
use vasal.Host.Run.{Run}
use vasal.Host.Attempt.{Error, is_unanswered}
use vasal.Exec.Credentials.{ResolvedCredentials, resolve_eager}
use vasal.Exec.Router.{run_once}
use vasal.Exec.Chain.{rollback_result, rollback_at, rollback_each}

module _ {V : Type 0} (env : Env V) (socket_dir : FilePath) where
  -- A task run from `w` with its own credentials, or given up because they cannot be resolved.
  pub data Ran (t : ExecTask V) (w : World V) : Option TaskResult → World V → Type 0 where
    executed :
        (creds : ResolvedCredentials) (w' w'' : World V) (r : TaskResult)
        → resolve_eager env t.credentials socket_dir w ≡ (ok creds, w')
        → run_once env socket_dir t creds w' ≡ (some r, w'')
        → Ran t w (some r) w''
    unresolved :
        (e : Error) (w' : World V)
        → resolve_eager env t.credentials socket_dir w ≡ (err e, w')
        → Ran t w none w'

  -- The rollbacks of a range in turn. An index without a step does nothing, a step without a
  -- rollback is noted, and every other one is run.
  pub data Undone (chain : TaskChain V) : List ℕ → World V → World V → Type 0 where
    undone : {w : World V} → Undone chain [] w w
    beyond :
        {idx : ℕ} {range : List ℕ} {w w' : World V}
        → get_elem? chain.steps idx ≡ none
        → Undone chain range w w'
        → Undone chain (idx ∷ range) w w'
    skipped :
        {idx : ℕ} {range : List ℕ} {w w' : World V} (step : ChainStep V)
        → get_elem? chain.steps idx ≡ some step
        → step.rollback ≡ none
        → Undone chain range (happen (rollback_skipped chain.id idx) w) w'
        → Undone chain (idx ∷ range) w w'
    rolled_back :
        {idx : ℕ} {range : List ℕ} {w w' w'' : World V} (step : ChainStep V) (t : ExecTask V)
        (r : Option TaskResult)
        → get_elem? chain.steps idx ≡ some step
        → step.rollback ≡ some t
        → Ran t (happen (rollback_step chain.id idx) w) r w'
        → Undone chain range w' w''
        → Undone chain (idx ∷ range) w w''

  never-some :
      {A : Type 0} (m : Option A × World V) (a : A) (w : World V) → m.0 ≡ none → m ≡ (some a, w) → ⊥
  never-some (none, v) a w p h = cc
  never-some (some b, v) a w p h = cc

  abbrev pub world_of : {A : Type 0} → A × World V → World V
  world_of m = m.1

  abbrev pub value_or : {A : Type 0} → A → Option A × World V → A
  value_or a m = elim m.0 [ some x ↦ x | none ↦ a ]

  -- An error that is handled.
  pub handled-some :
      {A : Type 0} (e : Error) (m : Run V A) (a : A) (w w' : World V)
      → Run.handled e m w ≡ (some a, w')
      → m w ≡ (some a, w')
  unfolding Run.handled
  handled-some e m a w w' h = elim (Bool-cases (is_unanswered e)) [
    | inl p ↦ absurd (never-some (Run.handled e m w) a w' (stuck_at p) h)
    | inr p ↦ sym (goes_at p) ∙ h
  ]
    where
      stuck_at : is_unanswered e ≡ true → (Run.handled e m w).0 ≡ none
      stuck_at p = rw p refl

      goes_at : is_unanswered e ≡ false → Run.handled e m w ≡ m w
      goes_at p = rw p refl

  pub bind-some :
      {A B : Type 0} (m : Option A × World V) (f : A → Run V B) (b : B) (w' : World V)
      → Run.continue m.0 f m.1 ≡ (some b, w')
      → (a : A) × (w : World V) × (m ≡ (some a, w)) × (f a w ≡ (some b, w'))
  bind-some (none, w) f b w' h = absurd (cc)
  bind-some (some a, w) f b w' h = (a, w, refl, h)

  rollback_result-Ran :
      (t : ExecTask V) (w : World V) (m : Result Error ResolvedCredentials × World V) (w' : World V)
      → resolve_eager env t.credentials socket_dir w ≡ m
      → rollback_result env socket_dir t m.0 m.1 ≡ (some tt, w')
      → (r : Option TaskResult) × Ran t w r w'
  unfolding rollback_result
  rollback_result-Ran t w (ok creds, v) w' e h =
      let (r, v', ran, left) = bind-some (run_once env socket_dir t creds v) _ tt w' h in
      (
        some r,
        executed creds v w' r e
            (ran ∙ ap (λ (x : Option (Unit {0}) × World V). (some r, x.1)) left),
      )
  rollback_result-Ran t w (err x, v) w' e h = (
    none,
    subst (Ran t w none) (ap world_of (handled-some x (Run.return tt) tt v w' h))
        (unresolved x v e),
  )

  planned-Undone :
      (chain : TaskChain V) (idx : ℕ) (step : ChainStep V) (range : List ℕ) (w w' w'' : World V)
      (o : Option (ExecTask V))
      → get_elem? chain.steps idx ≡ some step
      → step.rollback ≡ o
      → rollback_at env socket_dir chain.id idx (some step) w ≡ (some tt, w')
      → Undone chain range w' w''
      → Undone chain (idx ∷ range) w w''
  unfolding rollback_at
  planned-Undone chain idx step range w w' w'' none e p h u =
      let noted : rollback_at env socket_dir chain.id idx (some step) w
          ≡ (some tt, happen (rollback_skipped chain.id idx) w) =
        rw p refl in
      skipped step e p (subst (λ v. Undone chain range v w'') (ap world_of (sym h ∙ noted)) u)
  planned-Undone chain idx step range w w' w'' (some t) e p h u =
      let noted = happen (rollback_step chain.id idx) w in
      let tried : rollback_at env socket_dir chain.id idx (some step) w
          ≡ rollback_result env socket_dir t (resolve_eager env t.credentials socket_dir noted).0
              (resolve_eager env t.credentials socket_dir noted).1 =
        rw p refl in
      let done = rollback_result-Ran t noted _ w' refl (sym tried ∙ h) in
      rolled_back step t done.0 e p done.1 u

  rollback_at-Undone :
      (chain : TaskChain V) (idx : ℕ) (range : List ℕ) (w w' w'' : World V)
      (o : Option (ChainStep V))
      → get_elem? chain.steps idx ≡ o
      → rollback_at env socket_dir chain.id idx o w ≡ (some tt, w')
      → Undone chain range w' w''
      → Undone chain (idx ∷ range) w w''
  unfolding rollback_at
  rollback_at-Undone chain idx range w w' w'' none e h u =
      beyond e (subst (λ v. Undone chain range v w'') (sym (ap world_of h)) u)
  rollback_at-Undone chain idx range w w' w'' (some step) e h u =
      planned-Undone chain idx step range w w' w'' step.rollback e refl h u

  pub rollback_each-Undone :
      (chain : TaskChain V) (range : List ℕ) (w w' : World V)
      → rollback_each env socket_dir chain range w ≡ (some tt, w')
      → Undone chain range w w'
  unfolding rollback_each
  rollback_each-Undone chain [] w w' h = subst (λ v. Undone chain [] w v) (ap world_of h) undone
  rollback_each-Undone chain (idx ∷ range) w w' h =
      let (_, v, tried, rest) =
        bind-some (rollback_at env socket_dir chain.id idx (get_elem? chain.steps idx) w)
          (λ _. rollback_each env socket_dir chain range) tt w' h in
      rollback_at-Undone chain idx range w v w' (get_elem? chain.steps idx) refl tried
        (rollback_each-Undone chain range v w' rest)
