-- ===== src/Manager/Laws.antt =====
-- Invariants of the task manager over every order of its steps.
use vasal.Prelude.{
  ℕ, ◌+◌, ◌≤◌, ◌&&◌, Bool, true, false, List, [], ◌∷◌, ◌++◌, ◌≡◌, ap, if◌then◌else◌, arith,
}
use vasal.Protocol.Task.{Uuid, Task, exec, cancel, install, upgrade, remove, self_upgrade}
use vasal.Manager.{
  TaskKindTag, oneshot, kind_tag, Phase, waiting, running, removed, Job, TaskManager, update_counts,
  enter, handle_cancel, submit, submit_chain, announce, acquire, leave, finish, Step, submitted,
  chained, announced, acquired, left, finished, Reachable, start, next,
}

-- Whether a job is past `acquire` and not yet at its end.
unfoldable pub is_running : Phase → Bool
is_running running = true
is_running removed = true
is_running _ = false

-- The permits that the jobs hold.
unfoldable pub held : List Job → ℕ
unfolding is_running
held [] = 0
held (j ∷ js) = (if j.needs_permit && is_running j.phase then 1 else 0) + held js

held-append :
    (before : List Job) (j : Job) (behind : List Job)
    → held (before ++ j ∷ behind) ≡ held before + (held (j ∷ []) + held behind)
unfolding held
held-append [] j behind = omega arith
held-append (i ∷ before) j behind = omega (arith, held-append before j behind)

-- Permits are neither lost nor made.
abbrev pub HasPermits : ℕ → TaskManager → Type 0
HasPermits max_concurrent m = m.semaphore + held m.jobs ≡ max_concurrent

held_without :
    (before : List Job) (j : Job) (behind : List Job)
    → held (before ++ j ∷ behind) ≡ held (j ∷ []) + held (before ++ behind)
unfolding held
held_without [] j behind = omega arith
held_without (i ∷ before) j behind = omega (arith, held_without before j behind)

enter-HasPermits :
    (n : ℕ) (id : Uuid) (kind : TaskKindTag) (needs_permit : Bool) (m : TaskManager)
    → HasPermits n m
    → HasPermits n (enter id kind needs_permit m)
unfolding enter held is_running
enter-HasPermits n id kind needs_permit m h = ground arith

module _ (V : Type 0) (n : ℕ) where
  submit-HasPermits : (t : Task V) (m : TaskManager) → HasPermits n m → HasPermits n (submit t m)
  unfolding submit handle_cancel
  submit-HasPermits (cancel t) m h = ground arith
  submit-HasPermits (exec t) m h = enter-HasPermits n t.id (kind_tag t.kind) true m h
  submit-HasPermits (install t) m h = enter-HasPermits n t.id oneshot false m h
  submit-HasPermits (upgrade t) m h = enter-HasPermits n t.id oneshot false m h
  submit-HasPermits (remove t) m h = enter-HasPermits n t.id oneshot false m h
  submit-HasPermits (self_upgrade t) m h = enter-HasPermits n t.id oneshot false m h

  step-HasPermits : (m m' : TaskManager) → Step V m m' → HasPermits n m → HasPermits n m'
  unfolding submit_chain announce acquire leave finish update_counts held is_running
  step-HasPermits m m' (submitted t) h = submit-HasPermits t m h
  step-HasPermits m m' (chained chain) h = enter-HasPermits n chain.id oneshot true m h
  step-HasPermits m m' (announced before j behind e p) h = ground (
    arith,
    ap held e,
    held_without before j behind,
    held_without before (record j { phase = if j.needs_permit then waiting else running }) behind,
  )
  step-HasPermits m m' (acquired before j behind e q p s) h = ground (
    arith,
    ap held e,
    held_without before j behind,
    held_without before (record j { phase = running }) behind,
  )
  step-HasPermits m m' (left before j behind e p) h = ground (
    arith,
    ap held e,
    held_without before j behind,
    held_without before (record j { phase = removed }) behind,
  )
  step-HasPermits m m' (finished before j behind e p) h =
      ground (arith, ap held e, held_without before j behind)

  Reachable-HasPermits : (m : TaskManager) → Reachable V n m → HasPermits n m
  unfolding held
  Reachable-HasPermits m start = omega arith
  Reachable-HasPermits m (next {m = before} r s) =
      step-HasPermits before m s (Reachable-HasPermits before r)

  -- In every reachable state of a manager made with `n` permits, the permits at the semaphore and
  -- those that exec tasks and chains hold are `n`, so that no more than `n` of them run at once.
  pub running_bounded :
      (m : TaskManager) → Reachable V n m → (m.semaphore + held m.jobs ≡ n) × (held m.jobs ≤ n)
  running_bounded m r = (Reachable-HasPermits m r, omega (arith, Reachable-HasPermits m r))
