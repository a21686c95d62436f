-- ===== src/Manager/Entries.antt =====
-- The map of active tasks: its entries belong to tasks that are still there, and its counts.
use vasal.Prelude.{
  ℕ, ◌+◌, ◌^◌, ◌<◌, ◌≤◌, none, ◌==◌, ==_iff, ◌&&◌, ◌||◌, not, Bool, true, false, List, [], ◌∷◌,
  ◌++◌, length, ◌≡◌, refl, ap, if◌then◌else◌, All, arith, inl, inr, Bool-cases, Option-cases,
  if_ind,
}
use vasal.Protocol.Task.{Uuid, exec, cancel, install, upgrade, remove, self_upgrade}
use vasal.Protocol.Heartbeat.{ActiveTaskCounts}
use vasal.Manager.{
  ActiveTask, ActiveTasks, TaskKindTag, oneshot, kind_tag, insert_active, get_active, remove_active,
  is_oneshot, is_continuous, count_oneshot, count_continuous, continuous, Phase, running, removed,
  Job, TaskManager, update_counts, enter, handle_cancel, submit, submit_chain, announce, acquire,
  leave, finish, Step, submitted, chained, announced, acquired, left, finished, Reachable, start,
  next,
}

unfoldable pub is_removed : Phase → Bool
is_removed removed = true
is_removed _ = false

-- The job of this id and token is there, and still in the map.
unfoldable pub is_this : Uuid → ℕ → Job → Bool
unfolding is_removed
is_this id token j = j.id == id && j.cancel_token == token && not (is_removed j.phase)

unfoldable pub is_live : Uuid → ℕ → List Job → Bool
unfolding is_this
is_live id token [] = false
is_live id token (j ∷ js) = is_this id token j || is_live id token js

is_live-split :
    (id : Uuid) (token : ℕ) (before : List Job) (j : Job) (behind : List Job)
    → is_live id token (before ++ j ∷ behind)
      ≡ (is_this id token j || is_live id token (before ++ behind))
unfolding is_live
is_live-split id token [] j behind = refl
is_live-split id token (i ∷ before) j behind =
    ground (arith, is_live-split id token before j behind)

-- Every entry is the one of a job that has not left.
abbrev pub HasLiveEntries : ActiveTasks → List Job → Type 0
HasLiveEntries es js = All (λ (e : Uuid × ActiveTask). is_live e.0 e.1.cancel_token js ≡ true) es

All-map :
    (P Q : Uuid × ActiveTask → Type 0) (es : ActiveTasks)
    → ((e : Uuid × ActiveTask) → P e → Q e)
    → All P es
    → All Q es
All-map P Q [] f h = tt
All-map P Q (e ∷ es) f h = (f e h.0, All-map P Q es f h.1)

insert-All :
    (P Q : Uuid × ActiveTask → Type 0) (id : Uuid) (t : ActiveTask) (es : ActiveTasks)
    → Q (id, t)
    → ((e : Uuid × ActiveTask) → P e → Q e)
    → All P es
    → All Q (insert_active id t es)
unfolding insert_active
insert-All P Q id t [] q f h = (q, tt)
insert-All P Q id t (e ∷ es) q f h = elim (Bool-cases (e.0 == id)) [
  | inl p ↦ rw p (q, All-map P Q es f h.1)
  | inr p ↦ rw p (f e h.0, insert-All P Q id t es q f h.1)
]

remove-All :
    (P Q : Uuid × ActiveTask → Type 0) (id : Uuid) (es : ActiveTasks)
    → ((e : Uuid × ActiveTask) → (e.0 == id) ≡ false → P e → Q e)
    → All P es
    → All Q (remove_active id es)
unfolding remove_active
remove-All P Q id [] f h = tt
remove-All P Q id (e ∷ es) f h = elim (Bool-cases (e.0 == id)) [
  | inl p ↦ rw p (remove-All P Q id es f h.1)
  | inr p ↦ rw p (f e p h.0, remove-All P Q id es f h.1)
]

-- The jobs of one list that live, live in another.
abbrev Keeps : List Job → List Job → Type 0
Keeps js js' = (id : Uuid) (token : ℕ) → is_live id token js ≡ true → is_live id token js' ≡ true

Keeps-phase :
    (before : List Job) (j : Job) (p : Phase) (behind js : List Job)
    → js ≡ before ++ j ∷ behind
    → is_removed p ≡ false
    → Keeps js (before ++ record j { phase = p } ∷ behind)
unfolding is_this
Keeps-phase before j p behind js e h id token l = ground (
  arith,
  ap (is_live id token) e,
  is_live-split id token before j behind,
  is_live-split id token before (record j { phase = p }) behind,
)

enter-HasLiveEntries :
    (id : Uuid) (kind : TaskKindTag) (needs_permit : Bool) (m : TaskManager)
    → HasLiveEntries m.active_tasks m.jobs
    → HasLiveEntries (enter id kind needs_permit m).active_tasks (enter id kind needs_permit m).jobs
unfolding enter is_live is_this is_removed
enter-HasLiveEntries id kind needs_permit m h =
    insert-All _ _ id _ m.active_tasks
      (ground (arith, ==_iff id id, ==_iff m.next_token m.next_token)) (λ e l. ground arith) h

leave-HasLiveEntries :
    (before : List Job) (j : Job) (behind : List Job) (es : ActiveTasks) (js : List Job)
    → js ≡ before ++ j ∷ behind
    → HasLiveEntries es js
    → HasLiveEntries (remove_active j.id es) (before ++ record j { phase = removed } ∷ behind)
unfolding is_this is_removed
leave-HasLiveEntries before j behind es js e h =
    remove-All _ _ j.id es
      (λ x other l. ground (
        arith,
        ==_iff x.0 j.id,
        ==_iff j.id x.0,
        ap (is_live x.0 x.1.cancel_token) e,
        is_live-split x.0 x.1.cancel_token before j behind,
        is_live-split x.0 x.1.cancel_token before (record j { phase = removed }) behind,
      ))
      h

finish-HasLiveEntries :
    (before : List Job) (j : Job) (behind : List Job) (es : ActiveTasks) (js : List Job)
    → js ≡ before ++ j ∷ behind
    → j.phase ≡ removed
    → HasLiveEntries es js
    → HasLiveEntries es (before ++ behind)
unfolding is_this is_removed
finish-HasLiveEntries before j behind es js e p h =
    All-map _ _ es
      (λ x l. ground (
        arith,
        ap is_removed p,
        ap (is_live x.0 x.1.cancel_token) e,
        is_live-split x.0 x.1.cancel_token before j behind,
      ))
      h

module _ (V : Type 0) where
  step-HasLiveEntries :
      (m m' : TaskManager)
      → Step V m m'
      → HasLiveEntries m.active_tasks m.jobs
      → HasLiveEntries m'.active_tasks m'.jobs
  unfolding submit submit_chain handle_cancel announce acquire leave finish update_counts is_removed
  step-HasLiveEntries m m' (submitted (exec t)) h =
      enter-HasLiveEntries t.id (kind_tag t.kind) true m h
  step-HasLiveEntries m m' (submitted (cancel t)) h =
      elim (Option-cases (get_active t.target_task_id m.active_tasks)) [
        | inl e ↦ rw (e, submit, handle_cancel) h
        | inr (_, e) ↦ rw (e, submit, handle_cancel) h
      ]
  step-HasLiveEntries m m' (submitted (install t)) h = enter-HasLiveEntries t.id oneshot false m h
  step-HasLiveEntries m m' (submitted (upgrade t)) h = enter-HasLiveEntries t.id oneshot false m h
  step-HasLiveEntries m m' (submitted (remove t)) h = enter-HasLiveEntries t.id oneshot false m h
  step-HasLiveEntries m m' (submitted (self_upgrade t)) h =
      enter-HasLiveEntries t.id oneshot false m h
  step-HasLiveEntries m m' (chained chain) h = enter-HasLiveEntries chain.id oneshot true m h
  step-HasLiveEntries m m' (announced before j behind e p) h =
      All-map _ _ m.active_tasks
        (λ x.
          Keeps-phase before j _ behind m.jobs e
            (if_ind (λ q. is_removed q ≡ false) j.needs_permit refl refl) x.0 x.1.cancel_token)
        h
  step-HasLiveEntries m m' (acquired before j behind e q p s) h =
      All-map _ _ m.active_tasks
        (λ x. Keeps-phase before j running behind m.jobs e refl x.0 x.1.cancel_token) h
  step-HasLiveEntries m m' (left before j behind e p) h =
      leave-HasLiveEntries before j behind m.active_tasks m.jobs e h
  step-HasLiveEntries m m' (finished before j behind e p) h =
      finish-HasLiveEntries before j behind m.active_tasks m.jobs e p h

  -- In every reachable state each entry of the map of active tasks belongs, by its id and its token,
  -- to a spawned task that has not yet removed itself: a task that ended is not counted as active.
  pub Reachable-HasLiveEntries :
      (n : ℕ) (m : TaskManager) → Reachable V n m → HasLiveEntries m.active_tasks m.jobs
  Reachable-HasLiveEntries n m start = tt
  Reachable-HasLiveEntries n m (next {m = before} r s) =
      step-HasLiveEntries before m s (Reachable-HasLiveEntries n before r)

-- The counts with one more task of a kind.
abbrev pub counted : TaskKindTag → ActiveTaskCounts → ActiveTaskCounts
counted oneshot c = record c { oneshot = c.oneshot + 1; total = c.total + 1 }
counted continuous c = record c { continuous = c.continuous + 1; total = c.total + 1 }

-- A task under an id that is not there.
oneshots-insert :
    (id : Uuid) (t : ActiveTask) (es : ActiveTasks)
    → get_active id es ≡ none
    → count_oneshot (insert_active id t es)
      ≡ (if is_oneshot t.kind then 1 else 0) + count_oneshot es
unfolding get_active insert_active count_oneshot
oneshots-insert id t [] h = refl
oneshots-insert id t (e ∷ es) h = ground (arith, oneshots-insert id t es)

continuous-insert :
    (id : Uuid) (t : ActiveTask) (es : ActiveTasks)
    → get_active id es ≡ none
    → count_continuous (insert_active id t es)
      ≡ (if is_continuous t.kind then 1 else 0) + count_continuous es
unfolding get_active insert_active count_continuous
continuous-insert id t [] h = refl
continuous-insert id t (e ∷ es) h = ground (arith, continuous-insert id t es)

one_kind :
    (kind : TaskKindTag)
    → (if is_oneshot kind then 1 else 0) + (if is_continuous kind then 1 else 0) ≡ 1
unfolding is_oneshot is_continuous
one_kind oneshot = refl
one_kind continuous = refl

kinds-length : (es : ActiveTasks) → count_oneshot es + count_continuous es ≤ length es
unfolding count_oneshot count_continuous
kinds-length [] = omega arith
kinds-length (e ∷ es) = omega (arith, kinds-length es, one_kind e.1.kind)

abbrev counts_of : (oneshot continuous total : ℕ) → ActiveTaskCounts
counts_of a b c = record { oneshot = a; continuous = b; total = c }

counts_eq : (a a' b b' c c' : ℕ) → a ≡ a' → b ≡ b' → c ≡ c' → counts_of a b c ≡ counts_of a' b' c'
counts_eq a a' b b' c c' p q r = λ i. record { oneshot = p i; continuous = q i; total = r i }

-- Entering a task under an id that is not active raises the published count of its kind and the
-- total by one, and leaves the other count, where there are fewer than 2 ^ 32 tasks with it.
pub update_counts-enter :
    (id : Uuid) (kind : TaskKindTag) (needs_permit : Bool) (m : TaskManager)
    → get_active id m.active_tasks ≡ none
    → length m.active_tasks + 1 < 2 ^ 32
    → (update_counts (enter id kind needs_permit m)).counts ≡ counted kind (update_counts m).counts
unfolding update_counts enter is_oneshot is_continuous
update_counts-enter id oneshot needs_permit m fresh h =
    let t : ActiveTask = record { cancel_token = m.next_token; kind = oneshot } in
    rw (oneshots-insert id t m.active_tasks fresh, continuous-insert id t m.active_tasks fresh)
      (counts_eq _ _ _ _ _ _ (omega (arith, kinds-length m.active_tasks))
        (omega (arith, kinds-length m.active_tasks)) (omega (arith, kinds-length m.active_tasks)))
update_counts-enter id continuous needs_permit m fresh h =
    let t : ActiveTask = record { cancel_token = m.next_token; kind = continuous } in
    rw (oneshots-insert id t m.active_tasks fresh, continuous-insert id t m.active_tasks fresh)
      (counts_eq _ _ _ _ _ _ (omega (arith, kinds-length m.active_tasks))
        (omega (arith, kinds-length m.active_tasks)) (omega (arith, kinds-length m.active_tasks)))
