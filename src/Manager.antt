-- ===== src/Manager.antt =====
-- crates/vasal-core/src/task/mod.rs: the state that `TaskManager` shares between the tasks it spawns,
-- and what each of them does to it between two awaits.
pub mod Report
pub mod Laws
pub mod Entries
use vasal.Prelude.{
  ℕ, ◌+◌, ◌-◌, ◌%◌, ◌^◌, ◌<◌, ◌==◌, Bool, true, false, Option, none, some, List, [], ◌∷◌, ◌++◌, ◌≡◌,
  if◌then◌else◌,
}
use vasal.Protocol.Task.{
  Uuid, ExecKind, Task, task_id, exec, cancel, install, upgrade, remove, self_upgrade, TaskChain,
}
use vasal.Protocol.Heartbeat.{ActiveTaskCounts}

pub data TaskKindTag : Type 0 where
  oneshot continuous : TaskKindTag

-- A cancellation token is known by its number.
pub record ActiveTask : Type 0 where
  pub cancel_token : ℕ
  pub kind : TaskKindTag

abbrev pub ActiveTasks : Type 0
ActiveTasks = List (Uuid × ActiveTask)

-- `HashMap::insert`, `get` and `remove`
unfoldable pub insert_active : Uuid → ActiveTask → ActiveTasks → ActiveTasks
insert_active id t [] = (id, t) ∷ []
insert_active id t (e ∷ es) = if e.0 == id then (id, t) ∷ es else e ∷ insert_active id t es

unfoldable pub get_active : Uuid → ActiveTasks → Option ActiveTask
get_active id [] = none
get_active id (e ∷ es) = if e.0 == id then some e.1 else get_active id es

unfoldable pub remove_active : Uuid → ActiveTasks → ActiveTasks
remove_active id [] = []
remove_active id (e ∷ es) = let rest = remove_active id es in if e.0 == id then rest else e ∷ rest

-- `t.kind == TaskKindTag::Oneshot`
unfoldable pub is_oneshot : TaskKindTag → Bool
is_oneshot oneshot = true
is_oneshot continuous = false

-- `t.kind == TaskKindTag::Continuous`
unfoldable pub is_continuous : TaskKindTag → Bool
is_continuous oneshot = false
is_continuous continuous = true

-- `filter(…).count()`
unfoldable pub count_oneshot : ActiveTasks → ℕ
unfolding is_oneshot
count_oneshot [] = 0
count_oneshot (e ∷ es) = (if is_oneshot e.1.kind then 1 else 0) + count_oneshot es

unfoldable pub count_continuous : ActiveTasks → ℕ
unfolding is_continuous
count_continuous [] = 0
count_continuous (e ∷ es) = (if is_continuous e.1.kind then 1 else 0) + count_continuous es

-- How far a spawned task is: entered in the map, waiting for a permit, running, removed from the map.
pub data Phase : Type 0 where
  entered waiting running removed : Phase

pub record Job : Type 0 where
  pub id : Uuid
  pub cancel_token : ℕ
  -- whether it acquires the semaphore: exec tasks and chains do
  pub needs_permit : Bool
  pub phase : Phase

pub record TaskManager : Type 0 where
  pub semaphore : ℕ
  pub active_tasks : ActiveTasks
  pub counts : ActiveTaskCounts
  pub jobs : List Job
  pub next_token : ℕ
  pub cancelled : List ℕ

abbrev pub new : ℕ → TaskManager
new max_concurrent = record {
  semaphore = max_concurrent;
  active_tasks = [];
  counts = record { oneshot = 0; continuous = 0; total = 0 };
  jobs = [];
  next_token = 0;
  cancelled = [];
}

unfoldable pub update_counts : TaskManager → TaskManager
unfolding count_oneshot count_continuous
update_counts m =
    let oneshot = count_oneshot m.active_tasks % 2 ^ 32 in
    let continuous = count_continuous m.active_tasks % 2 ^ 32 in
    record m {
      counts = record {
        oneshot = oneshot;
        continuous = continuous;
        total = (oneshot + continuous) % 2 ^ 32;
      };
    }

unfoldable pub kind_tag : ExecKind → TaskKindTag
kind_tag ExecKind.oneshot = oneshot
kind_tag ExecKind.continuous = continuous

-- The entry with a fresh token, up to the first await.
unfoldable pub enter : Uuid → TaskKindTag → (needs_permit : Bool) → TaskManager → TaskManager
unfolding insert_active
enter id kind needs_permit m = record m {
  active_tasks =
      insert_active id (record { cancel_token = m.next_token; kind = kind }) m.active_tasks;
  next_token = m.next_token + 1;
  jobs =
      record { id = id; cancel_token = m.next_token; needs_permit = needs_permit; phase = entered }
      ∷ m.jobs;
}

unfoldable pub handle_cancel : Uuid → TaskManager → TaskManager
unfolding get_active
handle_cancel target_task_id m = elim (get_active target_task_id m.active_tasks) [
  | some t ↦ record m { cancelled = t.cancel_token ∷ m.cancelled }
  | none ↦ m
]

module _ {V : Type 0} where
  unfoldable pub submit : Task V → TaskManager → TaskManager
  unfolding handle_cancel enter kind_tag
  submit (cancel t) = handle_cancel t.target_task_id
  submit (exec t) = enter t.id (kind_tag t.kind) true
  submit (install t) = enter t.id oneshot false
  submit (upgrade t) = enter t.id oneshot false
  submit (remove t) = enter t.id oneshot false
  submit (self_upgrade t) = enter t.id oneshot false

  unfoldable pub submit_chain : TaskChain V → TaskManager → TaskManager
  unfolding enter
  submit_chain chain = enter chain.id oneshot true

-- `update_counts` before the spawn; a routed task runs at once.
unfoldable pub announce : List Job → Job → List Job → TaskManager → TaskManager
unfolding update_counts
announce before job behind m = update_counts (record m {
  jobs = before ++ record job { phase = if job.needs_permit then waiting else running } ∷ behind;
})

-- `semaphore.acquire()`
unfoldable pub acquire : List Job → Job → List Job → TaskManager → TaskManager
acquire before job behind m = record m {
  semaphore = m.semaphore - 1;
  jobs = before ++ record job { phase = running } ∷ behind;
}

-- `active.remove(&task_id)`, once the results are reported
unfoldable pub leave : List Job → Job → List Job → TaskManager → TaskManager
unfolding remove_active
leave before job behind m = record m {
  active_tasks = remove_active job.id m.active_tasks;
  jobs = before ++ record job { phase = removed } ∷ behind;
}

-- The last `update_counts`, and the permit dropped at the end of the spawned block.
unfoldable pub finish : List Job → Job → List Job → TaskManager → TaskManager
unfolding update_counts
finish before job behind m = record (update_counts m) {
  semaphore = (if job.needs_permit then m.semaphore + 1 else m.semaphore);
  jobs = before ++ behind;
}

-- What may happen next. A waiting task goes on only while a permit is there.
pub data Step (V : Type 0) (m : TaskManager) : TaskManager → Type 0 where
  submitted : (t : Task V) → Step V m (submit t m)
  chained : (chain : TaskChain V) → Step V m (submit_chain chain m)
  announced :
      (before : List Job) (job : Job) (behind : List Job)
      → m.jobs ≡ before ++ job ∷ behind
      → job.phase ≡ entered
      → Step V m (announce before job behind m)
  acquired :
      (before : List Job) (job : Job) (behind : List Job)
      → m.jobs ≡ before ++ job ∷ behind
      → job.needs_permit ≡ true
      → job.phase ≡ waiting
      → 0 < m.semaphore
      → Step V m (acquire before job behind m)
  left :
      (before : List Job) (job : Job) (behind : List Job)
      → m.jobs ≡ before ++ job ∷ behind
      → job.phase ≡ running
      → Step V m (leave before job behind m)
  finished :
      (before : List Job) (job : Job) (behind : List Job)
      → m.jobs ≡ before ++ job ∷ behind
      → job.phase ≡ removed
      → Step V m (finish before job behind m)

pub data Reachable (V : Type 0) (max_concurrent : ℕ) : TaskManager → Type 0 where
  start : Reachable V max_concurrent (new max_concurrent)
  next :
      {m m' : TaskManager}
      → Reachable V max_concurrent m
      → Step V m m'
      → Reachable V max_concurrent m'
