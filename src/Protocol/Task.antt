-- ===== src/Protocol/Task.antt =====
-- crates/vasal-protocol/src/task.rs: tasks, chains and results. A `Uuid` is its 128-bit number, and
-- a map of tags is the list of its entries.
use vasal.Prelude.{ℕ, String, Option, List, Bool}
use vasal.Prelude.Int.{ℤ}
use vasal.Protocol.Credential.{CredentialRef}
use vasal.Protocol.Units.{Artifact, ManagedUnit}

abbrev pub Uuid : Type 0
Uuid = ℕ

abbrev pub Tags : Type 0
Tags = List (String × String)

pub data Priority : Type 0 where
  critical high normal low : Priority

abbrev pub default_priority : Priority
default_priority = normal

pub data Executor : Type 0 where
  shell sidecar : Executor

pub data ExecKind : Type 0 where
  oneshot continuous : ExecKind

pub record ExecTask (V : Type 0) : Type 0 where
  pub id : Uuid
  pub priority : Priority
  pub tags : Tags
  pub kind : ExecKind
  pub executor : Executor
  pub target : Option String
  pub method : Option String
  pub payload : V
  pub interval_ms : Option ℕ
  pub timeout_ms : ℕ
  pub credentials : List (CredentialRef V)

pub record CancelTask : Type 0 where
  pub id : Uuid
  pub priority : Priority
  pub tags : Tags
  pub target_task_id : Uuid

pub record InstallTask (V : Type 0) : Type 0 where
  pub id : Uuid
  pub priority : Priority
  pub tags : Tags
  pub unit : ManagedUnit V

pub record RollbackSpec : Type 0 where
  pub version : String
  pub artifact : Artifact

pub record UpgradeTask : Type 0 where
  pub id : Uuid
  pub priority : Priority
  pub tags : Tags
  pub unit_name : String
  pub target_version : String
  pub artifact : Artifact
  pub rollback : Option RollbackSpec

pub record RemoveTask : Type 0 where
  pub id : Uuid
  pub priority : Priority
  pub tags : Tags
  pub unit_name : String
  pub purge : Bool

pub record SelfUpgradeTask : Type 0 where
  pub id : Uuid
  pub priority : Priority
  pub tags : Tags
  pub target_version : String
  pub artifact : Artifact
  pub rollback : Option RollbackSpec

pub data Task (V : Type 0) : Type 0 where
  exec : ExecTask V → Task V
  cancel : CancelTask → Task V
  install : InstallTask V → Task V
  upgrade : UpgradeTask → Task V
  remove : RemoveTask → Task V
  self_upgrade : SelfUpgradeTask → Task V

module _ {V : Type 0} where
  -- `task_accessor!(id -> Uuid)`
  unfoldable pub task_id : Task V → Uuid
  task_id (exec t) = t.id
  task_id (cancel t) = t.id
  task_id (install t) = t.id
  task_id (upgrade t) = t.id
  task_id (remove t) = t.id
  task_id (self_upgrade t) = t.id

  -- `task_accessor!(priority -> Priority)`
  unfoldable pub task_priority : Task V → Priority
  task_priority (exec t) = t.priority
  task_priority (cancel t) = t.priority
  task_priority (install t) = t.priority
  task_priority (upgrade t) = t.priority
  task_priority (remove t) = t.priority
  task_priority (self_upgrade t) = t.priority

  unfoldable pub task_tags : Task V → Tags
  task_tags (exec t) = t.tags
  task_tags (cancel t) = t.tags
  task_tags (install t) = t.tags
  task_tags (upgrade t) = t.tags
  task_tags (remove t) = t.tags
  task_tags (self_upgrade t) = t.tags

pub record ChainStep (V : Type 0) : Type 0 where
  pub task : ExecTask V
  pub rollback : Option (ExecTask V)

pub data RollbackStrategy : Type 0 where
  rollback_failed rollback_all : RollbackStrategy

abbrev pub default_strategy : RollbackStrategy
default_strategy = rollback_all

pub record TaskChain (V : Type 0) : Type 0 where
  pub id : Uuid
  pub steps : List (ChainStep V)
  pub on_failure : RollbackStrategy
  pub tags : Tags

pub data TaskResultStatus : Type 0 where
  success failed cancelled timeout rolled_back : TaskResultStatus

pub record TaskResult : Type 0 where
  pub task_id : Uuid
  pub chain_id : Option Uuid
  pub step_index : Option ℕ
  pub status : TaskResultStatus
  pub exit_code : Option ℤ
  pub stdout : String
  pub stderr : String
  pub duration_ms : ℕ
  pub timestamp : ℕ
  pub error : Option String
