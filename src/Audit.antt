-- ===== src/Audit.antt =====
-- crates/vasal-core/src/audit.rs: audit events, kept in the state database and forwarded in batches.
pub mod Forwarder
pub mod Laws
use vasal.Prelude.{ℕ, ◌*◌, min, String, Option, none, some, List, [], ◌∷◌, map, length}
use vasal.Prelude.Results.{Result, ok, err}
use vasal.Store.Sql.{AuditRow}
use vasal.Store.{append_audit, pending_audit_events, mark_forwarded}
use vasal.Host.{Env, HttpReply, send_error, bad_status, body_error, body}
use vasal.Host.Events.{posted}
use vasal.Host.Act.{Act, happen}
use vasal.Host.Attempt.{Error, http, transport, Attempt, succeed, ◌>>=◌, ◌>>◌}
use vasal.Prelude.{format}

-- `mod event`, the names that the agent records
abbrev pub task_received : String
task_received = "task.received"

abbrev pub task_completed : String
task_completed = "task.completed"

abbrev pub task_failed : String
task_failed = "task.failed"

abbrev pub task_cancelled : String
task_cancelled = "task.cancelled"

abbrev pub task_timeout : String
task_timeout = "task.timeout"

abbrev pub chain_started : String
chain_started = "chain.started"

abbrev pub chain_completed : String
chain_completed = "chain.completed"

abbrev pub chain_rollback : String
chain_rollback = "chain.rollback"

abbrev pub max_backoff_sec : ℕ
max_backoff_sec = 60

abbrev pub agent_started : String
agent_started = "agent.started"

abbrev pub agent_shutdown : String
agent_shutdown = "agent.shutdown"

-- `filter_map(|e| e.id)`
unfoldable pub ids_of : List AuditRow → List ℕ
ids_of [] = []
ids_of (e ∷ es) = let rest = ids_of es in elim e.id [ none ↦ rest | some i ↦ i ∷ rest ]

-- The wait after a failed flush, in seconds, and the one after a successful flush.
unfoldable pub next_backoff : Result Error ℕ → ℕ → ℕ
next_backoff (ok _) backoff = 1
next_backoff (err _) backoff = min (backoff * 2) max_backoff_sec

module _ {V : Type 0} (env : Env V) where
  -- A failure to record is logged and goes no further.
  unfoldable pub record_event : String → Option String → V → Act V (Unit {0})
  unfolding append_audit
  record_event event_type task_id detail w =
      let row : AuditRow = record {
        id = none;
        timestamp = env.wall_ms w.trace;
        event_type = event_type;
        task_id = task_id;
        detail_json = env.json_text detail;
      } in
      (tt, (append_audit env row w).1)

  json_or_null : Result String V → V
  json_or_null (ok v) = v
  json_or_null (err _) = env.null

  optional_text : Option String → V
  optional_text none = env.null
  optional_text (some s) = env.text s

  unfoldable pub event_json : AuditRow → V
  unfolding json_or_null optional_text
  event_json e = env.object (
      ("timestamp", env.number e.timestamp)
      ∷ ("event_type", env.text e.event_type)
      ∷ ("task_id", optional_text e.task_id)
      ∷ ("detail", json_or_null (env.parse_json e.detail_json))
      ∷ [])

  -- The status of the reply; its body is not read.
  unfoldable pub delivered : HttpReply → Result Error (Unit {0})
  delivered (send_error e) = err (http e)
  delivered (bad_status status) =
      err (transport (format ("audit endpoint returned HTTP " ∷ status ∷ [])))
  delivered (body_error e) = ok tt
  delivered (body text) = ok tt

  unfoldable pub deliver : String → List AuditRow → Attempt V (Unit {0})
  unfolding delivered event_json
  deliver endpoint events w =
      let payload = env.array (map event_json events) in
      (
        delivered (env.post w.trace endpoint (some payload)),
        happen (posted endpoint (some payload)) w,
      )

  unfoldable pub flush : String → List AuditRow → Attempt V ℕ
  unfolding deliver ids_of mark_forwarded
  flush endpoint [] = succeed 0
  flush endpoint (e ∷ es) = do
    deliver endpoint (e ∷ es)
    mark_forwarded env (ids_of (e ∷ es))
    succeed (length (e ∷ es))

  unfoldable pub flush_once : String → ℕ → Attempt V ℕ
  unfolding flush pending_audit_events
  flush_once endpoint batch_size = do
    events ← pending_audit_events env batch_size
    flush endpoint events
