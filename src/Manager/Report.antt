-- ===== src/Manager/Report.antt =====
-- crates/vasal-core/src/task/mod.rs: what a spawned task does with its results. A refused statement
-- is ignored (`let _ =`), and so is a closed channel.
use mathlib.Core.List.{append_assoc, append-nil, reverse, reverse-cons}
use vasal.Prelude.{
  String, none, some, List, [], ◌∷◌, ◌++◌, map, ◌≡◌, refl, sym, ap, ◌∙◌, inl, inr, Option-cases,
}
use vasal.Prelude.Int.{signed}
use vasal.Protocol.Task.{Uuid, TaskResult, TaskResultStatus}
use vasal.Host.{Env, Trace}
use vasal.Host.Events.{sent}
use vasal.Host.Act.{World, Act, pure, happen, ◌>>◌}
use vasal.Store.Sql.{TaskResultRow, JournalEntry, insert_result}
use vasal.Store.{record_task_result, statement}
use vasal.Audit
use vasal.Audit.{record_event}

-- `format!("{:?}", result.status)`
unfoldable pub status_text : TaskResultStatus → String
status_text TaskResultStatus.success = "Success"
status_text TaskResultStatus.failed = "Failed"
status_text TaskResultStatus.cancelled = "Cancelled"
status_text TaskResultStatus.timeout = "Timeout"
status_text TaskResultStatus.rolled_back = "RolledBack"

-- The audit event of a finished exec task.
unfoldable pub event_type : TaskResultStatus → String
event_type TaskResultStatus.success = Audit.task_completed
event_type TaskResultStatus.failed = Audit.task_failed
event_type TaskResultStatus.cancelled = Audit.task_cancelled
event_type TaskResultStatus.timeout = Audit.task_timeout
event_type TaskResultStatus.rolled_back = Audit.task_failed

module _ {V : Type 0} (env : Env V) where
  unfoldable pub result_to_journal_row : TaskResult → TaskResultRow
  unfolding status_text
  result_to_journal_row r = record {
    task_id = env.uuid_text r.task_id;
    chain_id = elim r.chain_id [ none ↦ none | some id ↦ some (env.uuid_text id) ];
    step_index = elim r.step_index [ none ↦ none | some i ↦ some (signed 32 i) ];
    status = status_text r.status;
    exit_code = r.exit_code;
    stdout = r.stdout;
    stderr = r.stderr;
    duration_ms = signed 64 r.duration_ms;
    created_at = signed 64 r.timestamp;
  }

  -- One result: the journal, whatever comes of it, and the channel.
  unfoldable pub report_result : TaskResult → Act V (Unit {0})
  unfolding result_to_journal_row record_task_result
  report_result r w = (tt, happen (sent r) (record_task_result env (result_to_journal_row r) w).1)

  unfoldable pub report_chain : List TaskResult → Act V (Unit {0})
  unfolding report_result
  report_chain [] = pure tt
  report_chain (r ∷ rs) = report_result r >> report_chain rs

  unfoldable pub report_exec : (result_json : TaskResult → V) → Uuid → TaskResult → Act V (Unit {0})
  unfolding result_to_journal_row record_task_result event_type record_event
  report_exec result_json id r w =
      let recorded = (record_task_result env (result_to_journal_row r) w).1 in
      let audited =
        (record_event env (event_type r.status) (some (env.uuid_text id)) (result_json r)
          recorded).1 in
      (tt, happen (sent r) audited)

  abbrev pub rows : List JournalEntry → List TaskResultRow
  rows = map (λ (e : JournalEntry). e.row)

  rows-append : (es fs : List JournalEntry) → rows (es ++ fs) ≡ rows es ++ rows fs
  rows-append [] fs = refl
  rows-append (e ∷ es) fs = ap (λ l. e.row ∷ l) (rows-append es fs)

  record_task_result-rows :
      (row : TaskResultRow) (w : World V)
      → env.refuse w.trace ≡ none
      → rows (record_task_result env row w).1.store.journal ≡ rows w.store.journal ++ row ∷ []
  unfolding record_task_result insert_result
  record_task_result-rows row w h = rw (h, statement) (rows-append w.store.journal _)

  report_result-rows :
      (r : TaskResult) (w : World V)
      → env.refuse w.trace ≡ none
      → rows (report_result r w).1.store.journal
        ≡ rows w.store.journal ++ result_to_journal_row r ∷ []
  unfolding report_result
  report_result-rows r w h = record_task_result-rows (result_to_journal_row r) w h

  -- Where SQLite refuses no statement, reporting a chain adds one row to the journal for each of its
  -- results, in their order, after the rows that were there.
  pub report_chain-rows :
      (rs : List TaskResult) (w : World V)
      → ((t : Trace V) → env.refuse t ≡ none)
      → rows (report_chain rs w).1.store.journal
        ≡ rows w.store.journal ++ map result_to_journal_row rs
  unfolding report_chain
  report_chain-rows [] w h = sym (append-nil (rows w.store.journal))
  report_chain-rows (r ∷ rs) w h =
      report_chain-rows rs (report_result r w).1 h
      ∙ ap (λ l. l ++ map result_to_journal_row rs) (report_result-rows r w (h w.trace))
      ∙ append_assoc (rows w.store.journal) (result_to_journal_row r ∷ [])
          (map result_to_journal_row rs)

  -- The results on the channel, the latest first.
  abbrev pub results_sent : Trace V → List TaskResult
  results_sent [] = []
  results_sent (sent r ∷ t) = r ∷ results_sent t
  results_sent (e ∷ t) = results_sent t

  record_task_result-sent :
      (row : TaskResultRow) (w : World V)
      → results_sent (record_task_result env row w).1.trace ≡ results_sent w.trace
  unfolding record_task_result statement
  record_task_result-sent row w = elim (Option-cases (env.refuse w.trace)) [
    | inl e ↦ rw (e, statement) refl
    | inr (_, e) ↦ rw (e, statement) refl
  ]

  -- Whether or not the journal takes them, every result of a chain is put on the channel, in order.
  pub report_chain-results_sent :
      (rs : List TaskResult) (w : World V)
      → results_sent (report_chain rs w).1.trace ≡ reverse rs ++ results_sent w.trace
  unfolding report_chain report_result
  report_chain-results_sent [] w = refl
  report_chain-results_sent (r ∷ rs) w = rw (reverse-cons r rs) (
      report_chain-results_sent rs (report_result r w).1
      ∙ ap (λ l. reverse rs ++ r ∷ l) (record_task_result-sent (result_to_journal_row r) w)
      ∙ sym (append_assoc (reverse rs) (r ∷ []) (results_sent w.trace)))
