-- ===== src/Examples/Tables.antt =====
-- The state database and the audit log on concrete input.
use vasal.Prelude.{
  ◌-◌, String, str_eq, none, some, [], ◌∷◌, ◌++◌, map, length, take, drop, ◌≡◌, refl, arith,
  if◌then◌else◌,
}
use vasal.Prelude.Int.{pos}
use vasal.Prelude.Results.{ok}
use vasal.Protocol.Task.{TaskResult, TaskResultStatus}
use vasal.Host.{Env, bad_status}
use vasal.Host.Act.{World}
use vasal.Host.Attempt.{Error, transport}
use vasal.Store.Sql.{
  UnitRow, TaskResultRow, AuditRow, Tables, empty, insert_result, find_unit, insert_unit,
  insert_audit, unforwarded, prune, only_ids, is_in, latest_ids,
}
use vasal.Store.{upsert_unit, get_unit, prune_journal}
use vasal.Store.Laws.Units.{get-upsert}
use vasal.Store.Laws.Journal.{prune_journal-newest}
use vasal.Audit.{delivered, flush_once}
use vasal.Audit.Laws.{flush_once-drops}
use vasal.Manager.Report.{result_to_journal_row, report_chain, rows, report_chain-rows}
use vasal.Examples.{host, world}

abbrev unit : String → UnitRow
unit name = record {
  name = name;
  kind = "sidecar";
  version = "1";
  state = "running";
  health = none;
  health_error = none;
  pid = none;
  socket_path = none;
  config_json = none;
  updated_at = 0;
}

abbrev with_echo : World String
with_echo = (upsert_unit host (unit "echo") world).1

get-upsert_example :
    some (unit "echo") ≡ (if str_eq "echo" "echo" then some (unit "echo") else find_unit "echo" [])
unfolding upsert_unit get_unit find_unit insert_unit
get-upsert_example =
    get-upsert host (unit "echo") "echo" world with_echo (get_unit host "echo" with_echo).1
      (some (unit "echo")) refl refl

abbrev row : String → TaskResultRow
row id = record {
  task_id = id;
  chain_id = none;
  step_index = none;
  status = "Success";
  exit_code = none;
  stdout = "";
  stderr = "";
  duration_ms = pos 0;
  created_at = pos 0;
}

abbrev one_row : Tables
one_row = insert_result (row "1") empty

abbrev journal_world : World String
journal_world = record { trace = []; store = insert_result (row "2") one_row; files = λ p. none }

prune_journal-newest_example :
    let w = (prune_journal host 1 journal_world).1 in
    (w.store.journal ≡ drop (length journal_world.store.journal - 1) journal_world.store.journal)
    × (1 ≡ length journal_world.store.journal - 1)
    × (w.store.units ≡ journal_world.store.units)
    × (w.store.audit_log ≡ journal_world.store.audit_log)
unfolding prune_journal insert_result prune only_ids is_in latest_ids
prune_journal-newest_example =
    prune_journal-newest host 1 1 journal_world (prune_journal host 1 journal_world).1
      (omega arith, (omega arith, omega arith)) refl

abbrev event : AuditRow
event = record {
  id = none;
  timestamp = 0;
  event_type = "task.received";
  task_id = none;
  detail_json = "{}";
}

abbrev audited : World String
audited = record {
  trace = [];
  store = insert_audit event (insert_audit event empty);
  files = λ p. none;
}

flush_once-drops_example :
    ((flush_once host "https://audit" 1 audited).0
      ≡ ok (length (take 1 (unforwarded audited.store.audit_log))))
    × (unforwarded (flush_once host "https://audit" 1 audited).1.store.audit_log
        ≡ drop 1 (unforwarded audited.store.audit_log))
unfolding insert_audit delivered
flush_once-drops_example =
    flush_once-drops host "https://audit" 1 audited (λ t. refl) (λ t v. refl)
      (omega arith, (omega arith, tt))

abbrev down : Env String
down = record host { post = λ t endpoint v. bad_status "503" }

abbrev refused : Error
refused = transport "audit endpoint returned HTTP 503"

abbrev pub result : TaskResult
result = record {
  task_id = 1;
  chain_id = some 7;
  step_index = some 0;
  status = TaskResultStatus.success;
  exit_code = some (pos 0);
  stdout = "";
  stderr = "";
  duration_ms = 5;
  timestamp = 6;
  error = none;
}

report_chain-rows_example :
    rows host (report_chain host (result ∷ []) world).1.store.journal
    ≡ rows host [] ++ map (result_to_journal_row host) (result ∷ [])
report_chain-rows_example = report_chain-rows host (result ∷ []) world (λ t. refl)
