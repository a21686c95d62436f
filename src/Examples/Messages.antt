-- ===== src/Examples/Messages.antt =====
-- Frames, requests and the task manager on concrete input.
use vasal.Prelude.{
  ℕ, ◌+◌, ◌≤◌, String, str_eq, none, some, [], ◌∷◌, ◌++◌, take, ◌≡◌, refl, false, arith,
  if◌then◌else◌,
}
use vasal.Prelude.Int.{pos}
use vasal.Prelude.Results.{ok}
use vasal.Protocol.JsonRpc.{integer, string, Request, jsonrpc_version}
use vasal.Protocol.Errors.{method_not_found_code, invalid_request_code}
use vasal.Protocol.Sidecar.{healthy, SubmitResponse}
use vasal.Protocol.Task.{Task, exec}
use vasal.Codec
use vasal.Codec.{Bytes, LengthPrefixCodec, encode, decode, with_max_size, from_be_bytes, u32_bytes}
use vasal.Codec.Frames.{Fits, frame, decode-frame, decode-take-frame, decode_sound}
use vasal.Server.{SidecarHandler, Wire, default_status, default_cancel, answer, handle_connection}
use vasal.Server.Laws.{Answers, answer-Answers, error_code, answer_unserved}
use vasal.Manager.{
  TaskManager, TaskKindTag, new, submit, enter, update_counts, Reachable, start, next, submitted,
}
use vasal.Manager.Laws.{held, running_bounded}
use vasal.Manager.Entries.{HasLiveEntries, Reachable-HasLiveEntries, update_counts-enter, counted}
use vasal.Examples.{script, host, world}
use vasal.Host.{Env}
use vasal.Protocol.JsonRpc.{new_request}
use vasal.Exec.Call.{call_raw}
use vasal.Exec.Call.Laws.{read_reply, call_raw-answer}

abbrev hello : Bytes
hello = 104 ∷ 105 ∷ []

hello-Fits : Fits Codec.new hello
hello-Fits = record { within = omega arith; counted = omega arith }

decode-frame_example : decode Codec.new (frame hello ++ 0 ∷ []) ≡ (ok (some hello), 0 ∷ [])
decode-frame_example = decode-frame Codec.new hello hello-Fits (0 ∷ [])

decode-take-frame_example :
    decode Codec.new (take 5 (frame hello)) ≡ (ok none, take 5 (frame hello))
unfolding u32_bytes
decode-take-frame_example = decode-take-frame Codec.new hello hello-Fits 5 (omega arith)

decode_sound_example : (0 ∷ 0 ∷ 0 ∷ 1 ∷ 9 ∷ [] ≡ frame (9 ∷ []) ++ []) × Fits Codec.new (9 ∷ [])
unfolding decode from_be_bytes
decode_sound_example =
    decode_sound Codec.new (0 ∷ 0 ∷ 0 ∷ 1 ∷ 9 ∷ []) (9 ∷ []) []
      (omega arith, (omega arith, (omega arith, (omega arith, (omega arith, tt))))) refl

abbrev wire : Wire String
wire = record {
  null = "null";
  read_request = λ bytes. ok (record {
    jsonrpc = jsonrpc_version;
    method = "submit";
    params = none;
    id = integer (pos 4);
  });
  read_task_id = λ v. ok v;
  write_health = λ h. ok "healthy";
  write_submit = λ r. ok "done";
  write_status = λ r. ok "running";
  write_cancel = λ r. ok "cancelled";
  write_response = λ r. ok hello;
  debug = λ s. s;
  refuse = λ bytes. none;
}

-- The state counts the submitted tasks.
abbrev echo : SidecarHandler String ℕ
echo = record {
  health = λ n. (record { status = healthy; version = none; error = none; metadata = none }, n);
  submit = λ v n. (ok (SubmitResponse.completed v "" false), n + 1);
  status = default_status;
  cancel = default_cancel;
}

abbrev request : String → Request String
request method = record {
  jsonrpc = jsonrpc_version;
  method = method;
  params = some "1";
  id = string "a";
}

answer-Answers_example : Answers (string "a") (answer wire echo (request "status") 0).0
answer-Answers_example = answer-Answers wire echo (request "status") 0

answer_unserved_example :
    (error_code (answer wire echo (request "restart") 0).0
      ≡ some (
          if str_eq jsonrpc_version jsonrpc_version
          then method_not_found_code
          else invalid_request_code))
    × ((answer wire echo (request "restart") 0).1 ≡ 0)
answer_unserved_example = answer_unserved wire echo (request "restart") 0 refl

abbrev task : Task String
task = exec (script 3 "true")

abbrev entered : TaskManager
entered = submit task (new 2)

entered-Reachable : Reachable String 2 entered
entered-Reachable = next start (submitted task)

running_bounded_example : (entered.semaphore + held entered.jobs ≡ 2) × (held entered.jobs ≤ 2)
running_bounded_example = running_bounded String 2 entered entered-Reachable

Reachable-HasLiveEntries_example : HasLiveEntries entered.active_tasks entered.jobs
Reachable-HasLiveEntries_example = Reachable-HasLiveEntries String 2 entered entered-Reachable

-- A second task, a continuous one.
update_counts-enter_example :
    (update_counts (enter 9 TaskKindTag.continuous false entered)).counts
    ≡ counted TaskKindTag.continuous (update_counts entered).counts
unfolding submit
update_counts-enter_example =
    update_counts-enter 9 TaskKindTag.continuous false entered refl (omega arith)

-- A wire that reads every frame as a call of `submit`, and a host that is connected to it.
abbrev call : Request String
call = new_request "submit" (some "1") (integer (pos 1))

abbrev served : Wire String
served = record wire { read_request = λ bytes. ok call }

abbrev client : Env String
client = record host {
  encode_request = λ r. ok hello;
  decode_response = λ bytes. ok (answer served echo call 0).0;
  exchange = λ t path bytes. read_reply (handle_connection served echo (some (ok bytes)) 0).0;
}

call_raw-answer_example :
    ((call_raw client "/run/echo.sock" "submit" (some "1") world).0
      ≡ ok (answer served echo (new_request "submit" (some "1") (integer (pos 1))) 0).0)
    × Answers
        (integer (pos 1))
        (answer served echo (new_request "submit" (some "1") (integer (pos 1))) 0).0
call_raw-answer_example =
    call_raw-answer client served echo "/run/echo.sock" "submit" (some "1") hello hello 0 world refl
      refl hello-Fits refl refl hello-Fits refl refl refl
