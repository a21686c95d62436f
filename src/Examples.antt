-- ===== src/Examples.antt =====
-- A host, a store and a wire to run the definitions on. JSON values are texts here, and the payload
-- of a shell task is its script: the script "fail" exits with 1, every other with 0.
pub mod Chains
pub mod Polls
pub mod Tables
pub mod Messages
pub mod Loops
pub mod Machine
pub mod Units
pub mod Agents
use vasal.Prelude.{
  ◌≢◌, ℕ, ◌+◌, ◌*◌, ◌≤◌, String, str_eq, Option, none, some, List, [], ◌∷◌, Bool, true, false,
  decimal, ◌≡◌, arith, if◌then◌else◌,
}
use vasal.Prelude.Int.{pos}
use vasal.Prelude.Results.{Result, ok, err}
use vasal.Protocol.JsonRpc.{Response, integer, success, jsonrpc_version}
use vasal.Protocol.Sidecar.{SubmitResponse, StatusResponse}
use vasal.Protocol.Task.{ExecTask, ExecKind, Executor, normal, TaskResult}
use vasal.Host.{Env, Trace, Reply, frame, ChildEnd, HttpReply, body}
use vasal.Host.Events.{Event, slept, rested, spawned}
use vasal.Host.Act.{World}
use vasal.Store.Sql.{empty}
use vasal.Exec.Trace.Answers.{Answers}
use vasal.Exec.Trace.{Clock}

-- Only sleeping takes time.
unfoldable pub duration : Event String → ℕ
duration (slept ms) = ms * 1_000_000
duration (rested ms) = ms * 1_000_000
duration e = 0

unfoldable pub clock_of : Trace String → ℕ
unfolding duration
clock_of [] = 0
clock_of (e ∷ t) = duration e + clock_of t

abbrev script_of : Trace String → Option String
script_of (spawned cmd ∷ t) = some cmd.script
script_of t = none

abbrev end_of : Option String → ChildEnd
end_of (some script) =
    ChildEnd.exited (record { code = some (pos (if str_eq script "fail" then 1 else 0)) }) [] []
end_of none = ChildEnd.wait_failed "no child"

abbrev pub exit_of : Trace String → ChildEnd
exit_of t = end_of (script_of t)

end_of-closes : (o : Option String) → end_of o ≢ ChildEnd.left_open
end_of-closes (some script) h = cc
end_of-closes none h = cc

-- A sidecar that accepts each task, and reports it as completed once the agent has slept.
abbrev pub status_of : String → Result String StatusResponse
status_of v =
    if str_eq v "running"
    then ok StatusResponse.running
    else ok (StatusResponse.completed "out" "" false)

abbrev pub host : Env String
host = record {
  null = "null";
  is_null = λ v. str_eq v "null";
  get = λ v key. if str_eq key "script" then some v else none;
  as_str = λ v. some v;
  is_object = λ v. true;
  insert = λ v key field. v;
  json_text = λ v. v;
  parse_json = λ text. ok text;
  encode_request = λ r. ok (1 ∷ []);
  decode_response = λ bytes. ok (record {
    jsonrpc = jsonrpc_version;
    result = some "running";
    error = none;
    id = integer (pos 1);
  });
  read_submit = λ v. ok (SubmitResponse.accepted "a");
  read_status = status_of;
  text = λ v. v;
  number = decimal;
  array = λ vs. "[]";
  object = λ fields. "{}";
  task_id_json = λ id. id;
  credentials_json = λ creds. "{}";
  references_json = λ refs. ok "[]";
  lossy = λ bytes. "";
  spill_path = λ t. "/tmp/vasal/output/0.out";
  uuid_text = decimal;
  instant = clock_of;
  wall_ms = λ t. 0;
  is_cancelled = λ t. false;
  cancelled_in_sleep = λ t ms. false;
  connect = λ t path. none;
  exchange = λ t path bytes. frame (1 ∷ []);
  post = λ t endpoint v. body "accepted";
  spawn = λ t cmd. none;
  wait = λ t ms. exit_of t;
  refuse = λ t. none;
}

pub host-Clock : Clock host
unfolding clock_of duration
host-Clock = record { monotonic = λ e t. omega arith; sleeps = λ ms t h. omega arith }

pub host-Answers : Answers host
host-Answers = record {
  answers = λ t path bytes h. cc;
  closes = λ t ms. end_of-closes (script_of t);
}

abbrev pub world : World String
world = record { trace = []; store = empty; files = λ p. none }

abbrev pub script : ℕ → String → ExecTask String
script id text = record {
  id = id;
  priority = normal;
  tags = [];
  kind = ExecKind.oneshot;
  executor = Executor.shell;
  target = none;
  method = none;
  payload = text;
  interval_ms = none;
  timeout_ms = 1000;
  credentials = [];
}
