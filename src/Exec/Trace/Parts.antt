-- ===== src/Exec/Trace/Parts.antt =====
-- The parts of an execution that are quiet: calls, credentials, the executors, the audit log.
use vasal.Prelude.{
  ℕ, String, Option, none, some, List, [], ◌∷◌, leb, length, FilePath, ◌≡◌, refl, inl, inr,
  Option-cases, if_ind,
}
use vasal.Prelude.Results.{map_err}
use vasal.Protocol.JsonRpc.{integer, new_request}
use vasal.Protocol.Credential.{
  CredentialRef, ResolveMode, eager, lazy, http, sidecar, CredentialProvider,
}
use vasal.Protocol.Task.{ExecTask}
use vasal.Codec
use vasal.Codec.{Bytes, encode}
use vasal.Prelude.Int.{pos}
use vasal.Host.{Env, ChildEnd}
use vasal.Host.Act.{ask}
use vasal.Host.Events.{Command, connected, requested, posted, sql, spilled, killed, waited, spawned}
use vasal.Host.Attempt.{json, of_result}
use vasal.Exec.Call.{open_connection, exchange_frames, send_error, call_raw}
use vasal.Exec.Credentials.{
  ResolvedCredentials, text_at, put, resolve_http, resolve_sidecar, resolve_one, resolve_from,
  resolve_eager,
}
use vasal.Store.Sql.{Tables, AuditRow}
use vasal.Audit.{record_event}
use vasal.Store.{statement, append_audit}
use vasal.Exec.Outcome.{now, make_result}
use vasal.Exec.Shell
use vasal.Exec.Shell.{max_output_size, truncate_output, finish, run_child, run_script}
use vasal.Exec.Trace.{Quiet-trans, one, IsQuiet, act-bind, attempt-bind, silent, once}

module _ {V : Type 0} (env : Env V) where
  pub call_raw-IsQuiet :
      (path : FilePath) (method : String) (params : Option V)
      → IsQuiet (call_raw env path method params)
  unfolding call_raw
  call_raw-IsQuiet path method params =
      attempt-bind (open_connection env path) (once _ (λ _. connected path) (λ _. refl)) λ _.
        attempt-bind
          (of_result
            (map_err json (env.encode_request (new_request method params (integer (pos 1))))))
          (silent _)
          λ payload.
            attempt-bind (of_result (map_err (send_error) (encode Codec.new payload []).0))
              (silent _)
              λ _.
                attempt-bind (exchange_frames env path payload)
                  (once _ (λ _. requested path payload) (λ _. refl)) λ reply. silent _

  provider-IsQuiet :
      (c : CredentialRef V) (socket_dir : FilePath) (p : CredentialProvider)
      → c.provider ≡ p
      → IsQuiet (resolve_one env c socket_dir)
  unfolding resolve_one resolve_http resolve_sidecar
  provider-IsQuiet c socket_dir (http endpoint) e =
      rw e (once _ (λ _. posted endpoint c.params) (λ _. refl))
  provider-IsQuiet c socket_dir (sidecar endpoint method) e =
      rw e
        (attempt-bind (call_raw env _ method _) (call_raw-IsQuiet _ method _) λ response. silent _)

  mode-IsQuiet :
      (creds : ResolvedCredentials) (c : CredentialRef V) (refs : List (CredentialRef V))
      (socket_dir : FilePath) (m : ResolveMode)
      → c.resolve ≡ m
      → ((more : ResolvedCredentials) → IsQuiet (resolve_from env more refs socket_dir))
      → IsQuiet (resolve_from env creds (c ∷ refs) socket_dir)
  unfolding resolve_from
  mode-IsQuiet creds c refs socket_dir lazy e k = rw e (k creds)
  mode-IsQuiet creds c refs socket_dir eager e k = rw e (
      attempt-bind (resolve_one env c socket_dir) (provider-IsQuiet c socket_dir c.provider refl)
        λ value. k (put c.name value creds))

  resolve_from-IsQuiet :
      (creds : ResolvedCredentials) (refs : List (CredentialRef V)) (socket_dir : FilePath)
      → IsQuiet (resolve_from env creds refs socket_dir)
  unfolding resolve_from
  resolve_from-IsQuiet creds [] socket_dir = silent _
  resolve_from-IsQuiet creds (c ∷ refs) socket_dir =
      mode-IsQuiet creds c refs socket_dir c.resolve refl
        (λ more. resolve_from-IsQuiet more refs socket_dir)

  pub resolve_eager-IsQuiet :
      (refs : List (CredentialRef V)) (socket_dir : FilePath)
      → IsQuiet (resolve_eager env refs socket_dir)
  unfolding resolve_eager
  resolve_eager-IsQuiet refs socket_dir = resolve_from-IsQuiet [] refs socket_dir

  statement-IsQuiet : {A : Type 0} (run : Tables → A × Tables) → IsQuiet (statement env run)
  unfolding statement
  statement-IsQuiet run = record {
    quiet = λ w. elim (Option-cases (env.refuse w.trace)) [
      | inl e ↦ rw (e, statement) (one sql refl)
      | inr (_, e) ↦ rw (e, statement) (one sql refl)
    ];
  }

  append_audit-IsQuiet : (row : AuditRow) → IsQuiet (append_audit env row)
  unfolding append_audit
  append_audit-IsQuiet row = statement-IsQuiet _

  pub record_event-IsQuiet :
      (event_type : String) (task_id : Option String) (detail : V)
      → IsQuiet (record_event env event_type task_id detail)
  unfolding record_event
  record_event-IsQuiet event_type task_id detail = record {
    quiet = λ w. (append_audit-IsQuiet _).quiet w;
  }

  truncate_output-IsQuiet : (bytes : Bytes) → IsQuiet (truncate_output env bytes)
  unfolding truncate_output
  truncate_output-IsQuiet bytes =
      if_ind IsQuiet (leb (length bytes) max_output_size) (silent _)
        (once _ (λ w. spilled (env.spill_path w.trace) bytes) (λ _. refl))

  finish-IsQuiet : (t : ExecTask V) (start : ℕ) (end : ChildEnd) → IsQuiet (finish env t start end)
  unfolding finish make_result
  finish-IsQuiet t start ChildEnd.cancelled = once _ (λ _. killed) (λ _. refl)
  finish-IsQuiet t start ChildEnd.timed_out = once _ (λ _. killed) (λ _. refl)
  finish-IsQuiet t start ChildEnd.left_open = silent _
  finish-IsQuiet t start (ChildEnd.exited status stdout stderr) = record {
    quiet = λ w.
        Quiet-trans ((truncate_output-IsQuiet stdout).quiet w)
          ((truncate_output-IsQuiet stderr).quiet (truncate_output env stdout w).1);
  }
  finish-IsQuiet t start (ChildEnd.wait_failed e) = silent _

  run_child-IsQuiet :
      (t : ExecTask V) (start : ℕ) (refused : Option String)
      → IsQuiet (run_child env t start refused)
  unfolding run_child make_result
  run_child-IsQuiet t start (some e) = silent _
  run_child-IsQuiet t start none =
      act-bind (ask (λ l. env.wait l t.timeout_ms) (waited t.timeout_ms))
        (once _ (λ _. waited t.timeout_ms) (λ _. refl)) λ end. finish-IsQuiet t start end

  run_script-IsQuiet :
      (t : ExecTask V) (creds : ResolvedCredentials) (start : ℕ) (script : Option String)
      → IsQuiet (run_script env t creds start script)
  unfolding run_script make_result
  run_script-IsQuiet t creds start none = silent _
  run_script-IsQuiet t creds start (some script) =
      let cmd : Command = record {
        script = script;
        variables = creds;
        working_dir = text_at env t.payload "working_dir";
      } in
      act-bind (ask (λ l. env.spawn l cmd) (spawned cmd)) (once _ (λ _. spawned cmd) (λ _. refl))
        λ refused. run_child-IsQuiet t start refused

  pub shell-IsQuiet :
      (t : ExecTask V) (creds : ResolvedCredentials) → IsQuiet (Shell.execute env t creds)
  unfolding Shell.execute
  shell-IsQuiet t creds =
      act-bind (now env) (silent _)
        λ start. run_script-IsQuiet t creds start (text_at env t.payload "script")
