-- ===== src/Exec/Trace/Polling.antt =====
-- The rest of the parts that are quiet: a task at a sidecar, and one execution of a task.
use vasal.Prelude.{
  ℕ, zero, suc, ◌+◌, ◌*◌, String, Option, none, some, Bool, true, false, leb, ltb, FilePath, ◌≡◌,
  refl, inl, inr, Option-cases, if_ind,
}
use vasal.Prelude.Results.{Result, ok, err}
use vasal.Protocol.JsonRpc.{Response}
use vasal.Protocol.Sidecar.{SubmitResponse, StatusResponse}
use vasal.Protocol.Task.{Uuid, ExecTask, Executor, TaskResult}
use vasal.Host.{Env, Trace}
use vasal.Host.Act.{World}
use vasal.Host.Events.{slept}
use vasal.Host.Attempt.{Error}
use vasal.Exec.Call.{call_raw}
use vasal.Exec.Credentials.{ResolvedCredentials}
use vasal.Exec.Outcome.{elapsed, make_result}
use vasal.Exec.Sidecar
use vasal.Exec.Sidecar.{
  delay_of, ignored, send_cancel, on_status_value, on_status, poll_status, wait_delay, after_delay,
  time_out, poll_once, poll_until_complete, on_submit, on_submit_value, on_response,
}
use vasal.Exec.Router.{run_once}
use vasal.Host.Run
use vasal.Host.Run.{Run}
use vasal.Exec.Trace.{
  Quiet, Quiet-trans, IsQuiet, act-bind, run-bind, handled-IsQuiet, silent, once,
}
use vasal.Exec.Trace.Parts.{call_raw-IsQuiet, shell-IsQuiet}

module _ {V : Type 0} (env : Env V) where
  module _ (id : Uuid) (path : FilePath) (timeout_ms start : ℕ) where
    ignored-IsQuiet :
        (r : Result Error (Response V)) → IsQuiet (ignored env id path timeout_ms start r)
    unfolding ignored
    ignored-IsQuiet (ok _) = silent _
    ignored-IsQuiet (err e) = handled-IsQuiet e _ (silent _)

    send_cancel-IsQuiet :
        (sidecar_id : String) → IsQuiet (send_cancel env id path timeout_ms start sidecar_id)
    unfolding send_cancel
    send_cancel-IsQuiet sidecar_id =
        run-bind (Run.lift (call_raw env path "cancel" (some (env.task_id_json sidecar_id))))
          (record { quiet = (call_raw-IsQuiet env path "cancel" _).quiet }) λ r. ignored-IsQuiet r

    on_status_value-IsQuiet :
        (read : Result String StatusResponse)
        → IsQuiet (on_status_value env id path timeout_ms start read)
    unfolding on_status_value make_result
    on_status_value-IsQuiet (err _) = silent _
    on_status_value-IsQuiet (ok StatusResponse.running) = silent _
    on_status_value-IsQuiet (ok (StatusResponse.completed stdout stderr _)) = silent _
    on_status_value-IsQuiet (ok (StatusResponse.failed error stderr)) = silent _
    on_status_value-IsQuiet (ok StatusResponse.cancelled) = silent _

    on_status-IsQuiet :
        (resp : Result Error (Response V)) → IsQuiet (on_status env id path timeout_ms start resp)
    unfolding on_status make_result
    on_status-IsQuiet (err e) = handled-IsQuiet e _ (silent _)
    on_status-IsQuiet (ok resp) = elim (Option-cases resp.error) [
      | inl p ↦ rw p (record { quiet = λ w. (on_status_value-IsQuiet _).quiet w })
      | inr (e, p) ↦ rw p (silent _)
    ]

    pub after_delay-IsQuiet :
        (sidecar_id : String) (cancelled : Bool)
        → IsQuiet (after_delay env id path timeout_ms start sidecar_id cancelled)
    unfolding after_delay poll_status make_result
    after_delay-IsQuiet sidecar_id true =
        run-bind (send_cancel env id path timeout_ms start sidecar_id)
          (send_cancel-IsQuiet sidecar_id) λ _. silent _
    after_delay-IsQuiet sidecar_id false =
        run-bind (Run.lift (call_raw env path "status" (some (env.task_id_json sidecar_id))))
          (record { quiet = (call_raw-IsQuiet env path "status" _).quiet })
          λ resp. on_status-IsQuiet resp

    wait_delay-IsQuiet : (delay_ms : ℕ) → IsQuiet (wait_delay env id path timeout_ms start delay_ms)
    unfolding wait_delay
    wait_delay-IsQuiet delay_ms =
        if_ind IsQuiet (ltb 0 delay_ms) (once _ (λ _. slept delay_ms) (λ _. refl)) (silent _)

    time_out-IsQuiet :
        (sidecar_id : String) → IsQuiet (time_out env id path timeout_ms start sidecar_id)
    unfolding time_out make_result
    time_out-IsQuiet sidecar_id =
        run-bind (send_cancel env id path timeout_ms start sidecar_id)
          (send_cancel-IsQuiet sidecar_id) λ _. silent _

    poll_once-IsQuiet :
        (sidecar_id : String) (poll_index : ℕ)
        → IsQuiet (poll_once env id path timeout_ms start sidecar_id poll_index)
    unfolding poll_once
    poll_once-IsQuiet sidecar_id poll_index = act-bind (elapsed env start) (silent _) λ nanos.
        if_ind IsQuiet (leb (timeout_ms * 1_000_000) nanos) (time_out-IsQuiet sidecar_id) (
          act-bind (wait_delay env id path timeout_ms start (delay_of poll_index))
            (wait_delay-IsQuiet (delay_of poll_index))
            λ cancelled. after_delay-IsQuiet sidecar_id cancelled)

    -- What follows a round.
    round-Quiet :
        {t : Trace V} (m : Option (Option TaskResult) × World V) (next : Run V TaskResult)
        → Quiet t m.1.trace
        → IsQuiet next
        → Quiet t
            (elim m.0 as (λ _. Option TaskResult × World V) [
              | some (some result) ↦ (some result, m.1)
              | some none ↦ next m.1
              | none ↦ (none, m.1)
            ]).1.trace
    round-Quiet (none, w) next q k = q
    round-Quiet (some none, w) next q k = Quiet-trans q (k.quiet w)
    round-Quiet (some (some r), w) next q k = q

    poll-IsQuiet :
        (fuel : ℕ) (sidecar_id : String) (poll_index : ℕ)
        → IsQuiet (poll_until_complete env id path timeout_ms start fuel sidecar_id poll_index)
    unfolding poll_until_complete
    poll-IsQuiet zero sidecar_id poll_index = silent _
    poll-IsQuiet (suc fuel) sidecar_id poll_index = record {
      quiet = λ w.
          round-Quiet (poll_once env id path timeout_ms start sidecar_id poll_index w) _
            ((poll_once-IsQuiet sidecar_id poll_index).quiet w)
            (poll-IsQuiet fuel sidecar_id (poll_index + 1));
    }

    on_submit-IsQuiet :
        (submit : SubmitResponse) → IsQuiet (on_submit env id path timeout_ms start submit)
    unfolding on_submit make_result
    on_submit-IsQuiet (SubmitResponse.completed stdout stderr _) = silent _
    on_submit-IsQuiet (SubmitResponse.failed error stderr) = silent _
    on_submit-IsQuiet (SubmitResponse.accepted sidecar_id) = poll-IsQuiet _ sidecar_id 0

    on_submit_value-IsQuiet :
        (value : V) (read : Result String SubmitResponse)
        → IsQuiet (on_submit_value env id path timeout_ms start value read)
    unfolding on_submit_value make_result
    on_submit_value-IsQuiet value (err e) = silent _
    on_submit_value-IsQuiet value (ok submit) = on_submit-IsQuiet submit

    on_response-IsQuiet :
        (target : String) (resp : Result Error (Response V))
        → IsQuiet (on_response env id path timeout_ms start target resp)
    unfolding on_response make_result
    on_response-IsQuiet target (err e) = handled-IsQuiet e _ (silent _)
    on_response-IsQuiet target (ok resp) = elim (Option-cases resp.error) [
      | inl p ↦ rw p (on_submit_value-IsQuiet _ (env.read_submit _))
      | inr (e, p) ↦ rw p (silent _)
    ]

  executor-IsQuiet :
      (socket_dir : FilePath) (t : ExecTask V) (creds : ResolvedCredentials) (x : Executor)
      → t.executor ≡ x
      → IsQuiet (run_once env socket_dir t creds)
  unfolding run_once Sidecar.execute
  executor-IsQuiet socket_dir t creds Executor.shell p = rw p (shell-IsQuiet env t creds)
  executor-IsQuiet socket_dir t creds Executor.sidecar p = rw p (record {
    quiet = λ w.
        Quiet-trans ((call_raw-IsQuiet env _ _ _).quiet w)
          ((on_response-IsQuiet t.id _ t.timeout_ms _ _ _).quiet _);
  })

  -- One execution of a task leaves no note.
  pub run_once-IsQuiet :
      (socket_dir : FilePath) (t : ExecTask V) (creds : ResolvedCredentials)
      → IsQuiet (run_once env socket_dir t creds)
  run_once-IsQuiet socket_dir t creds = executor-IsQuiet socket_dir t creds t.executor refl
