-- ===== src/Exec/Chain/Named.antt =====
-- crates/vasal-core/src/task: whichever branch an executor ends in, the result carries the id of
-- the task it was given.
use vasal.Prelude.{
  ℕ, zero, suc, ◌+◌, String, Bool, true, false, Option, none, some, ◌≡◌, refl, ◌⊎◌, inl, inr,
  Option-cases, if_ind, leb, ◌*◌, FilePath,
}
use vasal.Prelude.Results.{Result, ok, err}
use vasal.Protocol.JsonRpc.{Response}
use vasal.Protocol.Sidecar.{SubmitResponse, StatusResponse}
use vasal.Protocol.Task.{Uuid, Executor, ExecTask, TaskResult}
use vasal.Host.{Env, ChildEnd}
use vasal.Host.Act.{World}
use vasal.Host.Run
use vasal.Host.Run.{Run}
use vasal.Host.Attempt.{Error, is_unanswered}
use vasal.Exec.Credentials.{ResolvedCredentials, text_at}
use vasal.Exec.Outcome.{make_result}
use vasal.Exec.Shell.{run_child, finish, run_script}
use vasal.Exec.Shell
use vasal.Exec.Sidecar.{
  on_status_value, on_status, poll_status, send_cancel, wait_delay, after_delay, time_out,
  poll_once, poll_until_complete, on_submit, on_submit_value, on_response,
}
use vasal.Exec.Sidecar
use vasal.Exec.Router.{run_once}

-- A result that is for the task `id`, if there is one.
abbrev pub IsFor : Uuid → Option TaskResult → Type 0
IsFor id none = Unit
IsFor id (some r) = r.task_id ≡ id

-- What a round of the polling gives.
abbrev pub IsPollFor : Uuid → Option (Option TaskResult) → Type 0
IsPollFor id none = Unit
IsPollFor id (some o) = IsFor id o

pub handled-IsFor :
    {V : Type 0} (id : Uuid) (e : Error) (m : Run V TaskResult) (w : World V)
    → IsFor id (m w).0
    → IsFor id (Run.handled e m w).0
unfolding Run.handled
handled-IsFor id e m w h =
    if_ind (λ (m : Run _ TaskResult). IsFor id (m w).0) (is_unanswered e) tt h

Executor-cases : (e : Executor) → (e ≡ Executor.shell) ⊎ (e ≡ Executor.sidecar)
Executor-cases Executor.shell = inl refl
Executor-cases Executor.sidecar = inr refl

module _ {V : Type 0} (env : Env V) where
  finish-id :
      (t : ExecTask V) (start : ℕ) (end : ChildEnd) (w : World V)
      → IsFor t.id (finish env t start end w).0
  unfolding finish make_result
  finish-id t start ChildEnd.cancelled w = refl
  finish-id t start ChildEnd.timed_out w = refl
  finish-id t start ChildEnd.left_open w = tt
  finish-id t start (ChildEnd.exited status stdout stderr) w = refl
  finish-id t start (ChildEnd.wait_failed e) w = refl

  run_child-id :
      (t : ExecTask V) (start : ℕ) (refused : Option String) (w : World V)
      → IsFor t.id (run_child env t start refused w).0
  unfolding run_child make_result
  run_child-id t start (some e) w = refl
  run_child-id t start none w = finish-id t start _ _

  run_script-id :
      (t : ExecTask V) (creds : ResolvedCredentials) (start : ℕ) (script : Option String)
      (w : World V)
      → IsFor t.id (run_script env t creds start script w).0
  unfolding run_script make_result
  run_script-id t creds start none w = refl
  run_script-id t creds start (some script) w = run_child-id t start _ _

  pub execute-id :
      (t : ExecTask V) (creds : ResolvedCredentials) (w : World V)
      → IsFor t.id (Shell.execute env t creds w).0
  unfolding Shell.execute
  execute-id t creds w = run_script-id t creds _ (text_at env t.payload "script") w

  module _ (id : Uuid) (path : FilePath) (timeout_ms start : ℕ) where
    on_status_value-IsFor :
        (read : Result String StatusResponse) (w : World V)
        → IsFor id (on_status_value env id path timeout_ms start read w).0
    unfolding on_status_value make_result
    on_status_value-IsFor (err _) w = tt
    on_status_value-IsFor (ok StatusResponse.running) w = tt
    on_status_value-IsFor (ok (StatusResponse.completed stdout stderr _)) w = refl
    on_status_value-IsFor (ok (StatusResponse.failed error stderr)) w = refl
    on_status_value-IsFor (ok StatusResponse.cancelled) w = refl

    on_status-IsFor :
        (resp : Result Error (Response V)) (w : World V)
        → IsPollFor id (on_status env id path timeout_ms start resp w).0
    unfolding on_status make_result Run.handled
    on_status-IsFor (err e) w =
        if_ind (λ (m : Run V (Option TaskResult)). IsPollFor id (m w).0) (is_unanswered e) tt tt
    on_status-IsFor (ok resp) w = elim (Option-cases resp.error) [
      | inl p ↦ rw p (on_status_value-IsFor _ w)
      | inr (e, p) ↦ rw p refl
    ]

    -- What follows a cancel that was sent.
    sent-IsFor :
        (m : Option (Unit {0}) × World V) (next : Run V (Option TaskResult))
        → ((w : World V) → IsPollFor id (next w).0)
        → IsPollFor id (Run.continue m.0 (λ _. next) m.1).0
    sent-IsFor (none, w) next k = tt
    sent-IsFor (some _, w) next k = k w

    after_delay-IsFor :
        (sidecar_id : String) (cancelled : Bool) (w : World V)
        → IsPollFor id (after_delay env id path timeout_ms start sidecar_id cancelled w).0
    unfolding after_delay poll_status make_result
    after_delay-IsFor sidecar_id true w =
        sent-IsFor (send_cancel env id path timeout_ms start sidecar_id w) _ (λ w'. refl)
    after_delay-IsFor sidecar_id false w = on_status-IsFor _ _

    poll_once-IsFor :
        (sidecar_id : String) (poll_index : ℕ) (w : World V)
        → IsPollFor id (poll_once env id path timeout_ms start sidecar_id poll_index w).0
    unfolding poll_once time_out make_result
    poll_once-IsFor sidecar_id poll_index w =
        if_ind (λ (m : Run V (Option TaskResult)). IsPollFor id (m w).0)
          (leb (timeout_ms * 1_000_000) _)
          (sent-IsFor (send_cancel env id path timeout_ms start sidecar_id w) _ (λ w'. refl))
          (after_delay-IsFor sidecar_id _ _)

    -- What follows a round.
    round-IsFor :
        (m : Option (Option TaskResult) × World V) (next : Run V TaskResult)
        → IsPollFor id m.0
        → ((w : World V) → IsFor id (next w).0)
        → IsFor id
            (elim m.0 as (λ _. Option TaskResult × World V) [
              | some (some result) ↦ (some result, m.1)
              | some none ↦ next m.1
              | none ↦ (none, m.1)
            ]).0
    round-IsFor (none, w) next h k = tt
    round-IsFor (some none, w) next h k = k w
    round-IsFor (some (some r), w) next h k = h

    poll-IsFor :
        (fuel : ℕ) (sidecar_id : String) (poll_index : ℕ) (w : World V)
        → IsFor id (poll_until_complete env id path timeout_ms start fuel sidecar_id poll_index w).0
    unfolding poll_until_complete
    poll-IsFor zero sidecar_id poll_index w = tt
    poll-IsFor (suc fuel) sidecar_id poll_index w =
        round-IsFor (poll_once env id path timeout_ms start sidecar_id poll_index w)
          (poll_until_complete env id path timeout_ms start fuel sidecar_id (poll_index + 1))
          (poll_once-IsFor sidecar_id poll_index w) (poll-IsFor fuel sidecar_id (poll_index + 1))

    on_submit-IsFor :
        (submit : SubmitResponse) (w : World V)
        → IsFor id (on_submit env id path timeout_ms start submit w).0
    unfolding on_submit make_result
    on_submit-IsFor (SubmitResponse.completed stdout stderr _) w = refl
    on_submit-IsFor (SubmitResponse.failed error stderr) w = refl
    on_submit-IsFor (SubmitResponse.accepted sidecar_id) w = poll-IsFor _ sidecar_id 0 w

    on_submit_value-IsFor :
        (value : V) (read : Result String SubmitResponse) (w : World V)
        → IsFor id (on_submit_value env id path timeout_ms start value read w).0
    unfolding on_submit_value make_result
    on_submit_value-IsFor value (err e) w = refl
    on_submit_value-IsFor value (ok submit) w = on_submit-IsFor submit w

    on_response-IsFor :
        (target : String) (resp : Result Error (Response V)) (w : World V)
        → IsFor id (on_response env id path timeout_ms start target resp w).0
    unfolding on_response make_result
    on_response-IsFor target (err e) w = handled-IsFor id e _ w refl
    on_response-IsFor target (ok resp) w = elim (Option-cases resp.error) [
      | inl p ↦ rw p (on_submit_value-IsFor _ (env.read_submit _) w)
      | inr (e, p) ↦ rw p refl
    ]

  -- Whichever branch an executor ends in, the result carries the id of the task.
  pub run_once-IsFor :
      (socket_dir : FilePath) (t : ExecTask V) (creds : ResolvedCredentials) (w : World V)
      → IsFor t.id (run_once env socket_dir t creds w).0
  unfolding run_once Sidecar.execute
  run_once-IsFor socket_dir t creds w = elim (Executor-cases t.executor) [
    | inl p ↦ rw p (execute-id t creds w)
    | inr p ↦ rw p (on_response-IsFor t.id _ t.timeout_ms _ _ _ _)
  ]
