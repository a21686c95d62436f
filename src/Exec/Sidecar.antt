-- ===== src/Exec/Sidecar.antt =====
-- crates/vasal-core/src/task/sidecar.rs: a task handed to a sidecar, and the polling of one that the
-- sidecar accepted.
pub mod Silent
use vasal.Prelude.{
  ℕ, zero, suc, ◌+◌, ◌*◌, ◌/◌, String, Option, none, some, List, [], ◌∷◌, Bool, true, false, leb,
  ltb, get_or, decimal, format, FilePath, join, if◌then◌else◌,
}
use vasal.Prelude.Int.{int_text}
use vasal.Prelude.Results.{Result, ok, err}
use vasal.Protocol.JsonRpc.{Response, ErrorObject}
use vasal.Protocol.Sidecar.{SubmitResponse, StatusResponse}
use vasal.Protocol.Credential.{CredentialRef}
use vasal.Protocol.Task.{Uuid, TaskResult, TaskResultStatus}
use vasal.Host.{Env}
use vasal.Host.Events.{slept}
use vasal.Host.Act.{Act, pure, ask, ◌>>=◌, ◌>>◌}
use vasal.Host.Run
use vasal.Host.Run.{Run}
use vasal.Host.Attempt.{Error, error_text}
use vasal.Exec.Call.{call_raw}
use vasal.Exec.Credentials.{ResolvedCredentials, lazy_credentials_as_json}
use vasal.Exec.Outcome.{now, elapsed, result_since}

-- `POLL_DELAYS_MS`
abbrev pub poll_delays_ms : List ℕ
poll_delays_ms = 0 ∷ 100 ∷ 200 ∷ 500 ∷ 1000 ∷ []

-- `POLL_DELAYS_MS.get(poll_index)`, and the last one beyond the end
unfoldable pub delay_of : ℕ → ℕ
delay_of poll_index = get_or poll_delays_ms poll_index 1000

-- Rounds that are enough for a timeout: the first does not sleep, each later one sleeps 100 ms or
-- more.
abbrev pub poll_fuel : ℕ → ℕ
poll_fuel timeout_ms = timeout_ms / 100 + 3

-- `format!("[{}] {}", err.code, err.message)`
abbrev coded : {V : Type 0} → ErrorObject V → String
coded e = format ("[" ∷ int_text e.code ∷ "] " ∷ e.message ∷ [])

module _ {V : Type 0} (env : Env V) where
  -- The payload with what was resolved and what the sidecar is to resolve.
  unfoldable pub with_credentials : V → ResolvedCredentials → List (CredentialRef V) → V
  unfolding lazy_credentials_as_json
  with_credentials payload resolved refs =
      let eager = elim resolved as (λ _. V) [
        | [] ↦ payload
        | c ∷ more ↦ env.insert payload "_credentials" (env.credentials_json (c ∷ more))
      ] in
      let lazy = lazy_credentials_as_json env refs in
      if env.is_object payload
      then (if env.is_null lazy then eager else env.insert eager "_lazy_credentials" lazy)
      else payload

  -- One task at one sidecar, from `start` on.
  module _ (task_id : Uuid) (path : FilePath) (timeout_ms start : ℕ) where
    abbrev finished : TaskResultStatus → (stdout stderr : String) → Option String → Act V TaskResult
    finished status stdout stderr error =
        result_since env start task_id status none stdout stderr error

    abbrev returned : Act V TaskResult → Act V (Option TaskResult)
    returned m = m >>= λ r. pure (some r)

    -- `let _ =`
    unfoldable pub ignored : Result Error (Response V) → Run V (Unit {0})
    unfolding Run.handled
    ignored (ok _) = Run.return tt
    ignored (err e) = Run.handled e (Run.return tt)

    -- `let _ = call_raw(socket_path, "cancel", …).await`
    unfoldable pub send_cancel : String → Run V (Unit {0})
    unfolding call_raw ignored
    send_cancel sidecar_id =
        Run.◌>>=◌ (Run.lift (call_raw env path "cancel" (some (env.task_id_json sidecar_id))))
          ignored

    unfoldable pub on_status_value : Result String StatusResponse → Act V (Option TaskResult)
    on_status_value (err _) = pure none
    on_status_value (ok StatusResponse.running) = pure none
    on_status_value (ok (StatusResponse.completed stdout stderr _)) =
        returned (finished TaskResultStatus.success stdout stderr none)
    on_status_value (ok (StatusResponse.failed error stderr)) =
        returned (finished TaskResultStatus.failed "" stderr (some error))
    on_status_value (ok StatusResponse.cancelled) =
        returned (finished TaskResultStatus.cancelled "" "" none)

    -- The answer to a status poll: a result, or `some none` where polling goes on.
    unfoldable pub on_status : Result Error (Response V) → Run V (Option TaskResult)
    unfolding on_status_value int_text Run.handled
    on_status (err e) = Run.handled e (Run.return none)
    on_status (ok resp) = Run.lift (elim resp.error [
      | some e ↦ returned (finished TaskResultStatus.failed "" (coded e) (some e.message))
      | none ↦ on_status_value (env.read_status (elim resp.result [ none ↦ env.null | some v ↦ v ]))
    ])

    unfoldable pub poll_status : String → Run V (Option TaskResult)
    unfolding on_status call_raw
    poll_status sidecar_id =
        Run.◌>>=◌ (Run.lift (call_raw env path "status" (some (env.task_id_json sidecar_id))))
          on_status

    -- The `select!` of cancellation and the sleep before a poll: whether the task was cancelled.
    unfoldable pub wait_delay : ℕ → Act V Bool
    wait_delay delay_ms =
        if ltb 0 delay_ms
        then ask (λ t. env.cancelled_in_sleep t delay_ms) (slept delay_ms)
        else pure false

    unfoldable pub after_delay : String → Bool → Run V (Option TaskResult)
    unfolding send_cancel poll_status
    after_delay sidecar_id true =
        Run.◌>>=◌ (send_cancel sidecar_id)
          (λ _. Run.lift (returned (finished TaskResultStatus.cancelled "" "" none)))
    after_delay sidecar_id false = poll_status sidecar_id

    unfoldable pub time_out : String → Run V (Option TaskResult)
    unfolding send_cancel decimal
    time_out sidecar_id = Run.◌>>=◌ (send_cancel sidecar_id) (λ _. Run.lift (
        returned (
          finished TaskResultStatus.timeout "" ""
            (some (format ("timeout after " ∷ decimal timeout_ms ∷ "ms" ∷ []))))))

    -- One round of the loop.
    unfoldable pub poll_once : String → ℕ → Run V (Option TaskResult)
    unfolding delay_of wait_delay after_delay time_out
    poll_once sidecar_id poll_index = do
      nanos ← elapsed env start
      if leb (timeout_ms * 1_000_000) nanos
          then time_out sidecar_id
          else (do cancelled ← wait_delay (delay_of poll_index); after_delay sidecar_id cancelled)

    -- The loop, for at most `fuel` rounds: none where they are used up, or a call never
    -- comes back.
    unfoldable pub poll_until_complete : (fuel : ℕ) → String → ℕ → Run V TaskResult
    unfolding poll_once
    poll_until_complete zero sidecar_id poll_index w = (none, w)
    poll_until_complete (suc fuel) sidecar_id poll_index w =
        let (r, w') = poll_once sidecar_id poll_index w in
        elim r [
          | some (some result) ↦ (some result, w')
          | some none ↦ poll_until_complete fuel sidecar_id (poll_index + 1) w'
          | none ↦ (none, w')
        ]

    -- The `match` on what the sidecar submitted.
    unfoldable pub on_submit : SubmitResponse → Run V TaskResult
    unfolding poll_until_complete
    on_submit (SubmitResponse.completed stdout stderr _) =
        Run.lift (finished TaskResultStatus.success stdout stderr none)
    on_submit (SubmitResponse.failed error stderr) =
        Run.lift (finished TaskResultStatus.failed "" stderr (some error))
    on_submit (SubmitResponse.accepted sidecar_id) =
        poll_until_complete (poll_fuel timeout_ms) sidecar_id 0

    unfoldable pub on_submit_value : V → Result String SubmitResponse → Run V TaskResult
    unfolding on_submit
    on_submit_value value (err e) = Run.lift (
        finished TaskResultStatus.failed (env.json_text value) e
          (some (format ("failed to parse sidecar response: " ∷ e ∷ []))))
    on_submit_value value (ok submit) = on_submit submit

    -- What follows the submitting call; `target` names the sidecar.
    unfoldable pub on_response : String → Result Error (Response V) → Run V TaskResult
    unfolding on_submit_value error_text int_text Run.handled
    on_response target (err e) = Run.handled e (
        Run.lift (
          finished TaskResultStatus.failed "" (error_text e)
            (some (format ("sidecar " ∷ target ∷ ": " ∷ error_text e ∷ [])))))
    on_response target (ok resp) = elim resp.error [
      | some e ↦ Run.lift (finished TaskResultStatus.failed "" (coded e) (some e.message))
      | none ↦
          let value : V = elim resp.result [ none ↦ env.null | some v ↦ v ] in
          on_submit_value value (env.read_submit value)
    ]

  unfoldable pub execute :
      Uuid
      → (target method : String) → V
      → List (CredentialRef V)
      → ResolvedCredentials
      → (timeout_ms : ℕ) → (socket_dir : FilePath) → Run V TaskResult
  unfolding with_credentials call_raw on_response join
  execute task_id target method payload refs resolved timeout_ms socket_dir = do
    start ← now env
    let path = join socket_dir (format (target ∷ ".sock" ∷ []))
    response ← call_raw env path method (some (with_credentials payload resolved refs))
    on_response task_id path timeout_ms start target response
