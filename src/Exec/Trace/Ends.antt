-- ===== src/Exec/Trace/Ends.antt =====
-- crates/vasal-core/src/task/sidecar.rs: polling ends. Each round after the first sleeps 100 ms or
-- more, so the clock reaches the timeout before the fuel is used up.
use vasal.Prelude.{
  ℕ, zero, suc, ◌+◌, ◌-◌, ◌*◌, ◌/◌, ◌≤◌, String, Option, none, some, Bool, true, false, leb, ◌≡◌,
  refl, inl, inr, Bool-cases, Option-cases, le→leb, arith, FilePath,
}
use vasal.Prelude.Results.{Result, ok, err}
use vasal.Protocol.JsonRpc.{Response}
use vasal.Protocol.Sidecar.{SubmitResponse}
use vasal.Protocol.Task.{Uuid, TaskResult}
use vasal.Host.{Env}
use vasal.Host.Run
use vasal.Host.Run.{Run}
use vasal.Host.Act.{World}
use vasal.Host.Attempt.{Error, is_unanswered}
use vasal.Exec.Sidecar.{
  delay_of, poll_fuel, ignored, send_cancel, on_status, poll_status, wait_delay, after_delay,
  time_out, poll_once, poll_until_complete, on_submit, on_submit_value, on_response,
}
use vasal.Exec.Trace.{Clock, instant-Quiet}
use vasal.Exec.Trace.Answers.{Answers, IsAnswered, call_raw-IsAnswered}
use vasal.Exec.Trace.Polling.{after_delay-IsQuiet}

abbrev pub Returns : {A : Type 0} → Option A → Type 0
Returns none = ⊥
Returns (some a) = Unit

-- What a round of the polling gives: an end, or that `P` holds and the polling goes on.
abbrev pub Polled : {A : Type 0} → Type 0 → Option (Option A) → Type 0
Polled P none = ⊥
Polled P (some none) = P
Polled P (some (some r)) = Unit

Polled-of : {A : Type 0} (P : Type 0) (o : Option (Option A)) → Returns o → P → Polled P o
Polled-of P none r p = absurd r
Polled-of P (some none) r p = p
Polled-of P (some (some a)) r p = tt

pub handled-Returns :
    {V A : Type 0} (e : Error) (m : Run V A) (w : World V)
    → is_unanswered e ≡ false
    → Returns (m w).0
    → Returns (Run.handled e m w).0
unfolding Run.handled
handled-Returns e m w h r = rw h r

module _ {V : Type 0} where
  -- An action that returns, and one that follows it.
  then-Polled :
      {A B : Type 0} (P : Type 0) (m : Option A × World V) (f : A → Run V (Option B))
      → Returns m.0
      → ((a : A) (w : World V) → Polled P (f a w).0)
      → Polled P (Run.continue m.0 f m.1).0
  then-Polled P (none, w) f h k = absurd h
  then-Polled P (some a, w) f h k = k a w

module _ {V : Type 0} (env : Env V) (host : Answers env) (id : Uuid) (path : FilePath)
    (timeout_ms start : ℕ) where
  ignored-Returns :
      (r : Result Error (Response V)) (w : World V)
      → IsAnswered r
      → Returns (ignored env id path timeout_ms start r w).0
  unfolding ignored
  ignored-Returns (ok a) w h = tt
  ignored-Returns (err e) w h = handled-Returns e _ w h tt

  send_cancel-Returns :
      (sidecar_id : String) (w : World V)
      → Returns (send_cancel env id path timeout_ms start sidecar_id w).0
  unfolding send_cancel
  send_cancel-Returns sidecar_id w = ignored-Returns _ _ (call_raw-IsAnswered env host path _ _ w)

  on_status-Returns :
      (r : Result Error (Response V)) (w : World V)
      → IsAnswered r
      → Returns (on_status env id path timeout_ms start r w).0
  unfolding on_status
  on_status-Returns (ok a) w h = tt
  on_status-Returns (err e) w h = handled-Returns e _ w h tt

  -- A cancellation or a timeout: the sidecar is told, and the polling ends.
  after_cancel-Polled :
      (P : Type 0) (sidecar_id : String) (w : World V)
      → Polled P (after_delay env id path timeout_ms start sidecar_id true w).0
  unfolding after_delay
  after_cancel-Polled P sidecar_id w =
      then-Polled P (send_cancel env id path timeout_ms start sidecar_id w) _
        (send_cancel-Returns sidecar_id w) (λ _ w'. tt)

  time_out-Polled :
      (P : Type 0) (sidecar_id : String) (w : World V)
      → Polled P (time_out env id path timeout_ms start sidecar_id w).0
  unfolding time_out
  time_out-Polled P sidecar_id w =
      then-Polled P (send_cancel env id path timeout_ms start sidecar_id w) _
        (send_cancel-Returns sidecar_id w) (λ _ w'. tt)

  status-Returns :
      (sidecar_id : String) (w : World V)
      → Returns (after_delay env id path timeout_ms start sidecar_id false w).0
  unfolding after_delay poll_status
  status-Returns sidecar_id w = on_status-Returns _ _ (call_raw-IsAnswered env host path _ _ w)

module _ {V : Type 0} (env : Env V) (clock : Clock env) (host : Answers env) (id : Uuid)
    (path : FilePath) (timeout_ms start : ℕ) where
  -- A round ends the polling, or takes so many milliseconds at least.
  Takes : ℕ → World V → Option (Option TaskResult) × World V → Type 0
  Takes ms w m = Polled (env.instant w.trace + ms * 1_000_000 ≤ env.instant m.1.trace) m.0

  wait_delay-Takes :
      (ms : ℕ) (w : World V)
      → (wait_delay env id path timeout_ms start ms w).0 ≡ false
      → env.instant w.trace + ms * 1_000_000
        ≤ env.instant (wait_delay env id path timeout_ms start ms w).1.trace
  unfolding wait_delay
  wait_delay-Takes ms w h = ground (arith, clock.sleeps ms w.trace)

  after_delay-Takes :
      (ms : ℕ) (w w' : World V) (sidecar_id : String) (cancelled : Bool)
      → (cancelled ≡ false → env.instant w.trace + ms * 1_000_000 ≤ env.instant w'.trace)
      → Takes ms w (after_delay env id path timeout_ms start sidecar_id cancelled w')
  unfolding Takes
  after_delay-Takes ms w w' sidecar_id true h =
      after_cancel-Polled env host id path timeout_ms start _ sidecar_id w'
  after_delay-Takes ms w w' sidecar_id false h =
      Polled-of _ _ (status-Returns env host id path timeout_ms start sidecar_id w') (
        omega (
          arith,
          h refl,
          instant-Quiet env clock
              ((after_delay-IsQuiet env id path timeout_ms start sidecar_id false).quiet w'),
        ))

  poll_once-Takes :
      (sidecar_id : String) (poll_index : ℕ) (w : World V)
      → Takes
          (delay_of poll_index)
          w
          (poll_once env id path timeout_ms start sidecar_id poll_index w)
  unfolding poll_once Takes
  poll_once-Takes sidecar_id poll_index w =
      elim (Bool-cases (leb (timeout_ms * 1_000_000) (env.instant w.trace - start))) [
        | inl p ↦ rw p (time_out-Polled env host id path timeout_ms start _ sidecar_id w)
        | inr p ↦ rw p (
            after_delay-Takes (delay_of poll_index) w _ sidecar_id _
              (wait_delay-Takes (delay_of poll_index) w))
      ]

  poll_once_late :
      (sidecar_id : String) (poll_index : ℕ) (w : World V)
      → timeout_ms * 1_000_000 ≤ env.instant w.trace - start
      → Polled ⊥ (poll_once env id path timeout_ms start sidecar_id poll_index w).0
  unfolding poll_once
  poll_once_late sidecar_id poll_index w h =
      rw (le→leb (timeout_ms * 1_000_000) (env.instant w.trace - start) h)
        (time_out-Polled env host id path timeout_ms start ⊥ sidecar_id w)

  delay_of_later : (i : ℕ) → 1 ≤ i → 100 ≤ delay_of i
  unfolding delay_of
  delay_of_later zero h = absurd (omega arith)
  delay_of_later (suc zero) h = omega arith
  delay_of_later (suc (suc zero)) h = omega arith
  delay_of_later (suc (suc (suc zero))) h = omega arith
  delay_of_later (suc (suc (suc (suc zero)))) h = omega arith
  delay_of_later (suc (suc (suc (suc (suc i))))) h = omega arith

  round-Returns :
      (P : World V → Type 0) (m : Option (Option TaskResult) × World V) (next : Run V TaskResult)
      → Polled (P m.1) m.0
      → (P m.1 → Returns (next m.1).0)
      → Returns
          (elim m.0 as (λ _. Option TaskResult × World V) [
            | some (some result) ↦ (some result, m.1)
            | some none ↦ next m.1
            | none ↦ (none, m.1)
          ]).0
  round-Returns P (some (some r), w) next h k = tt
  round-Returns P (some none, w) next h k = k h
  round-Returns P (none, w) next h k = absurd h

  later-Returns :
      (fuel : ℕ) (sidecar_id : String) (i : ℕ) (w : World V)
      → 1 ≤ i
      → start ≤ env.instant w.trace
      → timeout_ms * 1_000_000 ≤ env.instant w.trace - start + fuel * 100_000_000
      → Returns (poll_until_complete env id path timeout_ms start (suc fuel) sidecar_id i w).0
  unfolding poll_until_complete Takes
  later-Returns zero sidecar_id i w one s h =
      round-Returns (λ _. ⊥) (poll_once env id path timeout_ms start sidecar_id i w)
        (poll_until_complete env id path timeout_ms start zero sidecar_id (i + 1))
        (poll_once_late sidecar_id i w (omega arith)) (λ p. absurd p)
  later-Returns (suc fuel) sidecar_id i w one s h =
      round-Returns (λ w'. env.instant w.trace + delay_of i * 1_000_000 ≤ env.instant w'.trace)
        (poll_once env id path timeout_ms start sidecar_id i w)
        (poll_until_complete env id path timeout_ms start (suc fuel) sidecar_id (i + 1))
        (poll_once-Takes sidecar_id i w)
        (λ p.
          later-Returns fuel sidecar_id (i + 1) _ (omega arith) (omega arith)
            (omega (arith, delay_of_later i one)))

  -- Where the monotonic clock does not go back, an uninterrupted sleep takes its time and every call
  -- to a sidecar is answered, a poll that starts at or after the instant `start` returns a result
  -- within its fuel.
  pub poll-Returns :
      (sidecar_id : String) (w : World V)
      → start ≤ env.instant w.trace
      → Returns
          (poll_until_complete env id path timeout_ms start (poll_fuel timeout_ms) sidecar_id 0 w).0
  unfolding poll_until_complete Takes
  poll-Returns sidecar_id w s =
      let rounds : poll_fuel timeout_ms ≡ suc (suc (suc (timeout_ms / 100))) = omega arith in
      rw rounds (
        round-Returns (λ w'. env.instant w.trace + delay_of 0 * 1_000_000 ≤ env.instant w'.trace)
          (poll_once env id path timeout_ms start sidecar_id 0 w)
          (poll_until_complete env id path timeout_ms start (suc (suc (timeout_ms / 100)))
            sidecar_id 1)
          (poll_once-Takes sidecar_id 0 w)
          (λ p.
            later-Returns (suc (timeout_ms / 100)) sidecar_id 1 _ (omega arith) (omega arith)
              (omega arith)))

  on_submit-Returns :
      (submit : SubmitResponse) (w : World V)
      → start ≤ env.instant w.trace
      → Returns (on_submit env id path timeout_ms start submit w).0
  unfolding on_submit
  on_submit-Returns (SubmitResponse.completed stdout stderr _) w s = tt
  on_submit-Returns (SubmitResponse.failed error stderr) w s = tt
  on_submit-Returns (SubmitResponse.accepted sidecar_id) w s = poll-Returns sidecar_id w s

  on_submit_value-Returns :
      (value : V) (read : Result String SubmitResponse) (w : World V)
      → start ≤ env.instant w.trace
      → Returns (on_submit_value env id path timeout_ms start value read w).0
  unfolding on_submit_value
  on_submit_value-Returns value (err e) w s = tt
  on_submit_value-Returns value (ok submit) w s = on_submit-Returns submit w s

  -- What follows a submission that came back.
  pub on_response-Returns :
      (target : String) (resp : Result Error (Response V)) (w : World V)
      → start ≤ env.instant w.trace
      → IsAnswered resp
      → Returns (on_response env id path timeout_ms start target resp w).0
  unfolding on_response
  on_response-Returns target (err e) w s h = handled-Returns e _ w h tt
  on_response-Returns target (ok resp) w s h = elim (Option-cases resp.error) [
    | inl p ↦ rw p (on_submit_value-Returns _ (env.read_submit _) w s)
    | inr (e, p) ↦ rw p tt
  ]
