-- ===== src/Units/Health/Laws.antt =====
-- The probe of a sidecar ends, and its answer is that of its last look.
use vasal.Prelude.{
  ℕ, zero, suc, ◌+◌, ◌*◌, ◌≤◌, String, Option, none, some, ◌∷◌, Bool, leb, ◌≡◌, inl, inr,
  Bool-cases, le→leb, arith, FilePath,
}
use vasal.Host.{Env, Trace}
use vasal.Host.Act.{World}
use vasal.Host.Events.{rested}
use vasal.Host.System.{System}
use vasal.Prelude.Results.{Result, ok, err}
use vasal.Protocol.JsonRpc.{Response}
use vasal.Host.Run
use vasal.Host.Run.{Run}
use vasal.Host.Attempt.{Error}
use vasal.Exec.Call.{call_raw}
use vasal.Exec.Trace.{Clock, instant-Quiet, IsQuiet, run-bind, handled-IsQuiet, silent}
use vasal.Exec.Trace.Answers.{Answers, IsAnswered, call_raw-IsAnswered}
use vasal.Exec.Trace.Parts.{call_raw-IsQuiet}
use vasal.Exec.Trace.Ends.{Returns, Polled, handled-Returns}
use vasal.Units.Health.{
  Health, answered, looked, check_sidecar, passes, probe_once, probe_from, probe_sidecar,
  probe_fuel,
}

-- A sleep that nothing interrupts takes its time.
pub record Rests {V : Type 0} (env : Env V) : Type 0 where
  pub rests : (ms : ℕ) (t : Trace V) → env.instant t + ms * 1_000_000 ≤ env.instant (rested ms ∷ t)

module _ {V : Type 0} (env : Env V) (sys : System V) (clock : Clock env) (rests : Rests env)
    (host : Answers env) (start : ℕ) (socket_dir : FilePath) (unit_name : String)
    (timeout_sec : ℕ) where
  answered-IsQuiet : (r : Result Error (Response V)) → IsQuiet (answered env sys r)
  unfolding answered
  answered-IsQuiet (ok resp) = silent _
  answered-IsQuiet (err e) = handled-IsQuiet e _ (silent _)

  answered-Returns :
      (r : Result Error (Response V)) (w : World V)
      → IsAnswered r
      → Returns (answered env sys r w).0
  unfolding answered
  answered-Returns (ok resp) w h = tt
  answered-Returns (err e) w h = handled-Returns e _ w h tt

  look_later :
      (w : World V)
      → env.instant w.trace ≤ env.instant (check_sidecar env sys socket_dir unit_name w).1.trace
  unfolding check_sidecar
  look_later w = instant-Quiet env clock (
      (run-bind (Run.lift (call_raw env _ "health" none))
          (record { quiet = (call_raw-IsQuiet env _ "health" none).quiet })
          λ r. answered-IsQuiet r).quiet
        w)

  look-Returns : (w : World V) → Returns (check_sidecar env sys socket_dir unit_name w).0
  unfolding check_sidecar
  look-Returns w = answered-Returns _ _ (call_raw-IsAnswered env host _ "health" none w)

  -- What a round does with what it saw: it ends the probe, or takes half a second.
  looked-Polled :
      (m : Option Health × World V) (now : ℕ)
      → Returns m.0
      → now ≤ env.instant m.1.trace
      → let after = Run.continue m.0 (looked env sys) m.1 in
        Polled (now + 500_000_000 ≤ env.instant after.1.trace) after.0
  unfolding looked
  looked-Polled (none, w) now r h = absurd r
  looked-Polled (some health, w) now r h = elim (Bool-cases (passes health)) [
    | inl q ↦ rw q tt
    | inr q ↦ rw q (omega (arith, rests.rests 500 w.trace))
  ]

  probe_once-Takes :
      (w : World V)
      → let m = probe_once env sys start socket_dir unit_name timeout_sec w in
        Polled (env.instant w.trace + 500_000_000 ≤ env.instant m.1.trace) m.0
  unfolding probe_once
  probe_once-Takes w =
      elim (Bool-cases (leb (start + timeout_sec * 1_000_000_000) (env.instant w.trace))) [
        | inl p ↦ rw p tt
        | inr p ↦ rw p (
            looked-Polled (check_sidecar env sys socket_dir unit_name w) (env.instant w.trace)
              (look-Returns w) (look_later w))
      ]

  probe_once-late :
      (w : World V)
      → start + timeout_sec * 1_000_000_000 ≤ env.instant w.trace
      → Polled ⊥ (probe_once env sys start socket_dir unit_name timeout_sec w).0
  unfolding probe_once
  probe_once-late w h = rw (le→leb _ _ h) tt

  step-Returns :
      (P : World V → Type 0) (m : Option (Option Bool) × World V) (next : Run V Bool)
      → Polled (P m.1) m.0
      → (P m.1 → Returns (next m.1).0)
      → Returns
          (elim m.0 as (λ _. Option Bool × World V) [
            | some (some passed) ↦ (some passed, m.1)
            | some none ↦ next m.1
            | none ↦ (none, m.1)
          ]).0
  step-Returns P (some (some r), w) next h k = tt
  step-Returns P (some none, w) next h k = k h
  step-Returns P (none, w) next h k = absurd h

  probe_from-Returns :
      (fuel : ℕ) (w : World V)
      → start + timeout_sec * 1_000_000_000 ≤ env.instant w.trace + fuel * 500_000_000
      → Returns (probe_from env sys (suc fuel) start socket_dir unit_name timeout_sec w).0
  unfolding probe_from
  probe_from-Returns zero w h =
      step-Returns (λ _. ⊥) (probe_once env sys start socket_dir unit_name timeout_sec w)
        (probe_from env sys zero start socket_dir unit_name timeout_sec)
        (probe_once-late w (omega arith)) (λ p. absurd p)
  probe_from-Returns (suc fuel) w h =
      step-Returns (λ w'. env.instant w.trace + 500_000_000 ≤ env.instant w'.trace)
        (probe_once env sys start socket_dir unit_name timeout_sec w)
        (probe_from env sys (suc fuel) start socket_dir unit_name timeout_sec) (probe_once-Takes w)
        (λ p. probe_from-Returns fuel _ (omega arith))

-- The probe returns within its fuel, where the monotonic clock does not go back, a sleep takes its
-- time and every call to a sidecar is answered.
pub probe_sidecar-Returns :
    {V : Type 0} (env : Env V) (sys : System V)
    → Clock env
    → Rests env
    → Answers env
    → (socket_dir : FilePath) (unit_name : String) (timeout_sec : ℕ) (w : World V)
    → Returns (probe_sidecar env sys socket_dir unit_name timeout_sec w).0
unfolding probe_sidecar
probe_sidecar-Returns env sys clock rests host socket_dir unit_name timeout_sec w =
    let rounds : probe_fuel timeout_sec ≡ suc (timeout_sec * 2) = omega arith in
    rw rounds (
      probe_from-Returns env sys clock rests host (env.instant w.trace) socket_dir unit_name
        timeout_sec (timeout_sec * 2) w (omega arith))
