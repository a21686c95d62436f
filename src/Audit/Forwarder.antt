-- ===== src/Audit/Forwarder.antt =====
-- crates/vasal-core/src/audit.rs, run_forwarder: the loop around flush_once. What the watch channel
-- holds is a parameter.
use vasal.Prelude.{ℕ, zero, suc, ◌*◌, ◌≤◌, String, some, none, if◌then◌else◌, arith}
use vasal.Prelude.Results.{Result, ok, err}
use vasal.Host.{Env, Trace}
use vasal.Host.Events.{slept}
use vasal.Host.Act.{Act, happen}
use vasal.Host.Run.{Run}
use vasal.Host.Attempt.{Error}
use vasal.Host.System.{System}
use vasal.Audit.{next_backoff, max_backoff_sec, flush_once}

-- A wait that is between a second and the longest.
abbrev IsBackoff : ℕ → Type 0
IsBackoff backoff = (1 ≤ backoff) × (backoff ≤ max_backoff_sec)

-- The waits stay in their bounds.
next_backoff-IsBackoff :
    (r : Result Error ℕ) (backoff : ℕ) → IsBackoff backoff → IsBackoff (next_backoff r backoff)
unfolding next_backoff
next_backoff-IsBackoff (ok n) backoff h = (omega arith, omega arith)
next_backoff-IsBackoff (err e) backoff h = ground arith

-- `audit_flush_interval_sec` and `audit_batch_size`
pub record Flushing : Type 0 where
  pub flush_interval_sec : ℕ
  pub batch_size : ℕ

module _ {V : Type 0} (env : Env V) (sys : System V) (flushing : Trace V → Flushing)
    (endpoint : String) where
  -- The wait after a failed flush, in seconds, which a shutdown does not end.
  unfoldable pause : Result Error ℕ → (backoff : ℕ) → Act V (Unit {0})
  pause (ok _) backoff w = (tt, w)
  pause (err _) backoff w = (tt, happen (slept (backoff * 1000)) w)

  -- A sleep of the flush interval, and a flush; where the shutdown ended the sleep, it was the last.
  unfoldable run_from : (fuel backoff : ℕ) → Run V (Unit {0})
  unfolding pause
  run_from zero backoff w = (none, w)
  run_from (suc fuel) backoff w =
      let now = flushing w.trace in
      let ms = now.flush_interval_sec * 1000 in
      let flushed = flush_once env endpoint now.batch_size (happen (slept ms) w) in
      let next =
        run_from fuel (next_backoff flushed.0 backoff) (pause flushed.0 backoff flushed.1).1 in
      if sys.shut_down_in_sleep w.trace ms then (some tt, flushed.1) else next

  unfoldable pub run_forwarder : (fuel : ℕ) → Run V (Unit {0})
  unfolding run_from
  run_forwarder fuel = run_from fuel 1
