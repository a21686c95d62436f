-- ===== src/Exec/Trace.antt =====
-- What a part of an execution adds to the trace. Of the events, those that the chain executor logs
-- about its own steps are its notes; every part below it is quiet, it adds other events only.
pub mod Answers
pub mod Parts
pub mod Polling
pub mod Ends
pub mod Once
use vasal.Prelude.{
  ℕ, ◌+◌, ◌*◌, ◌≤◌, List, [], ◌∷◌, ◌++◌, Bool, false, ◌≡◌, refl, ap, ◌∙◌, Option, none, some, arith,
  if_ind,
}
use vasal.Prelude.Results.{Result, ok, err}
use vasal.Host.{Env, Trace}
use vasal.Host.Events.{Event, chain_step, chain_cancelled, rollback_step, rollback_skipped, slept}
use vasal.Host.Act
use vasal.Host.Act.{World, Act, happen}
use vasal.Host.Attempt
use vasal.Host.Attempt.{Attempt, Error, is_unanswered}
use vasal.Host.Run
use vasal.Host.Run.{Run}

abbrev pub note : {V : Type 0} → Event V → List (Event V)
note (chain_step id idx) = chain_step id idx ∷ []
note (chain_cancelled id idx) = chain_cancelled id idx ∷ []
note (rollback_step id idx) = rollback_step id idx ∷ []
note (rollback_skipped id idx) = rollback_skipped id idx ∷ []
note e = []

-- The notes of a trace, the latest first.
abbrev pub notes : {V : Type 0} → Trace V → List (Event V)
notes [] = []
notes (e ∷ t) = note e ++ notes t

-- The second trace adds quiet events to the first.
pub data Quiet {V : Type 0} (t : Trace V) : Trace V → Type 0 where
  same : Quiet t t
  after : {t' : Trace V} (e : Event V) → note e ≡ [] → Quiet t t' → Quiet t (e ∷ t')

module _ {V : Type 0} where
  pub Quiet-trans : {t t' t'' : Trace V} → Quiet t t' → Quiet t' t'' → Quiet t t''
  Quiet-trans q same = q
  Quiet-trans q (after e p r) = after e p (Quiet-trans q r)

  pub one : {t : Trace V} (e : Event V) → note e ≡ [] → Quiet t (e ∷ t)
  one e p = after e p same

  pub notes-Quiet : {t t' : Trace V} → Quiet t t' → notes t' ≡ notes t
  notes-Quiet same = refl
  notes-Quiet (after {t'} e p q) = ap (λ (l : List (Event V)). l ++ notes t') p ∙ notes-Quiet q

-- An action that adds quiet events only.
pub record IsQuiet {V A : Type 0} (m : Act V A) : Type 0 where
  pub quiet : (w : World V) → Quiet w.trace (m w).1.trace

module _ {V : Type 0} where
  -- What follows in an attempt, whether or not what came before it failed.
  continue-Quiet :
      {A B : Type 0} {t : Trace V} (m : Result Error A × World V) (f : A → Attempt V B)
      → Quiet t m.1.trace
      → ((a : A) → IsQuiet (f a))
      → Quiet t (Attempt.continue m.0 f m.1).1.trace
  continue-Quiet (ok a, w) f q k = Quiet-trans q ((k a).quiet w)
  continue-Quiet (err e, w) f q k = q

  run-Quiet :
      {A B : Type 0} {t : Trace V} (m : Option A × World V) (f : A → Run V B)
      → Quiet t m.1.trace
      → ((a : A) → IsQuiet (f a))
      → Quiet t (Run.continue m.0 f m.1).1.trace
  run-Quiet (some a, w) f q k = Quiet-trans q ((k a).quiet w)
  run-Quiet (none, w) f q k = q

  pub act-bind :
      {A B : Type 0} {f : A → Act V B} (m : Act V A)
      → IsQuiet m
      → ((a : A) → IsQuiet (f a))
      → IsQuiet (Act.◌>>=◌ m f)
  act-bind m q k = record { quiet = λ w. Quiet-trans (q.quiet w) ((k (m w).0).quiet (m w).1) }

  pub attempt-bind :
      {A B : Type 0} {f : A → Attempt V B} (m : Attempt V A)
      → IsQuiet m
      → ((a : A) → IsQuiet (f a))
      → IsQuiet (Attempt.◌>>=◌ m f)
  attempt-bind {f} m q k = record { quiet = λ w. continue-Quiet (m w) f (q.quiet w) k }

  pub run-bind :
      {A B : Type 0} {f : A → Run V B} (m : Run V A)
      → IsQuiet m
      → ((a : A) → IsQuiet (f a))
      → IsQuiet (Run.◌>>=◌ m f)
  run-bind {f} m q k = record { quiet = λ w. run-Quiet (m w) f (q.quiet w) k }

  pub handled-IsQuiet :
      {A : Type 0} (e : Error) (m : Run V A) → IsQuiet m → IsQuiet (Run.handled e m)
  unfolding Run.handled
  handled-IsQuiet e m q = if_ind IsQuiet (is_unanswered e) (record { quiet = λ w. same }) q

  -- An action that only answers.
  pub silent : {A : Type 0} (f : World V → A) → IsQuiet (λ (w : World V). (f w, w))
  silent f = record { quiet = λ w. same }

  -- An action that adds one quiet event.
  pub once :
      {A : Type 0} (f : World V → A) (e : World V → Event V)
      → ((w : World V) → note (e w) ≡ [])
      → IsQuiet (λ (w : World V). (f w, happen (e w) w))
  once f e p = record { quiet = λ w. one (e w) (p w) }

-- The monotonic clock: it does not go back, and a sleep that is not interrupted takes its time.
pub record Clock {V : Type 0} (env : Env V) : Type 0 where
  pub monotonic : (e : Event V) (t : Trace V) → env.instant t ≤ env.instant (e ∷ t)
  pub sleeps :
      (ms : ℕ) (t : Trace V)
      → env.cancelled_in_sleep t ms ≡ false
      → env.instant t + ms * 1_000_000 ≤ env.instant (slept ms ∷ t)

pub instant-Quiet :
    {V : Type 0} (env : Env V) (clock : Clock env) {t t' : Trace V}
    → Quiet t t'
    → env.instant t ≤ env.instant t'
instant-Quiet env clock same = omega arith
instant-Quiet env clock (after {t'} e p q) =
    omega (arith, instant-Quiet env clock q, clock.monotonic e t')
