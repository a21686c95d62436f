-- ===== src/Host/Run.antt =====
-- Actions that may go on for ever: none where the fuel given to their loops is used up, or where
-- they wait for what never comes.
use vasal.Prelude.{Option, none, some, if◌then◌else◌}
use vasal.Host.Act.{Act}
use vasal.Host.Attempt.{Error, is_unanswered}

abbrev pub Run : Type 0 → Type 0 → Type 0
Run V A = Act V (Option A)

module _ {V : Type 0} where
  abbrev pub return : {A : Type 0} → A → Run V A
  return a w = (some a, w)

  abbrev pub continue : {A B : Type 0} → Option A → (A → Run V B) → Run V B
  continue none f w = (none, w)
  continue (some a) f w = f a w

  infixl 5 ◌>>=◌ ◌>>◌
  abbrev pub ◌>>=◌ : {A B : Type 0} → Run V A → (A → Run V B) → Run V B
  m >>= f = λ w. let (r, w') = m w in continue r f w'

  abbrev pub ◌>>◌ : {A B : Type 0} → Run V A → Run V B → Run V B
  m >> n = m >>= λ _. n

  -- An action that returns.
  abbrev pub lift : {A : Type 0} → Act V A → Run V A
  lift m w = let (a, w') = m w in (some a, w')

  -- A wait that never ends.
  abbrev pub stuck : {A : Type 0} → Run V A
  stuck w = (none, w)

  -- What code does with an error: nothing after a call that never comes back.
  unfoldable pub handled : {A : Type 0} → Error → Run V A → Run V A
  handled e m = if is_unanswered e then stuck else m
