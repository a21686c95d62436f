-- ===== src/Host/Act.antt =====
-- Actions: they read and extend the trace, and change the state database and the files.
use vasal.Prelude.{List, ◌∷◌}
use vasal.Host.Events.{Event}
use vasal.Host.Files.{Files}
use vasal.Store.Sql.{Tables}

pub record World (V : Type 0) : Type 0 where
  pub trace : List (Event V)
  pub store : Tables
  pub files : Files

abbrev pub Act : Type 0 → Type 0 → Type 0
Act V A = World V → A × World V

module _ {V : Type 0} where
  abbrev pub pure : {A : Type 0} → A → Act V A
  pure a w = (a, w)

  infixl 5 ◌>>=◌ ◌>>◌
  abbrev pub ◌>>=◌ : {A B : Type 0} → Act V A → (A → Act V B) → Act V B
  m >>= f = λ w. let (a, w') = m w in f a w'

  abbrev pub ◌>>◌ : {A B : Type 0} → Act V A → Act V B → Act V B
  m >> n = m >>= λ _. n

  abbrev pub happen : Event V → World V → World V
  happen e w = record w { trace = e ∷ w.trace }

  abbrev pub emit : Event V → Act V (Unit {0})
  emit e w = (tt, happen e w)

  abbrev pub observe : {A : Type 0} → (List (Event V) → A) → Act V A
  observe f w = (f w.trace, w)

  -- The answer of the outside to an event, and the event recorded.
  abbrev pub ask : {A : Type 0} → (List (Event V) → A) → Event V → Act V A
  ask f e w = (f w.trace, happen e w)
