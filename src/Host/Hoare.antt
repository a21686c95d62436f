-- ===== src/Host/Hoare.antt =====
-- What an action that may fail does to the files, step by step: the file that it keeps, and what
-- holds after it when it succeeds.
pub mod Steps
pub mod Success
use vasal.Prelude.{ℕ, ◌≡◌, refl, sym, ap, subst, ◌∙◌, FilePath, Option, none, some}
use vasal.Prelude.Results.{Result, ok, err}
use vasal.Codec.{Bytes}
use vasal.Host.Act
use vasal.Host.Act.{World, Act}
use vasal.Host.Attempt
use vasal.Host.Files.{Node}
use vasal.Store.Sql.{Tables}
use vasal.Host.Attempt.{Error, Attempt}

-- What `view` sees of the world stays as it is, whatever comes out.
pub record Keeps {V X A : Type 0} (view : World V → X) (m : Attempt V A) : Type 0 where
  pub kept : (w : World V) → view (m w).1 ≡ view w

-- It stays as it is when an error comes out.
pub record KeepsOnError {V X A : Type 0} (view : World V → X) (m : Attempt V A) : Type 0 where
  pub kept_on_error : (w : World V) (e : Error) → (m w).0 ≡ err e → view (m w).1 ≡ view w

-- The file at a path.
abbrev pub file_at : {V : Type 0} → FilePath → World V → Option Node
file_at p w = w.files p

-- The state database.
abbrev pub tables : {V : Type 0} → World V → Tables
tables w = w.store

-- From `P`, a success leaves `Q`.
pub record Ensures {V A : Type 0} (P : World V → Type 0) (m : Attempt V A)
    (Q : A → World V → Type 0) : Type 0 where
  pub ensured : (w : World V) → P w → (a : A) → (m w).0 ≡ ok a → Q a (m w).1

-- The file at `p` has this content, whatever its mode.
pub record HasContent {V : Type 0} (p : FilePath) (bytes : Bytes) (w : World V) : Type 0 where
  pub mode : ℕ
  pub content_held : w.files p ≡ some (record { content = bytes; mode = mode })

pub ok≢err : {A : Type 0} (a : A) (e : Error) → ok a ≡ err e → ⊥
ok≢err a e h = cc

pub ok-inj : {A : Type 0} {a b : A} (r : Result Error A) → r ≡ ok a → r ≡ ok b → a ≡ b
ok-inj r h h' = cc

module _ {V : Type 0} where
  continue-kept :
      {X A B : Type 0} (view : World V → X) (m : Result Error A × World V) (f : A → Attempt V B)
      → ((a : A) → Keeps view (f a))
      → view (Attempt.continue m.0 f m.1).1 ≡ view m.1
  continue-kept view (ok a, w) f k = (k a).kept w
  continue-kept view (err e, w) f k = refl

  pub Keeps-bind :
      {X A B : Type 0} {view : World V → X} {f : A → Attempt V B} (m : Attempt V A)
      → Keeps view m
      → ((a : A) → Keeps view (f a))
      → Keeps view (Attempt.◌>>=◌ m f)
  Keeps-bind {view} {f} m q k = record { kept = λ w. continue-kept view (m w) f k ∙ q.kept w }

  continue-kept_on_error :
      {X A B : Type 0} (view : World V → X) (m : Result Error A × World V) (f : A → Attempt V B)
      (e : Error)
      → ((a : A) → KeepsOnError view (f a))
      → (Attempt.continue m.0 f m.1).0 ≡ err e
      → view (Attempt.continue m.0 f m.1).1 ≡ view m.1
  continue-kept_on_error view (ok a, w) f e k h = (k a).kept_on_error w e h
  continue-kept_on_error view (err _, w) f e k h = refl

  -- A step that keeps the file, before steps that keep it when they fail.
  pub KeepsOnError-bind :
      {X A B : Type 0} {view : World V → X} {f : A → Attempt V B} (m : Attempt V A)
      → Keeps view m
      → ((a : A) → KeepsOnError view (f a))
      → KeepsOnError view (Attempt.◌>>=◌ m f)
  KeepsOnError-bind {view} {f} m q k = record {
    kept_on_error = λ w e h. continue-kept_on_error view (m w) f e k h ∙ q.kept w;
  }

  continue-ensured :
      {A B : Type 0} (m : Result Error A × World V) (f : A → Attempt V B) (Q : A → World V → Type 0)
      (R : B → World V → Type 0)
      → ((a : A) → m.0 ≡ ok a → Q a m.1)
      → ((a : A) → Ensures (Q a) (f a) R)
      → (b : B) → (Attempt.continue m.0 f m.1).0 ≡ ok b
      → R b (Attempt.continue m.0 f m.1).1
  continue-ensured (ok a, w) f Q R q k b h = (k a).ensured w (q a refl) b h
  continue-ensured (err e, w) f Q R q k b h = absurd (ok≢err b e (sym h))

  pub Ensures-bind :
      {A B : Type 0} {P : World V → Type 0} {R : B → World V → Type 0} {f : A → Attempt V B}
      (Q : A → World V → Type 0) (m : Attempt V A)
      → Ensures P m Q
      → ((a : A) → Ensures (Q a) (f a) R)
      → Ensures P (Attempt.◌>>=◌ m f) R
  Ensures-bind {R} {f} Q m q k = record {
    ensured = λ w p b h. continue-ensured (m w) f Q R (q.ensured w p) k b h;
  }

  pub of_result-Keeps :
      {X A : Type 0} {view : World V → X} (r : Result Error A)
      → Keeps view (λ (w : World V). (r, w))
  of_result-Keeps r = record { kept = λ w. refl }

  pub observe-Keeps :
      {X A : Type 0} {view : World V → X} (f : World V → A)
      → Keeps view (Attempt.lift (λ (w : World V). (f w, w)))
  observe-Keeps f = record { kept = λ w. refl }

  -- The file at `p` is `node`.
  abbrev pub Holds : FilePath → Node → World V → Type 0
  Holds p node w = w.files p ≡ some node

  pub Keeps-Ensures :
      {A : Type 0} {p : FilePath} {node : Node} {m : Attempt V A}
      → Keeps (file_at p) m
      → Ensures (Holds p node) m (λ _. Holds p node)
  Keeps-Ensures q = record { ensured = λ w p a h. q.kept w ∙ p }

  pub Keeps-HasContent :
      {A : Type 0} {p : FilePath} {bytes : Bytes} {m : Attempt V A}
      → Keeps (file_at p) m
      → Ensures (HasContent p bytes) m (λ _. HasContent p bytes)
  Keeps-HasContent q = record {
    ensured = λ w p a h. record { mode = p.mode; content_held = q.kept w ∙ p.content_held };
  }

  pub Ensures-both :
      {A : Type 0} {P P' : World V → Type 0} {m : Attempt V A} {Q Q' : A → World V → Type 0}
      → Ensures P m Q
      → Ensures P' m Q'
      → Ensures (λ w. P w × P' w) m (λ a w. Q a w × Q' a w)
  Ensures-both q q' = record { ensured = λ w p a h. (q.ensured w p.0 a h, q'.ensured w p.1 a h) }

  -- Beside what a step does, two files that it keeps.
  pub frame :
      {A : Type 0} {P : World V → Type 0} {m : Attempt V A} {Q : A → World V → Type 0}
      {p p' : FilePath} {node : Node} {bytes : Bytes}
      → Keeps (file_at p) m
      → Keeps (file_at p') m
      → Ensures P m Q
      → Ensures
          (λ w. Holds p node w × HasContent p' bytes w × P w)
          m
          (λ a w. Holds p node w × HasContent p' bytes w × Q a w)
  frame k k' q = record {
    ensured = λ w h a e. (
      k.kept w ∙ h.0,
      record { mode = h.1.mode; content_held = k'.kept w ∙ h.1.content_held },
      q.ensured w h.2 a e,
    );
  }

  -- A computed result that is known.
  pub bind-ok :
      {A B : Type 0} (f : A → Attempt V B) {r : Result Error A} {a : A}
      → r ≡ ok a
      → Attempt.◌>>=◌ (λ (w : World V). (r, w)) f ≡ f a
  bind-ok f h = ap (λ r w. Attempt.continue r f w) h

  pub succeed-Ensures :
      {A : Type 0} {P : World V → Type 0} (Q : A → Type 0) (a : A)
      → Q a
      → Ensures P (Attempt.succeed a) (λ b _. Q b)
  succeed-Ensures Q a q = record { ensured = λ w p b h. subst Q (ok-inj (ok a) refl h) q }

  -- A step of which nothing is asked.
  pub any-Ensures :
      {A : Type 0} {P : World V → Type 0} (m : Attempt V A) → Ensures P m (λ _ _. Unit {0})
  any-Ensures m = record { ensured = λ w p a h. tt }
