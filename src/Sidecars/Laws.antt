-- ===== src/Sidecars/Laws.antt =====
-- The connections of sql-ctrl.
use vasal.Prelude.{ℕ, String, Option, none, some, List, [], ◌∷◌, ◌++◌, ◌≡◌, refl, ap, ◌∙◌, arith}
use vasal.Prelude.Results.{Result, ok, err}
use vasal.Host.Files.{str_eq_self}
use vasal.Sidecars.Sql.{Rusqlite, SqlCtrl, find_connection, opened, connect_with, get_connection}

find-append :
    (dsn : String) (conn : ℕ) (entries : List (String × ℕ))
    → find_connection dsn entries ≡ none
    → find_connection dsn (entries ++ (dsn, conn) ∷ []) ≡ some conn
unfolding find_connection
find-append dsn conn [] h = rw (str_eq_self dsn) refl
find-append dsn conn (entry ∷ entries) h = ground (arith, find-append dsn conn entries)

answer-inj : {E A : Type 0} {a b : A} (r : Result E A) → r ≡ ok a → r ≡ ok b → a ≡ b
answer-inj r h h' = cc

module _ {V D : Type 0} (lib : Rusqlite V D) (version : String) where
  -- A connection that was opened is found again.
  opened-found :
      (dsn : String) (s : SqlCtrl D) (answer : Result String ℕ × D) (conn : ℕ)
      → find_connection dsn s.connections ≡ none
      → (opened lib version dsn s answer).0 ≡ ok conn
      → find_connection dsn (opened lib version dsn s answer).1.connections ≡ some conn
  unfolding opened
  opened-found dsn s (err e, d) conn h g = absurd (cc)
  opened-found dsn s (ok c, d) conn h g =
      find-append dsn c s.connections h ∙ ap (λ x. some x) (answer-inj (ok c) refl g)

  connected-found :
      (dsn : String) (s : SqlCtrl D) (found : Option ℕ) (conn : ℕ)
      → find_connection dsn s.connections ≡ found
      → (connect_with lib version dsn found s).0 ≡ ok conn
      → find_connection dsn (connect_with lib version dsn found s).1.connections ≡ some conn
  unfolding connect_with
  connected-found dsn s none conn e h =
      opened-found dsn s (lib.open_database dsn s.databases) conn e h
  connected-found dsn s (some c) conn e h = e ∙ ap (λ x. some x) (answer-inj (ok c) refl h)

  -- A database is opened once: the connection that a call got is what the next call for the same
  -- name gets, and that call changes nothing.
  pub get_connection-again :
      (dsn : String) (s : SqlCtrl D) (conn : ℕ)
      → (get_connection lib version dsn s).0 ≡ ok conn
      → get_connection lib version dsn (get_connection lib version dsn s).1
        ≡ (ok conn, (get_connection lib version dsn s).1)
  unfolding get_connection connect_with
  get_connection-again dsn s conn h =
      rw (connected-found dsn s (find_connection dsn s.connections) conn refl h) refl
