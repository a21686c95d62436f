-- ===== src/Host/Hoare/Steps.antt =====
-- The operations on files: which file each keeps, and what a success leaves.
use vasal.Prelude.{ℕ, String, List, ◌≡◌, ◌≢◌, refl, ◌∙◌, FilePath, Option, none, some}
use vasal.Prelude.Results.{Result, err}
use vasal.Codec.{Bytes}
use vasal.Host.Events.{Event, downloaded}
use vasal.Host.Act.{World, happen}
use vasal.Host.Attempt.{Error}
use vasal.Host.Files.{Node, put-there, drop_file, drop_file-there}
use vasal.Host.System.{
  System, gate, write, torn_files, copy, copy_node, rename, rename_node, set_permissions,
  chmod_node, create_dir_all, status, spawn, fetch_verified, fetch, verified,
}
use vasal.Host.Hoare.{file_at, tables, Keeps, KeepsOnError, ok≢err, Keeps-bind, of_result-Keeps}

module _ {V : Type 0} (sys : System V) where
  gate-kept :
      {X A : Type 0} (view : World V → X) (r : Option String) (refused : World V)
      (done : Result Error A × World V) (w : World V)
      → view refused ≡ view w
      → view done.1 ≡ view w
      → view (gate sys r refused done).1 ≡ view w
  unfolding gate
  gate-kept view (some e) refused done w h h' = h
  gate-kept view none refused done w h h' = h'

  torn-there :
      (path p : FilePath) (w : World V) (bytes : Option Bytes)
      → p ≢ path
      → torn_files sys path w bytes p ≡ w.files p
  unfolding torn_files
  torn-there path p w none h = refl
  torn-there path p w (some b) h = put-there path p _ w.files h

  pub write-Keeps :
      (path p : FilePath) (bytes : Bytes) → p ≢ path → Keeps (file_at p) (write sys path bytes)
  unfolding write
  write-Keeps path p bytes h = record {
    kept = λ w.
        gate-kept (file_at p) (sys.refuse_io w.trace) _ _ w (torn-there path p w _ h)
          (put-there path p _ w.files h);
  }

  copy_node-kept :
      (to p : FilePath) (node : Option Node) (w : World V)
      → p ≢ to
      → (copy_node sys to node w).1.files p ≡ w.files p
  unfolding copy_node
  copy_node-kept to p none w h = refl
  copy_node-kept to p (some n) w h = put-there to p n w.files h

  pub copy-Keeps : (from to p : FilePath) → p ≢ to → Keeps (file_at p) (copy sys from to)
  unfolding copy
  copy-Keeps from to p h = record {
    kept = λ w.
        gate-kept (file_at p) (sys.refuse_io w.trace) _ _ w (torn-there to p w _ h)
          (copy_node-kept to p (w.files from) w h);
  }

  chmod_node-kept :
      (path p : FilePath) (mode : ℕ) (node : Option Node) (w : World V)
      → p ≢ path
      → (chmod_node sys path mode node w).1.files p ≡ w.files p
  unfolding chmod_node
  chmod_node-kept path p mode none w h = refl
  chmod_node-kept path p mode (some n) w h = put-there path p _ w.files h

  pub set_permissions-Keeps :
      (path p : FilePath) (mode : ℕ) → p ≢ path → Keeps (file_at p) (set_permissions sys path mode)
  unfolding set_permissions
  set_permissions-Keeps path p mode h = record {
    kept = λ w.
        gate-kept (file_at p) (sys.refuse_io w.trace) _ _ w refl
          (chmod_node-kept path p mode (w.files path) w h);
  }

  rename_node-kept :
      (from to p : FilePath) (node : Option Node) (w : World V)
      → p ≢ from
      → p ≢ to
      → (rename_node sys from to node w).1.files p ≡ w.files p
  unfolding rename_node
  rename_node-kept from to p none w h h' = refl
  rename_node-kept from to p (some n) w h h' =
      put-there to p n (drop_file from w.files) h' ∙ drop_file-there from p w.files h

  pub rename-Keeps :
      (from to p : FilePath) → p ≢ from → p ≢ to → Keeps (file_at p) (rename sys from to)
  unfolding rename
  rename-Keeps from to p h h' = record {
    kept = λ w.
        gate-kept (file_at p) (sys.refuse_io w.trace) _ _ w refl
          (rename_node-kept from to p (w.files from) w h h');
  }

  rename_node-err :
      (from to p : FilePath) (node : Option Node) (w : World V) (e : Error)
      → (rename_node sys from to node w).0 ≡ err e
      → (rename_node sys from to node w).1.files p ≡ w.files p
  unfolding rename_node
  rename_node-err from to p none w e h = refl
  rename_node-err from to p (some n) w e h = absurd (ok≢err tt e h)

  gate-err :
      {A : Type 0} (r : Option String) (refused : World V) (done : Result Error A × World V)
      (e : Error) (p : FilePath) (w : World V)
      → (gate sys r refused done).0 ≡ err e
      → refused.files p ≡ w.files p
      → (done.0 ≡ err e → done.1.files p ≡ w.files p)
      → (gate sys r refused done).1.files p ≡ w.files p
  unfolding gate
  gate-err (some _) refused done e p w h k k' = k
  gate-err none refused done e p w h k k' = k' h

  pub rename-KeepsOnError : (from to p : FilePath) → KeepsOnError (file_at p) (rename sys from to)
  unfolding rename
  rename-KeepsOnError from to p = record {
    kept_on_error = λ w e h.
        gate-err (sys.refuse_io w.trace) _ _ e p w h refl
          (λ h'. rename_node-err from to p (w.files from) w e h');
  }

  pub fetch_verified-Keeps :
      {X : Type 0} (refused : String → Error) (url expected : String) (view : World V → X)
      → ((e : Event V) (w : World V) → view (happen e w) ≡ view w)
      → Keeps view (fetch_verified sys refused url expected)
  unfolding fetch_verified fetch
  fetch_verified-Keeps refused url expected view h =
      Keeps-bind (fetch sys refused url) (record { kept = λ w. h (downloaded url) w })
        (λ bytes. of_result-Keeps (verified sys expected bytes))

  -- What is done to files leaves the state database alone.
  pub write-KeepsTables : (path : FilePath) (bytes : Bytes) → Keeps tables (write sys path bytes)
  unfolding write
  write-KeepsTables path bytes = record {
    kept = λ w. gate-kept tables (sys.refuse_io w.trace) _ _ w refl refl;
  }

  chmod_node-KeepsTables :
      (path : FilePath) (mode : ℕ) (node : Option Node) (w : World V)
      → (chmod_node sys path mode node w).1.store ≡ w.store
  unfolding chmod_node
  chmod_node-KeepsTables path mode none w = refl
  chmod_node-KeepsTables path mode (some n) w = refl

  pub set_permissions-KeepsTables :
      (path : FilePath) (mode : ℕ) → Keeps tables (set_permissions sys path mode)
  unfolding set_permissions
  set_permissions-KeepsTables path mode = record {
    kept = λ w.
        gate-kept tables (sys.refuse_io w.trace) _ _ w refl
          (chmod_node-KeepsTables path mode (w.files path) w);
  }

  pub create_dir_all-KeepsTables : (path : FilePath) → Keeps tables (create_dir_all sys path)
  unfolding create_dir_all
  create_dir_all-KeepsTables path = record {
    kept = λ w. gate-kept tables (sys.refuse_io w.trace) _ _ w refl refl;
  }

  pub status-KeepsTables :
      (program : String) (arguments : List String) → Keeps tables (status sys program arguments)
  unfolding status
  status-KeepsTables program arguments = record { kept = λ w. refl }

  pub spawn-KeepsTables :
      (program : String) (arguments : List String) → Keeps tables (spawn sys program arguments)
  unfolding spawn
  spawn-KeepsTables program arguments = record { kept = λ w. refl }
