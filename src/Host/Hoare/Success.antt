-- ===== src/Host/Hoare/Success.antt =====
-- The operations on files and downloads: what holds after each when it succeeds.
use vasal.Prelude.{
  ℕ, String, ◌≡◌, refl, sym, ◌∙◌, FilePath, Option, none, some, ap, Bool, true, false,
  if◌then◌else◌, str_eq, eq_iff,
}
use vasal.Prelude.Results.{Result, ok, err}
use vasal.Codec.{Bytes}
use vasal.Host.Act.{World}
use vasal.Host.Attempt.{Error, io, sha256_mismatch}
use vasal.Host.Files.{Node, put-here, drop_file, mode_or}
use vasal.Host.System.{
  System, gate, write, copy, copy_node, rename, rename_node, set_permissions, chmod_node,
  fetch_verified, fetch, verified,
}
use vasal.Host.Hoare.{Ensures, Holds, HasContent, ok≢err, Ensures-bind}

module _ {V : Type 0} (sys : System V) where
  -- A success was not refused.
  gate-ok :
      {A : Type 0} (r : Option String) (refused : World V) (done : Result Error A × World V) (a : A)
      (R : World V → Type 0)
      → (gate sys r refused done).0 ≡ ok a
      → (done.0 ≡ ok a → R done.1)
      → R (gate sys r refused done).1
  unfolding gate
  gate-ok (some e) refused done a R h k = absurd (ok≢err a (io e) (sym h))
  gate-ok none refused done a R h k = k h

  copy_node-ok :
      (to : FilePath) (node : Node) (o : Option Node) (w : World V) (a : Unit {0})
      → o ≡ some node
      → (copy_node sys to o w).0 ≡ ok a
      → (copy_node sys to o w).1.files to ≡ some node
  unfolding copy_node
  copy_node-ok to node none w a e h = absurd (ok≢err a (io sys.not_found) (sym h))
  copy_node-ok to node (some n) w a e h = put-here to n w.files ∙ e

  pub copy-Ensures :
      (from to : FilePath) (node : Node)
      → Ensures (Holds from node) (copy sys from to) (λ _. Holds to node)
  unfolding copy
  copy-Ensures from to node = record {
    ensured = λ w p a h.
        gate-ok (sys.refuse_io w.trace) _ _ a (Holds to node) h
          (copy_node-ok to node (w.files from) w a p);
  }

  rename_node-ok :
      (from to : FilePath) (node : Node) (o : Option Node) (w : World V) (a : Unit {0})
      → o ≡ some node
      → (rename_node sys from to o w).0 ≡ ok a
      → (rename_node sys from to o w).1.files to ≡ some node
  unfolding rename_node
  rename_node-ok from to node none w a e h = absurd (ok≢err a (io sys.not_found) (sym h))
  rename_node-ok from to node (some n) w a e h = put-here to n (drop_file from w.files) ∙ e

  pub rename-Ensures :
      (from to : FilePath) (node : Node)
      → Ensures (Holds from node) (rename sys from to) (λ _. Holds to node)
  unfolding rename
  rename-Ensures from to node = record {
    ensured = λ w p a h.
        gate-ok (sys.refuse_io w.trace) _ _ a (Holds to node) h
          (rename_node-ok from to node (w.files from) w a p);
  }

  pub write-Ensures :
      (P : World V → Type 0) (path : FilePath) (bytes : Bytes)
      → Ensures P (write sys path bytes) (λ _. HasContent path bytes)
  unfolding write
  write-Ensures P path bytes = record {
    ensured = λ w p a h. gate-ok (sys.refuse_io w.trace) _ _ a (HasContent path bytes) h (λ _.
        record {
          mode = mode_or sys.created_mode (w.files path);
          content_held = put-here path _ w.files;
        });
  }

  chmod_node-ok :
      (path : FilePath) (bytes : Bytes) (old mode : ℕ) (o : Option Node) (w : World V)
      (a : Unit {0})
      → o ≡ some (record { content = bytes; mode = old })
      → (chmod_node sys path mode o w).0 ≡ ok a
      → (chmod_node sys path mode o w).1.files path ≡ some (record { content = bytes; mode = mode })
  unfolding chmod_node
  chmod_node-ok path bytes old mode none w a e h = absurd (ok≢err a (io sys.not_found) (sym h))
  chmod_node-ok path bytes old mode (some n) w a e h =
      put-here path _ w.files
      ∙ ap
          (λ o. elim o as (λ _. Option Node) [
            | none ↦ none
            | some k ↦ some (record k { mode = mode })
          ])
          e

  pub set_permissions-Ensures :
      (path : FilePath) (bytes : Bytes) (mode : ℕ)
      → Ensures
          (HasContent path bytes)
          (set_permissions sys path mode)
          (λ _. Holds path (record { content = bytes; mode = mode }))
  unfolding set_permissions
  set_permissions-Ensures path bytes mode = record {
    ensured = λ w p a h.
        gate-ok (sys.refuse_io w.trace) _ _ a (Holds path (record { content = bytes; mode = mode }))
          h (chmod_node-ok path bytes p.mode mode (w.files path) w a p.content_held);
  }

  verified-ok :
      (expected : String) (bytes a : Bytes) (b : Bool)
      → str_eq (sys.sha256_hex bytes) expected ≡ b
      → (if b then ok bytes else err (sha256_mismatch expected (sys.sha256_hex bytes))) ≡ ok a
      → sys.sha256_hex a ≡ expected
  verified-ok expected bytes a true e h =
      ap
        (λ (r : Result Error Bytes). elim r as (λ _. String) [
          | ok x ↦ sys.sha256_hex x
          | err _ ↦ ""
        ])
        (sym h)
      ∙ (eq_iff (sys.sha256_hex bytes) expected).0 e
  verified-ok expected bytes a false e h = absurd (ok≢err a _ (sym h))

  -- Bytes that pass have the digest.
  pub fetch_verified-Ensures :
      (P : World V → Type 0) (refused : String → Error) (url expected : String)
      → Ensures P
          (fetch_verified sys refused url expected)
          (λ bytes _. sys.sha256_hex bytes ≡ expected)
  unfolding fetch_verified verified
  fetch_verified-Ensures P refused url expected =
      Ensures-bind (λ _ _. Unit) (fetch sys refused url) (record { ensured = λ w p a h. tt })
        (λ bytes. record {
          ensured = λ w p a h.
              verified-ok expected bytes a (str_eq (sys.sha256_hex bytes) expected) refl h;
        })
