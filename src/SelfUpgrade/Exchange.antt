-- ===== src/SelfUpgrade/Exchange.antt =====
-- The exchange of the binary, once its path is known: the files it keeps, and what it leaves.
use vasal.Prelude.{ℕ, String, ◌≡◌, ◌≢◌, sym, ◌∙◌, FilePath, join}
use vasal.Prelude.Results.{Result, ok, err}
use vasal.Codec.{Bytes}
use vasal.Host.{Env}
use vasal.Host.Act.{World, observe}
use vasal.Host.Attempt
use vasal.Host.Attempt.{Error, Attempt, of_result, ◌>>=◌, ◌>>◌}
use vasal.Host.Files.{Node}
use vasal.Host.System.{System, copy, write, set_permissions, rename}
use vasal.Host.Hoare.{
  file_at, KeepsOnError, Ensures, Holds, HasContent, ok≢err, KeepsOnError-bind, Ensures-bind,
  of_result-Keeps, observe-Keeps, Keeps-Ensures, frame,
}
use vasal.Host.Hoare.Steps.{
  write-Keeps, copy-Keeps, set_permissions-Keeps, rename-Keeps, rename-KeepsOnError,
}
use vasal.Host.Hoare.Success.{write-Ensures, copy-Ensures, set_permissions-Ensures, rename-Ensures}
use vasal.SelfUpgrade.{
  PendingUpgrade, StateFormat, state_file, new_file, state_of, json_result, replace_exe,
}

-- The four files of an upgrade are different ones.
pub record Apart (exe backup state new : FilePath) : Type 0 where
  pub exe-backup : exe ≢ backup
  pub exe-state : exe ≢ state
  pub exe-new : exe ≢ new
  pub backup-state : backup ≢ state
  pub backup-new : backup ≢ new
  pub state-new : state ≢ new

-- What a success leaves, from an agent that was `old`.
pub record Replaced {V : Type 0} (sys : System V) (states : StateFormat)
    (exe backup state_path : FilePath) (state : ℕ → PendingUpgrade) (bytes : Bytes) (old : Node)
    (w : World V) : Type 0 where
  pub started_at : ℕ
  pub state_text : String
  pub state_written : states.pretty (state started_at) ≡ ok state_text
  pub state_kept : HasContent state_path (sys.utf8 state_text) w
  pub backed_up : Holds backup old w
  pub replaced : Holds exe (record { content = bytes; mode = 493 }) w

json_result-ok : {A : Type 0} (r : Result String A) (a : A) → json_result r ≡ ok a → r ≡ ok a
json_result-ok (ok b) a h = cc
json_result-ok (err e) a h = absurd (ok≢err a _ (sym h))

module _ {V : Type 0} (env : Env V) (sys : System V) (states : StateFormat) where
  module _ (exe backup : FilePath) (target_version current_version : String) (data_dir : FilePath)
      (bytes : Bytes)
      (apart : Apart exe backup (join data_dir state_file) (join data_dir new_file)) where
    abbrev state : ℕ → PendingUpgrade
    state at = state_of target_version current_version backup at

    abbrev state_path : FilePath
    state_path = join data_dir state_file

    abbrev new_path : FilePath
    new_path = join data_dir new_file

    pub replace_exe-KeepsOnError :
        KeepsOnError
          (file_at exe)
          (replace_exe env sys states exe backup target_version current_version data_dir bytes)
    unfolding replace_exe
    replace_exe-KeepsOnError =
        KeepsOnError-bind (copy sys exe backup) (copy-Keeps sys exe backup exe apart.exe-backup)
          (λ _.
            KeepsOnError-bind (Attempt.lift (observe env.wall_ms))
              (observe-Keeps (λ w. env.wall_ms w.trace))
              (λ at.
                KeepsOnError-bind (of_result (json_result (states.pretty (state at))))
                  (of_result-Keeps (json_result (states.pretty (state at))))
                  (λ text.
                    KeepsOnError-bind (write sys state_path (sys.utf8 text))
                      (write-Keeps sys _ exe _ apart.exe-state)
                      (λ _.
                        KeepsOnError-bind (write sys new_path bytes)
                          (write-Keeps sys _ exe _ apart.exe-new)
                          (λ _.
                            KeepsOnError-bind (set_permissions sys new_path 493)
                              (set_permissions-Keeps sys _ exe _ apart.exe-new)
                              (λ _. rename-KeepsOnError sys new_path exe exe))))))

    -- What is kept from the state file on: the backup and the state file.
    abbrev Kept : Node → String → (World V → Type 0) → World V → Type 0
    Kept old text P w = Holds backup old w × HasContent state_path (sys.utf8 text) w × P w

    swap-Ensures :
        (old : Node) (at : ℕ) (text : String)
        → states.pretty (state at) ≡ ok text
        → Ensures
            (Kept old text (λ _. Unit))
            (do write sys new_path bytes; set_permissions sys new_path 493; rename sys new_path exe)
            (λ _. Replaced sys states exe backup state_path state bytes old)
    swap-Ensures old at text e =
        Ensures-bind (λ _. Kept old text (HasContent new_path bytes)) (write sys new_path bytes)
          (frame (write-Keeps sys new_path backup bytes apart.backup-new)
            (write-Keeps sys new_path state_path bytes apart.state-new)
            (write-Ensures sys (λ _. Unit) new_path bytes))
          (λ _.
            Ensures-bind
              (λ _. Kept old text (Holds new_path (record { content = bytes; mode = 493 })))
              (set_permissions sys new_path 493)
              (frame (set_permissions-Keeps sys new_path backup 493 apart.backup-new)
                (set_permissions-Keeps sys new_path state_path 493 apart.state-new)
                (set_permissions-Ensures sys new_path bytes 493))
              (λ _. record {
                ensured = λ w p a h. record {
                  started_at = at;
                  state_text = text;
                  state_written = e;
                  state_kept = record {
                    mode = p.1.mode;
                    content_held =
                        (rename-Keeps sys new_path exe state_path apart.state-new
                            (λ q. apart.exe-state (sym q))).kept
                          w
                        ∙ p.1.content_held;
                  };
                  backed_up =
                      (rename-Keeps sys new_path exe backup apart.backup-new
                          (λ q. apart.exe-backup (sym q))).kept
                        w
                      ∙ p.0;
                  replaced = (rename-Ensures sys new_path exe _).ensured w p.2 a h;
                };
              }))

    pub replace_exe-Ensures :
        (old : Node)
        → Ensures
            (Holds exe old)
            (replace_exe env sys states exe backup target_version current_version data_dir bytes)
            (λ _. Replaced sys states exe backup state_path state bytes old)
    unfolding replace_exe
    replace_exe-Ensures old =
        Ensures-bind (λ _. Holds backup old) (copy sys exe backup) (copy-Ensures sys exe backup old)
          (λ _.
            Ensures-bind (λ _. Holds backup old) (Attempt.lift (observe env.wall_ms))
              (Keeps-Ensures (observe-Keeps (λ w. env.wall_ms w.trace)))
              (λ at.
                Ensures-bind (λ text w. Holds backup old w × (states.pretty (state at) ≡ ok text))
                  (of_result (json_result (states.pretty (state at))))
                  (record { ensured = λ w p a h. (p, json_result-ok _ a h) })
                  (λ text. record {
                    ensured = λ w p a h.
                        (Ensures-bind (λ _. Kept old text (λ _. Unit))
                            (write sys state_path (sys.utf8 text))
                            (record {
                              ensured = λ v q b g. (
                                (write-Keeps sys state_path backup _ apart.backup-state).kept v ∙ q,
                                (write-Ensures sys (Holds backup old) state_path
                                      (sys.utf8 text)).ensured
                                    v q b g,
                                tt,
                              );
                            })
                            (λ _. swap-Ensures old at text p.1)).ensured
                          w p.0 a h;
                  })))
