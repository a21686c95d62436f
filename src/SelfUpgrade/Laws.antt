-- ===== src/SelfUpgrade/Laws.antt =====
-- The exchange of the agent's binary: what an error leaves, what a success leaves, and the way back.
use vasal.Prelude.{String, ◌≡◌, refl, sym, ◌∙◌, ap, subst, FilePath, Option, none, some, join}
use vasal.Prelude.Results.{ok, err}
use vasal.Codec.{Bytes}
use vasal.Host.{Env}
use vasal.Host.Act.{World}
use vasal.Host.Attempt.{Error, Attempt}
use vasal.Host.Files.{Node, is_there}
use vasal.Host.System.{System, fetch_verified}
use vasal.Host.Hoare.{
  file_at, KeepsOnError, Ensures, Holds, bind-ok, ok≢err, KeepsOnError-bind, Ensures-bind,
}
use vasal.Host.Hoare.Steps.{fetch_verified-Keeps}
use vasal.Host.Hoare.Success.{fetch_verified-Ensures, rename-Ensures}
use vasal.SelfUpgrade.{
  PendingUpgrade, StateFormat, state_file, new_file, state_of, backup_file, http_status, exe_path,
  replace_exe, execute, restore, rollback,
}
use vasal.SelfUpgrade.Exchange.{Apart, Replaced, replace_exe-KeepsOnError, replace_exe-Ensures}

exe-known :
    {V : Type 0} (sys : System V) {exe : FilePath}
    → sys.current_exe ≡ ok exe
    → exe_path sys.current_exe ≡ ok exe
unfolding exe_path
exe-known sys here = ap exe_path here

module _ {V : Type 0} (env : Env V) (sys : System V) (states : StateFormat) where
  -- The hypotheses of an upgrade: where the binary stands, and files that differ.
  module _ (url expected target_version current_version : String) (data_dir exe : FilePath)
      (here : sys.current_exe ≡ ok exe)
      (apart : Apart exe
        (join data_dir (backup_file current_version))
        (join data_dir state_file)
        (join data_dir new_file)) where
    abbrev backup : FilePath
    backup = join data_dir (backup_file current_version)

    -- What follows the path of the binary.
    abbrev next : Bytes → FilePath → Attempt V (Unit {0})
    next bytes path =
        replace_exe env sys states path backup target_version current_version data_dir bytes

    pub execute-KeepsOnError :
        KeepsOnError
          (file_at exe)
          (execute env sys states url expected target_version current_version data_dir)
    unfolding execute
    execute-KeepsOnError =
        KeepsOnError-bind (fetch_verified sys http_status url expected)
          (fetch_verified-Keeps sys http_status url expected (file_at exe) (λ e w. refl))
          (λ bytes.
            subst (KeepsOnError (file_at exe)) (sym (bind-ok (next bytes) (exe-known sys here))) (
              replace_exe-KeepsOnError env sys states exe backup target_version current_version
                data_dir bytes apart))

    pub execute-Ensures :
        (old : Node)
        → Ensures
            (Holds exe old)
            (execute env sys states url expected target_version current_version data_dir)
            (λ _ w.
              (bytes : Bytes) × (sys.sha256_hex bytes ≡ expected)
              × Replaced sys states exe backup
                  (join data_dir state_file)
                  (state_of target_version current_version backup)
                  bytes
                  old
                  w)
    unfolding execute
    execute-Ensures old =
        Ensures-bind (λ bytes w. Holds exe old w × (sys.sha256_hex bytes ≡ expected))
          (fetch_verified sys http_status url expected)
          (record {
            ensured = λ w p a h. (
              (fetch_verified-Keeps sys http_status url expected (file_at exe) (λ e w. refl)).kept w
                  ∙ p,
              (fetch_verified-Ensures sys (Holds exe old) http_status url expected).ensured w p a h,
            );
          })
          (λ bytes.
            subst
              (λ (m : Attempt V (Unit {0})).
                Ensures (λ w. Holds exe old w × (sys.sha256_hex bytes ≡ expected)) m
                  (λ _ w.
                    (bytes : Bytes) × (sys.sha256_hex bytes ≡ expected)
                    × Replaced sys states exe backup (join data_dir state_file)
                        (state_of target_version current_version backup) bytes old w))
              (sym (bind-ok (next bytes) (exe-known sys here)))
              (record {
                ensured = λ w p a h. (
                  bytes,
                  p.1,
                  (replace_exe-Ensures env sys states exe backup target_version current_version
                        data_dir bytes apart old).ensured
                      w p.0 a h,
                );
              }))

    -- A self-upgrade that fails, wherever it does, leaves the agent's binary as it was, where the
    -- path of the binary is known and the backup, the state file and the new binary stand in other
    -- files than the binary and each other.
    pub execute_failed :
        (w : World V) (e : Error)
        → (execute env sys states url expected target_version current_version data_dir w).0 ≡ err e
        → (execute env sys states url expected target_version current_version data_dir w).1.files
            exe
          ≡ w.files exe
    execute_failed w e h = execute-KeepsOnError.kept_on_error w e h

    -- A self-upgrade that succeeds has put in the binary's place, with mode 0o755, bytes whose
    -- digest is the expected one; the backup is the old binary, and the state file holds the text
    -- of a pending upgrade with the two versions and the backup's path. The path of the binary is
    -- known, and the four files differ.
    pub execute-Replaced :
        (old : Node) (w : World V)
        → w.files exe ≡ some old
        → (execute env sys states url expected target_version current_version data_dir w).0 ≡ ok tt
        → (bytes : Bytes) × (sys.sha256_hex bytes ≡ expected)
          × Replaced sys states exe backup
              (join data_dir state_file)
              (state_of target_version current_version backup)
              bytes
              old
              (execute env sys states url expected target_version current_version data_dir w).1
    execute-Replaced old w p h = (execute-Ensures old).ensured w p tt h

module _ {V : Type 0} (sys : System V) where
  restore-ok :
      (from to : FilePath) (old : Node) (o : Option Node) (w : World V) (a : Unit {0})
      → o ≡ some old
      → w.files from ≡ some old
      → (restore sys from to (is_there o) w).0 ≡ ok a
      → (restore sys from to (is_there o) w).1.files to ≡ some old
  unfolding restore
  restore-ok from to old none w a e p h = absurd (ok≢err a _ (sym h))
  restore-ok from to old (some n) w a e p h = (rename-Ensures sys from to old).ensured w p a h

  -- A rollback that succeeds puts the backup where the agent's binary stands.
  pub rollback-Ensures :
      (pending : PendingUpgrade) (exe : FilePath) (old : Node)
      → sys.current_exe ≡ ok exe
      → Ensures (Holds pending.rollback_path old) (rollback sys pending) (λ _. Holds exe old)
  unfolding rollback
  rollback-Ensures pending exe old here =
      subst
        (λ (m : Attempt V (Unit {0})).
          Ensures (Holds pending.rollback_path old) m (λ _. Holds exe old))
        (sym (bind-ok _ (exe-known sys here)))
        (record {
          ensured = λ w p a h.
              restore-ok pending.rollback_path exe old (w.files pending.rollback_path) w a p p h;
        })
