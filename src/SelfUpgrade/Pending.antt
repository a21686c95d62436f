-- ===== src/SelfUpgrade/Pending.antt =====
-- The state file of an upgrade: check_pending reads what the upgrade wrote, once. The agent does not
-- call it when it starts.
use vasal.Prelude.{ℕ, String, ◌≡◌, refl, FilePath, Option, none, some, join}
use vasal.Prelude.Results.{Result, ok, err}
use vasal.Host.{Env, Trace}
use vasal.Host.Act.{World}
use vasal.Host.Attempt.{Error}
use vasal.Host.Files.{Node, is_there, drop_file-here}
use vasal.Host.System.{System, gate, read, read_node, read_to_string, remove}
use vasal.Host.Hoare.{HasContent}
use vasal.SelfUpgrade.{
  PendingUpgrade, StateFormat, state_file, new_file, backup_file, state_of, execute, rollback,
  check_pending, on_exists, on_content,
}
use vasal.SelfUpgrade.Exchange.{Apart}
use vasal.SelfUpgrade.Laws.{execute-Ensures, rollback-Ensures}

-- What reading back relies on: the text of a state survives its bytes, and the state its JSON.
pub record Readable {V : Type 0} (sys : System V) (states : StateFormat) (state : PendingUpgrade)
    : Type 0 where
  pub text_back :
      (text : String) → states.pretty state ≡ ok text → sys.from_utf8 (sys.utf8 text) ≡ ok text
  pub state_back : (text : String) → states.pretty state ≡ ok text → states.parse text ≡ ok state

module _ {V : Type 0} (sys : System V) (states : StateFormat)
    (allowed : (t : Trace V) → sys.refuse_io t ≡ none) where
  remove-gone : (path : FilePath) (w : World V) → (remove sys path w).1.files path ≡ none
  unfolding remove gate
  remove-gone path w = rw (allowed w.trace) (drop_file-here path w.files)

  on_content-gone :
      (path : FilePath) (content : Result Error String) (w : World V)
      → (on_content sys states path content w).1.files path ≡ none
  unfolding on_content
  on_content-gone path (ok content) w = remove-gone path w
  on_content-gone path (err e) w = remove-gone path w

  on_exists-gone :
      (path : FilePath) (o : Option Node) (w : World V)
      → w.files path ≡ o
      → (on_exists sys states path (is_there o) w).1.files path ≡ none
  unfolding on_exists
  on_exists-gone path none w h = h
  on_exists-gone path (some n) w h =
      on_content-gone path (read_to_string sys path w).0 (read_to_string sys path w).1

  absent :
      (data_dir : FilePath) (w : World V)
      → w.files (join data_dir state_file) ≡ none
      → (check_pending sys states data_dir w).0 ≡ none
  unfolding check_pending on_exists
  absent data_dir w h = rw h refl

  -- A look for a pending upgrade removes the state file, whatever it held, and a second look finds
  -- none, where no operation on a file is refused.
  pub check_pending-once :
      (data_dir : FilePath) (w : World V)
      → let w' = (check_pending sys states data_dir w).1 in
        (w'.files (join data_dir state_file) ≡ none)
        × ((check_pending sys states data_dir w').0 ≡ none)
  unfolding check_pending
  check_pending-once data_dir w =
      let gone =
        on_exists-gone (join data_dir state_file) (w.files (join data_dir state_file)) w refl in
      (gone, absent data_dir (check_pending sys states data_dir w).1 gone)

  -- A state file that holds the text of a pending upgrade is read back as that.
  pub check_pending-reads :
      (data_dir : FilePath) (text : String) (state : PendingUpgrade) (w : World V)
      → Readable sys states state
      → states.pretty state ≡ ok text
      → HasContent (join data_dir state_file) (sys.utf8 text) w
      → (check_pending sys states data_dir w).0 ≡ some state
  unfolding check_pending on_exists on_content read_to_string read read_node gate
  check_pending-reads data_dir text state w back printed there =
      rw
        (
          there.content_held,
          allowed w.trace,
          there.content_held,
          back.text_back text printed,
          back.state_back text printed,
        )
        refl

module _ {V : Type 0} (env : Env V) (sys : System V) (states : StateFormat) where
  module _ (allowed : (t : Trace V) → sys.refuse_io t ≡ none)
      (url expected target_version current_version : String) (data_dir exe : FilePath)
      (back : (at : ℕ)
        → Readable sys states (
            state_of target_version current_version
              (join data_dir (backup_file current_version))
              at))
      (here : sys.current_exe ≡ ok exe)
      (apart : Apart exe
        (join data_dir (backup_file current_version))
        (join data_dir state_file)
        (join data_dir new_file)) where
    abbrev backup : FilePath
    backup = join data_dir (backup_file current_version)

    -- Run on the files that a successful self-upgrade leaves, check_pending gives the pending
    -- upgrade with the two versions and the path of the backup, where no operation on a file is
    -- refused, the path of the binary is known, the four files differ, and text and state survive
    -- being written and read.
    pub check_pending-execute :
        (old : Node) (w : World V)
        → w.files exe ≡ some old
        → (execute env sys states url expected target_version current_version data_dir w).0 ≡ ok tt
        → (at : ℕ) × ((check_pending sys states data_dir
              (execute env sys states url expected target_version current_version data_dir w).1).0
            ≡ some (state_of target_version current_version backup at))
    check_pending-execute old w p h =
        let done =
          (execute-Ensures env sys states url expected target_version current_version data_dir exe
              here apart old).ensured
            w p tt h in
        let r = done.2 in
        (
          r.started_at,
          check_pending-reads sys states allowed data_dir r.state_text
              (state_of target_version current_version backup r.started_at) _ (back r.started_at)
              r.state_written r.state_kept,
        )

  -- A self-upgrade that succeeds, and a rollback to its backup that succeeds, restore the agent's
  -- binary, content and mode, where its path is known and the four files differ.
  pub rollback-execute :
      (url expected target_version current_version : String) (data_dir exe : FilePath)
      → sys.current_exe ≡ ok exe
      → Apart exe
          (join data_dir (backup_file current_version))
          (join data_dir state_file)
          (join data_dir new_file)
      → (old : Node) (at : ℕ) (w : World V) → w.files exe ≡ some old
      → let upgraded =
          execute env sys states url expected target_version current_version data_dir w in
        let restored =
          rollback sys
            (state_of target_version current_version
              (join data_dir (backup_file current_version))
              at)
            upgraded.1 in
        upgraded.0 ≡ ok tt → restored.0 ≡ ok tt → restored.1.files exe ≡ some old
  rollback-execute url expected target_version current_version data_dir exe here apart old at w p h
        h' =
      let done =
        (execute-Ensures env sys states url expected target_version current_version data_dir exe
            here apart old).ensured
          w p tt h in
      (rollback-Ensures sys (state_of target_version current_version _ at) exe old here).ensured _
        done.2.backed_up tt h'
