-- ===== src/SelfUpgrade.antt =====
-- crates/vasal-core/src/self_upgrade.rs: the replacement of the agent's own binary, the state file
-- that a restart finds, and the way back. `serde_json` on the state file is a parameter.
pub mod Exchange
pub mod Laws
pub mod Pending
use vasal.Prelude.{
  ℕ, String, Option, none, some, [], ◌∷◌, Bool, true, false, FilePath, format, join,
}
use vasal.Prelude.Results.{Result, ok, err}
use vasal.Codec.{Bytes}
use vasal.Host.{Env}
use vasal.Host.Act
use vasal.Host.Act.{Act, observe}
use vasal.Host.Attempt
use vasal.Host.Attempt.{
  Error, io, transport, json, unit_error, Attempt, fail, ◌>>=◌, ◌>>◌, of_result,
}
use vasal.Host.System.{
  System, fetch_verified, copy, write, set_permissions, rename, remove, read_to_string, exists,
}

pub record PendingUpgrade : Type 0 where
  pub target_version : String
  pub previous_version : String
  pub rollback_path : FilePath
  pub initiated_at : ℕ

-- `STATE_FILE`
abbrev pub state_file : String
state_file = "pending-upgrade.json"

abbrev pub backup_file : String → String
backup_file version = format ("vasal." ∷ version ∷ ".bak" ∷ [])

abbrev pub new_file : String
new_file = "vasal.new"

-- serde_json on the state file
pub record StateFormat : Type 0 where
  pub pretty : PendingUpgrade → Result String String
  pub parse : String → Result String PendingUpgrade

abbrev pub json_result : {A : Type 0} → Result String A → Result Error A
json_result (ok a) = ok a
json_result (err e) = err (json e)

abbrev pub state_of : (target_version previous_version : String) → FilePath → ℕ → PendingUpgrade
state_of target_version previous_version backup at = record {
  target_version = target_version;
  previous_version = previous_version;
  rollback_path = backup;
  initiated_at = at;
}

abbrev pub http_status : String → Error
http_status status = transport (format ("artifact download returned HTTP " ∷ status ∷ []))

-- `std::env::current_exe().map_err(…)?`
unfoldable pub exe_path : Result String FilePath → Result Error FilePath
exe_path (ok path) = ok path
exe_path (err e) = err (io (format ("cannot determine current executable path: " ∷ e ∷ [])))

module _ {V : Type 0} (sys : System V) (states : StateFormat) where
  -- The state file's text, parsed: whatever it holds, it is removed.
  unfoldable pub on_content : FilePath → Result Error String → Act V (Option PendingUpgrade)
  unfolding remove
  on_content path (err e) w = (none, (remove sys path w).1)
  on_content path (ok content) w = (
    elim (states.parse content) as (λ _. Option PendingUpgrade) [
      | ok state ↦ some state
      | err e ↦ none
    ],
    (remove sys path w).1,
  )

  unfoldable pub on_exists : FilePath → Bool → Act V (Option PendingUpgrade)
  unfolding on_content read_to_string
  on_exists path false w = (none, w)
  on_exists path true w =
      let (content, w') = read_to_string sys path w in on_content path content w'

  unfoldable pub check_pending : FilePath → Act V (Option PendingUpgrade)
  unfolding on_exists join
  check_pending data_dir w =
      let path = join data_dir state_file in
      let (there, w') = exists sys path w in on_exists path there w'

module _ {V : Type 0} (env : Env V) (sys : System V) (states : StateFormat) where
  -- From the verified bytes on: the backup, the state file, the new binary, the exchange.
  unfoldable pub replace_exe :
      (exe backup : FilePath)
      → (target_version current_version : String) → (data_dir : FilePath) → Bytes
      → Attempt V (Unit {0})
  unfolding copy write set_permissions rename join
  replace_exe exe backup target_version current_version data_dir bytes = do
    copy sys exe backup
    initiated_at ← Attempt.lift (observe env.wall_ms)
    state_json ←
        of_result (
          json_result (states.pretty (state_of target_version current_version backup initiated_at)))
    write sys (join data_dir state_file) (sys.utf8 state_json)
    let new_path = join data_dir new_file
    write sys new_path bytes
    set_permissions sys new_path 493
    rename sys new_path exe

  unfoldable pub execute :
      (artifact_url expected_sha256 target_version current_version : String)
      → (data_dir : FilePath) → Attempt V (Unit {0})
  unfolding fetch_verified exe_path replace_exe join
  execute artifact_url expected_sha256 target_version current_version data_dir = do
    bytes ← fetch_verified sys http_status artifact_url expected_sha256
    exe ← of_result (exe_path sys.current_exe)
    replace_exe exe (join data_dir (backup_file current_version)) target_version current_version
        data_dir bytes

module _ {V : Type 0} (sys : System V) where
  unfoldable pub restore : (backup exe : FilePath) → Bool → Attempt V (Unit {0})
  unfolding rename
  restore backup exe false = fail (unit_error "rollback binary not found")
  restore backup exe true = rename sys backup exe

  unfoldable pub rollback : PendingUpgrade → Attempt V (Unit {0})
  unfolding exe_path restore
  rollback pending = do
    exe ← of_result (exe_path sys.current_exe)
    there ← Attempt.lift (exists sys pending.rollback_path)
    restore pending.rollback_path exe there
