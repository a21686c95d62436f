-- ===== src/Units/Upgrade.antt =====
-- crates/vasal-core/src/unit/upgrade.rs: the upgrade of a unit, and the rollback of one that fails.
pub mod Ends
pub mod Laws
use vasal.Prelude.{
  ℕ, String, str_eq, Option, none, some, List, [], ◌∷◌, Bool, true, false, FilePath, format, join,
  decimal, if◌then◌else◌,
}
use vasal.Prelude.Results.{Result, ok, err}
use vasal.Codec.{Bytes}
use vasal.Protocol.Task.{RollbackSpec}
use vasal.Store.{get_unit, upsert_unit}
use vasal.Store.Sql.{UnitRow}
use vasal.Host.{Env}
use vasal.Host.Events.{rested}
use vasal.Host.Act
use vasal.Host.Act.{Act, World, happen, observe}
use vasal.Host.Run
use vasal.Host.Run.{Run}
use vasal.Host.Attempt
use vasal.Host.Attempt.{Error, unit_error, Attempt, succeed, fail, of_result, ◌>>=◌, ◌>>◌}
use vasal.Host.System.{System, fetch_verified, create_dir_all, write, exists, status}
use vasal.Units.{socket_path_for}
use vasal.Units.Install.{download_refused, is_zero, pid_or_zero, start_sidecar}
use vasal.Units.Health.{probe_sidecar}

unfoldable pub rollback_refused : String → String → Error
rollback_refused unit_name http_status =
    unit_error (
      format ("rollback artifact download for " ∷ unit_name ∷ " returned HTTP " ∷ http_status ∷ []))

-- `current.ok_or_else(…)?`
unfoldable pub found : String → Option UnitRow → Result Error UnitRow
found unit_name none = err (unit_error (format ("unit not found: " ∷ unit_name ∷ [])))
found unit_name (some row) = ok row

abbrev pub unhealthy_error : String → Error
unhealthy_error unit_name =
    unit_error (format ("health check failed after upgrade: " ∷ unit_name ∷ []))

-- Where the new version stands: its row, to be written, or to be probed first.
pub data Begun : Type 0 where
  to_write to_probe : UnitRow → Begun

module _ {V : Type 0} (env : Env V) (sys : System V) where
  -- `let _ = Command::new("kill").arg("-TERM").arg(pid).status().await`, and a sleep
  unfoldable pub terminate : (pid ms : ℕ) → Act V (Unit {0})
  unfolding status decimal
  terminate pid ms w = (tt, happen (rested ms) (status sys "kill" ("-TERM" ∷ decimal pid ∷ []) w).1)

  unfoldable pub stop_current : Option ℕ → Act V (Unit {0})
  unfolding terminate
  stop_current none w = (tt, w)
  stop_current (some pid) w = terminate pid 2000 w

  -- The artifact of a version written, and extracted with tar: its exit code.
  unfoldable pub unpack :
      (install_dir : FilePath) → (unit_name version : String) → Bytes → Attempt V (Option ℕ)
  unfolding create_dir_all write status join
  unpack install_dir unit_name version bytes = do
    create_dir_all sys install_dir
    let artifact = join install_dir (format (unit_name ∷ "-" ∷ version ∷ ".tar.gz" ∷ []))
    write sys artifact bytes
    status sys "tar" ("xzf" ∷ artifact ∷ "-C" ∷ install_dir ∷ [])

  -- The row of a version, dated now.
  abbrev pub with_version : String → UnitRow → Act V UnitRow
  with_version version row =
      observe (λ t. record row { version = version; updated_at = env.wall_ms t })

  unfoldable pub restart_if : Bool → (binary socket : FilePath) → UnitRow → Attempt V UnitRow
  unfolding start_sidecar
  restart_if true binary socket row = do
    pid ← start_sidecar env sys binary socket
    succeed (record row { pid = some pid; state = "running" })
  restart_if false binary socket row = succeed row

  -- The binary of a sidecar that is there is started.
  unfoldable pub restart :
      (install_dir socket_dir : FilePath) → (unit_name : String) → UnitRow → Attempt V UnitRow
  unfolding restart_if socket_path_for join
  restart install_dir socket_dir unit_name row = do
    there ← Attempt.lift (exists sys (join install_dir unit_name))
    restart_if there (join install_dir unit_name) (socket_path_for socket_dir unit_name) row

  abbrev pub is_sidecar : UnitRow → Bool
  is_sidecar row = str_eq row.kind "sidecar"

  unfoldable pub restore_row :
      (install_dir socket_dir : FilePath)
      → (unit_name version : String) → Option UnitRow
      → Attempt V (Unit {0})
  unfolding restart upsert_unit
  restore_row install_dir socket_dir unit_name version none = succeed tt
  restore_row install_dir socket_dir unit_name version (some row) = do
    dated ← Attempt.lift (with_version version row)
    started ←
        if is_sidecar row then restart install_dir socket_dir unit_name dated else succeed dated
    upsert_unit env started

  unfoldable pub perform_rollback :
      String → RollbackSpec → (artifact_cache_dir socket_dir : FilePath) → Attempt V (Unit {0})
  unfolding fetch_verified rollback_refused unpack get_unit restore_row join
  perform_rollback unit_name rollback artifact_cache_dir socket_dir = do
    bytes ←
        fetch_verified sys (rollback_refused unit_name) rollback.artifact.url
          rollback.artifact.sha256
    let install_dir = join artifact_cache_dir unit_name
    code ← unpack install_dir unit_name rollback.version bytes
    of_result (
        if is_zero code
        then ok tt
        else err
            (unit_error (format ("failed to extract rollback artifact for " ∷ unit_name ∷ []))))
    current ← get_unit env unit_name
    restore_row install_dir socket_dir unit_name rollback.version current

  -- `if let Some(rb) = rollback { perform_rollback(…).await?; } return Err(…)`
  unfoldable pub fail_with :
      String
      → Option RollbackSpec
      → (artifact_cache_dir socket_dir : FilePath) → Error
      → {A : Type 0} → Attempt V A
  unfolding perform_rollback
  fail_with unit_name none artifact_cache_dir socket_dir e = fail e
  fail_with unit_name (some rb) artifact_cache_dir socket_dir e = do
    perform_rollback unit_name rb artifact_cache_dir socket_dir
    fail e

  module _ (unit_name target_version : String) (rollback : Option RollbackSpec)
      (artifact_cache_dir socket_dir : FilePath) where
    abbrev install_dir : FilePath
    install_dir = join artifact_cache_dir unit_name

    unfoldable pub start_if_there : Bool → UnitRow → Attempt V Begun
    unfolding start_sidecar join socket_path_for
    start_if_there true row = do
      pid ←
          start_sidecar env sys (join install_dir unit_name) (socket_path_for socket_dir unit_name)
      succeed (to_probe (record row { pid = some pid; state = "running" }))
    start_if_there false row = succeed (to_write row)

    unfoldable pub start_new : UnitRow → Attempt V Begun
    unfolding start_if_there join
    start_new row =
        if is_sidecar row
        then (do
          there ← Attempt.lift (exists sys (join install_dir unit_name))
          start_if_there there row)
        else succeed (to_write row)

    -- What follows the extraction, for the row as it was.
    unfoldable pub after_extract : UnitRow → Bool → Attempt V Begun
    unfolding start_new fail_with
    after_extract current false =
        fail_with unit_name rollback artifact_cache_dir socket_dir
          (unit_error (format ("failed to extract artifact for " ∷ unit_name ∷ [])))
    after_extract current true = do
      row ← Attempt.lift (with_version target_version current)
      start_new row

    -- Up to the probe of the new version.
    unfoldable pub begin : (artifact_url artifact_sha256 : String) → Attempt V Begun
    unfolding fetch_verified download_refused get_unit found stop_current unpack after_extract join
    begin artifact_url artifact_sha256 = do
      bytes ← fetch_verified sys (download_refused unit_name) artifact_url artifact_sha256
      row ← get_unit env unit_name
      current ← of_result (found unit_name row)
      Attempt.lift (stop_current current.pid)
      code ← unpack install_dir unit_name target_version bytes
      after_extract current (is_zero code)

    -- `updated_row.pid.unwrap_or(0)`
    abbrev pid_of : UnitRow → ℕ
    pid_of row = pid_or_zero row.pid

    unfoldable pub after_probe : UnitRow → Bool → Attempt V (Unit {0})
    unfolding upsert_unit terminate fail_with
    after_probe row true = upsert_unit env row
    after_probe row false = do
      Attempt.lift (terminate (pid_of row) 1000)
      fail_with unit_name rollback artifact_cache_dir socket_dir (unhealthy_error unit_name)

    unfoldable pub finish : Result Error Begun → Run V (Result Error (Unit {0}))
    unfolding upsert_unit probe_sidecar after_probe
    finish (err e) = Run.return (err e)
    finish (ok (to_write row)) = Run.lift (upsert_unit env row)
    finish (ok (to_probe row)) =
        Run.◌>>=◌ (probe_sidecar env sys socket_dir unit_name 10)
          (λ passed. Run.lift (after_probe row passed))

    unfoldable pub upgrade :
        (artifact_url artifact_sha256 : String) → Run V (Result Error (Unit {0}))
    unfolding begin finish
    upgrade artifact_url artifact_sha256 =
        Run.◌>>=◌ (Run.lift (begin artifact_url artifact_sha256)) finish
