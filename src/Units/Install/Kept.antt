-- ===== src/Units/Install/Kept.antt =====
-- An install that ends with an error: what it leaves in the state database.
use vasal.Prelude.{
  String, Option, none, some, List, Bool, true, false, ◌≡◌, arith, refl, FilePath, join,
}
use vasal.Prelude.Results.{err}
use vasal.Codec.{Bytes}
use vasal.Protocol.Units.{UnitKind, sidecar, package_unit, ManagedUnit}
use vasal.Store.{upsert_unit, statement}
use vasal.Store.Sql.{UnitRow}
use vasal.Host.{Env}
use vasal.Host.Act.{World}
use vasal.Host.Attempt
use vasal.Host.Attempt.{Error, sha256_mismatch, Attempt, ◌>>=◌, ◌>>◌}
use vasal.Host.System.{System, fetch_verified, create_dir_all, write, exists, status, spawn}
use vasal.Host.Hoare.{Keeps, KeepsOnError, tables, Keeps-bind, KeepsOnError-bind, of_result-Keeps}
use vasal.Host.Hoare.Steps.{
  fetch_verified-Keeps, write-KeepsTables, set_permissions-KeepsTables, create_dir_all-KeepsTables,
  status-KeepsTables, spawn-KeepsTables,
}
use vasal.Units.{unit_to_row, socket_path_for}
use vasal.Units.Install.{
  Format, formats, format_of, extract_with, extract_artifact, run_extract, extracted,
  extract_arguments, start_sidecar, start_if, start_unit, install,
}

module _ {V : Type 0} (env : Env V) (sys : System V) where
  run_extract-KeepsTables :
      (program : String) (arguments : List String) (unit_name : String)
      → Keeps tables (run_extract env sys program arguments unit_name)
  unfolding run_extract
  run_extract-KeepsTables program arguments unit_name =
      Keeps-bind (status sys program arguments) (status-KeepsTables sys program arguments)
        (λ code. of_result-Keeps (extracted program unit_name code))

  pub extract_with-KeepsTables :
      (f : Option Format) (bytes : Bytes) (dir : FilePath) (unit_name version : String)
      → Keeps tables (extract_with env sys f bytes dir unit_name version)
  unfolding extract_with
  extract_with-KeepsTables (some f) bytes dir unit_name version =
      Keeps-bind (write sys _ bytes) (write-KeepsTables sys _ bytes)
        (λ _. run_extract-KeepsTables f.program (extract_arguments f _ dir) unit_name)
  extract_with-KeepsTables none bytes dir unit_name version =
      Keeps-bind (write sys (join dir unit_name) bytes) (write-KeepsTables sys _ bytes)
        (λ _. set_permissions-KeepsTables sys (join dir unit_name) 493)

  pub start_sidecar-KeepsTables :
      (binary socket : FilePath) → Keeps tables (start_sidecar env sys binary socket)
  unfolding start_sidecar
  start_sidecar-KeepsTables binary socket =
      Keeps-bind (spawn sys binary _) (spawn-KeepsTables sys binary _)
        (λ child. record { kept = λ w. refl })

  start_if-KeepsTables :
      (there : Bool) (binary socket : FilePath) (row : UnitRow)
      → Keeps tables (start_if env sys there binary socket row)
  unfolding start_if
  start_if-KeepsTables true binary socket row =
      Keeps-bind (start_sidecar env sys binary socket) (start_sidecar-KeepsTables binary socket)
        (λ pid. record { kept = λ w. refl })
  start_if-KeepsTables false binary socket row = record { kept = λ w. refl }

  start_unit-KeepsTables :
      (kind : UnitKind) (dir socket_dir : FilePath) (unit_name : String) (row : UnitRow)
      → Keeps tables (start_unit env sys kind dir socket_dir unit_name row)
  unfolding start_unit
  start_unit-KeepsTables sidecar dir socket_dir unit_name row =
      Keeps-bind (Attempt.lift (exists sys (join dir unit_name))) (record { kept = λ w. refl })
        (λ there.
          start_if-KeepsTables there (join dir unit_name) (socket_path_for socket_dir unit_name)
            row)
  start_unit-KeepsTables package_unit dir socket_dir unit_name row = record { kept = λ w. refl }

  pub upsert_unit-KeepsOnError : (row : UnitRow) → KeepsOnError tables (upsert_unit env row)
  unfolding upsert_unit statement
  upsert_unit-KeepsOnError row = record { kept_on_error = λ w e h. ground arith }

  install-KeepsOnError :
      (unit : ManagedUnit V) (artifact_cache_dir socket_dir : FilePath)
      → KeepsOnError tables (install env sys unit artifact_cache_dir socket_dir)
  unfolding install extract_artifact
  install-KeepsOnError unit cache socket_dir =
      KeepsOnError-bind (fetch_verified sys _ _ _)
        (fetch_verified-Keeps sys _ _ _ tables (λ e w. refl))
        (λ bytes.
          KeepsOnError-bind (create_dir_all sys (join cache unit.name))
            (create_dir_all-KeepsTables sys (join cache unit.name))
            (λ _.
              KeepsOnError-bind
                (extract_with env sys (format_of (sys.lower unit.artifact.url) formats) bytes
                  (join cache unit.name) unit.name unit.version)
                (extract_with-KeepsTables (format_of (sys.lower unit.artifact.url) formats) bytes
                  (join cache unit.name) unit.name unit.version)
                (λ _.
                  KeepsOnError-bind (Attempt.lift (unit_to_row env unit))
                    (record { kept = λ w. refl })
                    (λ row.
                      KeepsOnError-bind
                        (start_unit env sys unit.kind (join cache unit.name) socket_dir unit.name
                          row)
                        (start_unit-KeepsTables unit.kind (join cache unit.name) socket_dir
                          unit.name row)
                        (λ started. upsert_unit-KeepsOnError started)))))

  -- An install that fails, at whichever step, leaves the state database as it was.
  pub install_failed :
      (unit : ManagedUnit V) (artifact_cache_dir socket_dir : FilePath) (w : World V) (e : Error)
      → (install env sys unit artifact_cache_dir socket_dir w).0 ≡ err e
      → (install env sys unit artifact_cache_dir socket_dir w).1.store ≡ w.store
  install_failed unit cache socket_dir w e h =
      (install-KeepsOnError unit cache socket_dir).kept_on_error w e h
