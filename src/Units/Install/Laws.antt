-- ===== src/Units/Install/Laws.antt =====
-- An install that ends well: what it records.
use vasal.Prelude.{
  String, none, some, Bool, true, false, ◌≡◌, ◌≢◌, ◌⊎◌, inl, inr, arith, refl, ◌∙◌, subst, FilePath,
  join,
}
use vasal.Prelude.Results.{ok}
use vasal.Protocol.Units.{UnitKind, sidecar, package_unit, ManagedUnit}
use vasal.Store.{upsert_unit, statement}
use vasal.Store.Sql.{UnitRow, find_unit}
use vasal.Store.Laws.Units.{find-insert}
use vasal.Host.{Env}
use vasal.Host.Files.{str_eq_self}
use vasal.Host.Act.{World}
use vasal.Host.Attempt
use vasal.Host.Attempt.{Error, sha256_mismatch, Attempt, ◌>>=◌, ◌>>◌}
use vasal.Host.System.{System, fetch_verified, create_dir_all, exists}
use vasal.Host.Hoare.{Ensures, Ensures-bind, succeed-Ensures, any-Ensures, ok-inj}
use vasal.Units.{unit_to_row, socket_path_for, kind_text}
use vasal.Units.Install.{
  formats, format_of, extract_with, extract_artifact, start_sidecar, start_if, start_unit, install,
  download_refused,
}

-- A row after its unit was started, or not, with its socket.
pub record Started (row : UnitRow) (socket : FilePath) (started : UnitRow) : Type 0 where
  pub same_name : started.name ≡ row.name
  pub same_kind : started.kind ≡ row.kind
  pub same_version : started.version ≡ row.version
  pub lifecycle :
      (started.state ≡ "installed")
      ⊎ ((started.state ≡ "running") × (started.socket_path ≡ some socket) × (started.pid ≢ none))

-- The name, kind and version of a manifest in a row.
pub record RowOf {V : Type 0} (unit : ManagedUnit V) (row : UnitRow) : Type 0 where
  pub row_name : row.name ≡ unit.name
  pub row_kind : row.kind ≡ kind_text unit.kind
  pub row_version : row.version ≡ unit.version

module _ {V : Type 0} (env : Env V) (sys : System V) where
  -- The unit as its row records it, whatever its process.
  pub upsert_unit-found :
      (P : World V → Type 0) (row : UnitRow)
      → Ensures P (upsert_unit env row) (λ _ w. find_unit row.name w.store.units ≡ some row)
  unfolding upsert_unit statement
  upsert_unit-found P row = record {
    ensured =
        λ w p a h. ground (arith, find-insert row row.name w.store.units, str_eq_self row.name);
  }

  manifest-Started :
      (row : UnitRow) (socket : FilePath) → Started row socket (record row { state = "installed" })
  manifest-Started row socket = record {
    same_name = refl;
    same_kind = refl;
    same_version = refl;
    lifecycle = inl refl;
  }

  start_if-Ensures :
      (there : Bool) (binary socket : FilePath) (row : UnitRow)
      → Ensures
          (λ _. Unit)
          (start_if env sys there binary socket row)
          (λ started _. Started row socket started)
  unfolding start_if
  start_if-Ensures true binary socket row =
      Ensures-bind (λ _ _. Unit) (start_sidecar env sys binary socket) (any-Ensures _)
        (λ pid.
          succeed-Ensures (Started row socket)
            (record row { pid = some pid; socket_path = some socket; state = "running" })
            (record {
              same_name = refl;
              same_kind = refl;
              same_version = refl;
              lifecycle = inr (refl, refl, λ h. cc);
            }))
  start_if-Ensures false binary socket row =
      succeed-Ensures (Started row socket) (record row { state = "installed" })
        (manifest-Started row socket)

  start_unit-Ensures :
      (kind : UnitKind) (dir socket_dir : FilePath) (unit_name : String) (row : UnitRow)
      → Ensures
          (λ _. Unit)
          (start_unit env sys kind dir socket_dir unit_name row)
          (λ started _. Started row (socket_path_for socket_dir unit_name) started)
  unfolding start_unit
  start_unit-Ensures sidecar dir socket_dir unit_name row =
      Ensures-bind (λ _ _. Unit) (Attempt.lift (exists sys (join dir unit_name))) (any-Ensures _)
        (λ there.
          start_if-Ensures there (join dir unit_name) (socket_path_for socket_dir unit_name) row)
  start_unit-Ensures package_unit dir socket_dir unit_name row =
      succeed-Ensures (Started row (socket_path_for socket_dir unit_name))
        (record row { state = "installed" }) (manifest-Started row _)

  row-Ensures :
      (unit : ManagedUnit V)
      → Ensures (λ _. Unit) (Attempt.lift (unit_to_row env unit)) (λ row _. RowOf unit row)
  unfolding unit_to_row
  row-Ensures unit = record {
    ensured = λ w p a h.
        subst (RowOf unit) (ok-inj (ok (unit_to_row env unit w).0) refl h)
          (record { row_name = refl; row_kind = refl; row_version = refl });
  }

  -- The unit as an install has recorded it: under its name, with the kind and version of the
  -- manifest, installed, or running with a pid and the socket of its name.
  abbrev pub IsRecorded : ManagedUnit V → FilePath → World V → Type 0
  IsRecorded unit socket_dir w =
      (row : UnitRow) × (started : UnitRow) × RowOf unit row
      × Started row (socket_path_for socket_dir unit.name) started
      × (find_unit unit.name w.store.units ≡ some started)

  persist-Ensures :
      (unit : ManagedUnit V) (dir socket_dir : FilePath) (row : UnitRow)
      → Ensures
          (λ _. RowOf unit row)
          (do
            started ← start_unit env sys unit.kind dir socket_dir unit.name row
            upsert_unit env started)
          (λ _. IsRecorded unit socket_dir)
  persist-Ensures unit dir socket_dir row =
      Ensures-bind
        (λ started _. RowOf unit row × Started row (socket_path_for socket_dir unit.name) started)
        (start_unit env sys unit.kind dir socket_dir unit.name row)
        (record {
          ensured = λ w p a h.
              (p, (start_unit-Ensures unit.kind dir socket_dir unit.name row).ensured w tt a h);
        })
        (λ started. record {
          ensured = λ w p a h. (
            row,
            started,
            p.0,
            p.1,
            subst (λ n. find_unit n (upsert_unit env started w).1.store.units ≡ some started)
                (p.1.same_name ∙ p.0.row_name)
                ((upsert_unit-found (λ _. Unit) started).ensured w tt a h),
          );
        })

  install-Ensures :
      (unit : ManagedUnit V) (artifact_cache_dir socket_dir : FilePath)
      → Ensures
          (λ _. Unit)
          (install env sys unit artifact_cache_dir socket_dir)
          (λ _. IsRecorded unit socket_dir)
  unfolding install extract_artifact
  install-Ensures unit cache socket_dir =
      Ensures-bind (λ _ _. Unit)
        (fetch_verified sys (download_refused unit.name) unit.artifact.url unit.artifact.sha256)
        (any-Ensures _)
        (λ bytes.
          Ensures-bind (λ _ _. Unit) (create_dir_all sys (join cache unit.name)) (any-Ensures _)
            (λ _.
              Ensures-bind (λ _ _. Unit)
                (extract_with env sys (format_of (sys.lower unit.artifact.url) formats) bytes
                  (join cache unit.name) unit.name unit.version)
                (any-Ensures _)
                (λ _.
                  Ensures-bind (λ row _. RowOf unit row) (Attempt.lift (unit_to_row env unit))
                    (row-Ensures unit)
                    (λ row. persist-Ensures unit (join cache unit.name) socket_dir row))))

  -- An install that succeeds has recorded the unit under its name, with the kind and version of the
  -- manifest, installed, or running with a pid and the socket of its name.
  pub install-IsRecorded :
      (unit : ManagedUnit V) (artifact_cache_dir socket_dir : FilePath) (w : World V)
      → (install env sys unit artifact_cache_dir socket_dir w).0 ≡ ok tt
      → IsRecorded unit socket_dir (install env sys unit artifact_cache_dir socket_dir w).1
  install-IsRecorded unit cache socket_dir w h =
      (install-Ensures unit cache socket_dir).ensured w tt tt h
