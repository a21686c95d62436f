-- ===== src/Units/Digest.antt =====
-- An artifact whose digest is not the expected one: installs, upgrades, rollbacks of a unit and
-- self-upgrades report it and do nothing after the download.
use vasal.Prelude.{String, Option, some, ◌≡◌, ◌≢◌, refl, FilePath}
use vasal.Prelude.Results.{Result, err}
use vasal.Codec.{Bytes}
use vasal.Protocol.Units.{ManagedUnit}
use vasal.Protocol.Task.{RollbackSpec}
use vasal.Host.{Env}
use vasal.Host.Act.{World, happen}
use vasal.Host.Attempt.{Error, sha256_mismatch}
use vasal.Host.Events.{downloaded}
use vasal.Host.Files.{str_eq_other}
use vasal.Host.System.{System, body, downloaded_bytes, verified, fetch, fetch_verified}
use vasal.SelfUpgrade
use vasal.SelfUpgrade.{StateFormat}
use vasal.Units.Install.{install, download_refused}
use vasal.Units.Upgrade.{begin, finish, upgrade, perform_rollback, rollback_refused}

module _ {V : Type 0} (env : Env V) (sys : System V) where
  module _ (url expected : String) (bytes : Bytes) (w : World V)
      (served : sys.download w.trace url ≡ body bytes)
      (differs : sys.sha256_hex bytes ≢ expected) where
    -- What every one of them does.
    abbrev refused : {A : Type 0} → Result Error A × World V
    refused = (err (sha256_mismatch expected (sys.sha256_hex bytes)), happen (downloaded url) w)

    pub fetch_verified-mismatch :
        (http_status : String → Error) → fetch_verified sys http_status url expected w ≡ refused
    unfolding fetch_verified fetch downloaded_bytes verified
    fetch_verified-mismatch http_status =
        rw (served, str_eq_other (sys.sha256_hex bytes) expected differs) refl

  -- Where the download of an artifact gives bytes of another digest, an install, a rollback and a
  -- self-upgrade end with the digest error, and so does an upgrade; each has done nothing but the
  -- download: no file, no row and no process.
  pub mismatch-touches_nothing :
      (states : StateFormat) (unit : ManagedUnit V) (version : String) (old : Option RollbackSpec)
      (cache socket_dir data_dir : FilePath) (target current : String) (bytes : Bytes) (w : World V)
      → sys.download w.trace unit.artifact.url ≡ body bytes
      → sys.sha256_hex bytes ≢ unit.artifact.sha256
      → let error = sha256_mismatch unit.artifact.sha256 (sys.sha256_hex bytes) in
        let w' = happen (downloaded unit.artifact.url) w in
        (install env sys unit cache socket_dir w ≡ (err error, w'))
        × (perform_rollback env sys unit.name
              (record { version = version; artifact = unit.artifact })
              cache
              socket_dir
              w
            ≡ (err error, w'))
        × (upgrade env sys unit.name target old cache socket_dir unit.artifact.url
              unit.artifact.sha256 w
            ≡ (some (err error), w'))
        × (SelfUpgrade.execute env sys states unit.artifact.url unit.artifact.sha256 target current
              data_dir w
            ≡ (err error, w'))
  unfolding install perform_rollback upgrade SelfUpgrade.execute begin finish
  mismatch-touches_nothing states unit version old cache socket_dir data_dir target current bytes w
        served differs =
      let refuses =
        fetch_verified-mismatch unit.artifact.url unit.artifact.sha256 bytes w served differs in
      (
        rw (refuses (download_refused unit.name)) refl,
        rw (refuses (rollback_refused unit.name)) refl,
        rw (refuses (download_refused unit.name)) refl,
        rw (refuses SelfUpgrade.http_status) refl,
      )
