-- ===== src/Units/Install.antt =====
-- crates/vasal-core/src/unit/install.rs: download, verify, extract, start, persist.
pub mod Kept
pub mod Laws
use Prim.Native.String
use vasal.Prelude.{
  ℕ, String, str_eq, Option, none, some, List, [], ◌∷◌, Bool, true, false, ◌||◌, ◌==◌, FilePath,
  format, join, decimal, if◌then◌else◌,
}
use vasal.Prelude.Results.{Result, ok, err}
use vasal.Codec.{Bytes}
use vasal.Protocol.Units.{UnitKind, sidecar, package_unit, ManagedUnit}
use vasal.Store.{upsert_unit}
use vasal.Store.Sql.{UnitRow}
use vasal.Host.{Env}
use vasal.Host.Attempt
use vasal.Host.Attempt.{Error, unit_error, Attempt, succeed, fail, ◌>>=◌, ◌>>◌}
use vasal.Host.System.{
  System, fetch_verified, create_dir_all, write, set_permissions, exists, status, spawn,
}
use vasal.Units.{unit_to_row, socket_path_for}

-- `str::ends_with`
unfoldable pub ends_with : String → String → Bool
ends_with String.[] suffix = str_eq String.[] suffix
ends_with (String.◌∷◌ c s) suffix = str_eq (String.◌∷◌ c s) suffix || ends_with s suffix

-- An entry of `FORMATS`: the endings of a URL, the ending of the file, the program and its option.
pub record Format : Type 0 where
  pub extensions : List String
  pub file_ext : String
  pub program : String
  pub option : String

abbrev archive : List String → (file_ext program option : String) → Format
archive extensions file_ext program option = record {
  extensions = extensions;
  file_ext = file_ext;
  program = program;
  option = option;
}

-- `FORMATS`
abbrev pub formats : List Format
formats =
    archive (".tar.gz" ∷ ".tgz" ∷ []) "tar.gz" "tar" "xzf"
    ∷ archive (".tar.xz" ∷ ".txz" ∷ []) "tar.xz" "tar" "xJf"
    ∷ archive (".tar.bz2" ∷ ".tbz2" ∷ []) "tar.bz2" "tar" "xjf"
    ∷ archive (".deb" ∷ []) "deb" "dpkg-deb" "--extract"
    ∷ archive (".zip" ∷ []) "zip" "unzip" "-o"
    ∷ []

unfoldable pub any_ending : String → List String → Bool
unfolding ends_with
any_ending url_lower [] = false
any_ending url_lower (e ∷ es) = ends_with url_lower e || any_ending url_lower es

-- The first format whose ending the URL has.
unfoldable pub format_of : String → List Format → Option Format
unfolding any_ending
format_of url_lower [] = none
format_of url_lower (f ∷ fs) =
    if any_ending url_lower f.extensions then some f else format_of url_lower fs

-- The arguments after the program, for an artifact and a directory.
unfoldable pub extract_arguments : Format → (artifact dir : FilePath) → List String
extract_arguments f artifact dir =
    if str_eq f.program "tar"
    then f.option ∷ artifact ∷ "-C" ∷ dir ∷ []
    else if str_eq f.program "unzip"
    then f.option ∷ artifact ∷ "-d" ∷ dir ∷ []
    else f.option ∷ artifact ∷ dir ∷ []

-- `{:?}` of an exit code
unfoldable pub code_text : Option ℕ → String
unfolding decimal
code_text none = "None"
code_text (some n) = format ("Some(" ∷ decimal n ∷ ")" ∷ [])

-- `ExitStatus::success`
abbrev pub is_zero : Option ℕ → Bool
is_zero none = false
is_zero (some n) = n == 0

abbrev pub pid_or_zero : Option ℕ → ℕ
pid_or_zero none = 0
pid_or_zero (some n) = n

-- The arguments that a sidecar is started with.
abbrev pub sidecar_arguments : FilePath → List String
sidecar_arguments socket = "--socket" ∷ socket ∷ []

unfoldable pub download_refused : String → String → Error
download_refused unit_name http_status =
    unit_error
      (format ("artifact download for " ∷ unit_name ∷ " returned HTTP " ∷ http_status ∷ []))

-- What the end of the extracting program means.
unfoldable pub extracted : (program unit_name : String) → Option ℕ → Result Error (Unit {0})
unfolding code_text
extracted program unit_name code =
    if is_zero code
    then ok tt
    else err (
        unit_error (
          format (
            "failed to extract artifact for "
            ∷ unit_name
            ∷ ": "
            ∷ program
            ∷ " exited with "
            ∷ code_text code
            ∷ [])))

module _ {V : Type 0} (env : Env V) (sys : System V) where
  unfoldable pub run_extract :
      (program : String) → List String → (unit_name : String) → Attempt V (Unit {0})
  unfolding status extracted
  run_extract program arguments unit_name = do
    code ← status sys program arguments
    Attempt.of_result (extracted program unit_name code)

  unfoldable pub extract_with :
      Option Format
      → Bytes
      → (install_dir : FilePath) → (unit_name version : String) → Attempt V (Unit {0})
  unfolding write set_permissions run_extract extract_arguments join
  extract_with (some f) bytes install_dir unit_name version = do
    let artifact = join install_dir (format (unit_name ∷ "-" ∷ version ∷ "." ∷ f.file_ext ∷ []))
    write sys artifact bytes
    run_extract f.program (extract_arguments f artifact install_dir) unit_name
  extract_with none bytes install_dir unit_name version = do
    let binary_path = join install_dir unit_name
    write sys binary_path bytes
    set_permissions sys binary_path 493

  unfoldable pub extract_artifact :
      (url_lower : String)
      → Bytes
      → (install_dir : FilePath) → (unit_name version : String) → Attempt V (Unit {0})
  unfolding extract_with format_of
  extract_artifact url_lower = extract_with (format_of url_lower formats)

  -- `Command::new(binary).arg("--socket").arg(socket).spawn()?`, and its pid
  unfoldable pub start_sidecar : (binary socket : FilePath) → Attempt V ℕ
  unfolding spawn
  start_sidecar binary socket = do
    child ← spawn sys binary (sidecar_arguments socket)
    succeed (pid_or_zero child)

  unfoldable pub start_if : Bool → (binary socket : FilePath) → UnitRow → Attempt V UnitRow
  unfolding start_sidecar
  start_if true binary socket row = do
    pid ← start_sidecar binary socket
    succeed (record row { pid = some pid; socket_path = some socket; state = "running" })
  start_if false binary socket row = succeed (record row { state = "installed" })

  unfoldable pub start_unit :
      UnitKind
      → (install_dir socket_dir : FilePath) → (unit_name : String) → UnitRow
      → Attempt V UnitRow
  unfolding start_if socket_path_for join
  start_unit sidecar install_dir socket_dir unit_name row = do
    let binary = join install_dir unit_name
    there ← Attempt.lift (exists sys binary)
    start_if there binary (socket_path_for socket_dir unit_name) row
  start_unit package_unit install_dir socket_dir unit_name row =
      succeed (record row { state = "installed" })

  unfoldable pub install :
      ManagedUnit V → (artifact_cache_dir socket_dir : FilePath) → Attempt V (Unit {0})
  unfolding fetch_verified download_refused create_dir_all extract_artifact unit_to_row start_unit
      upsert_unit join
  install unit artifact_cache_dir socket_dir = do
    bytes ← fetch_verified sys (download_refused unit.name) unit.artifact.url unit.artifact.sha256
    let install_dir = join artifact_cache_dir unit.name
    create_dir_all sys install_dir
    extract_artifact (sys.lower unit.artifact.url) bytes install_dir unit.name unit.version
    row ← Attempt.lift (unit_to_row env unit)
    started ← start_unit unit.kind install_dir socket_dir unit.name row
    upsert_unit env started
