-- ===== src/Sidecars/Sql.antt =====
-- sidecars/sql-ctrl/src/main.rs: a sidecar that runs SQL. rusqlite and serde_json are parameters;
-- `D` is what the databases hold, and a connection is its number.
use Prim.Native.Char.{code}
use vasal.Prelude.{
  ℕ, String, str_eq, Option, none, some, List, [], ◌∷◌, ◌++◌, Bool, false, ◌==◌, format, length,
  map, if◌then◌else◌,
}
use vasal.Prelude.Results.{Result, ok, err}
use vasal.Protocol.Errors.{ProtocolError, invalid_params, internal_error, error_text}
use vasal.Protocol.Sidecar.{SubmitResponse, HealthResponse, healthy, unhealthy}
use vasal.Server.{SidecarHandler, default_status, default_cancel}

abbrev pub default_socket : String
default_socket = "/run/vasal/sql-ctrl.sock"

pub record SqlParams (V : Type 0) : Type 0 where
  pub action : String
  pub dsn : Option String
  pub sql : Option String
  pub params : List V

-- Where a query stops, or its columns and rows.
pub data Queried (V : Type 0) : Type 0 where
  prepare_error query_error row_error : String → Queried V
  selected : (columns : List String) (rows : List V) → Queried V

-- Where the discovery stops, or what it found of each table.
pub data Discovered (V : Type 0) : Type 0 where
  discover_error table_info_error column_error : String → Discovered V
  tables : List V → Discovered V

pub record Rusqlite (V D : Type 0) : Type 0 where
  pub open_database : String → D → Result String ℕ × D
  -- why a batch is refused
  pub execute_batch : ℕ → String → D → Option String × D
  pub query : ℕ → String → List V → D → Queried V × D
  -- the rows affected and the last row id
  pub execute : ℕ → String → List V → D → Result String (V × V) × D
  pub discover : ℕ → D → Discovered V × D
  -- serde_json
  pub read_params : V → Result String (SqlParams V)
  pub null : V
  pub text : String → V
  pub number : ℕ → V
  pub array : List V → V
  pub object : List (String × V) → V
  pub json_text : V → String

-- `SqlCtrl`, without its locks
pub record SqlCtrl (D : Type 0) : Type 0 where
  pub default_dsn : Option String
  pub connections : List (String × ℕ)
  pub databases : D

unfoldable pub find_connection : String → List (String × ℕ) → Option ℕ
find_connection dsn [] = none
find_connection dsn (entry ∷ entries) =
    if str_eq entry.0 dsn then some entry.1 else find_connection dsn entries

module _ {V D : Type 0} (lib : Rusqlite V D) (version : String) where
  abbrev pub Handled : Type 0 → Type 0
  Handled A = Result (ProtocolError V) A × SqlCtrl D

  -- A fresh connection: its two pragmas, whatever comes of them, and its place in the list.
  unfoldable pub opened : String → SqlCtrl D → Result String ℕ × D → Handled ℕ
  unfolding internal_error
  opened dsn s (err e, d) = (
    err (internal_error (format ("failed to open database " ∷ dsn ∷ ": " ∷ e ∷ []))),
    record s { databases = d },
  )
  opened dsn s (ok conn, d) =
      let wal = (lib.execute_batch conn "PRAGMA journal_mode = WAL;" d).1 in
      let busy = (lib.execute_batch conn "PRAGMA busy_timeout = 5000;" wal).1 in
      (ok conn, record s { connections = s.connections ++ (dsn, conn) ∷ []; databases = busy })

  unfoldable pub connect_with : String → Option ℕ → SqlCtrl D → Handled ℕ
  unfolding opened
  connect_with dsn (some conn) s = (ok conn, s)
  connect_with dsn none s = opened dsn s (lib.open_database dsn s.databases)

  unfoldable pub get_connection : String → SqlCtrl D → Handled ℕ
  unfolding connect_with find_connection
  get_connection dsn s = connect_with dsn (find_connection dsn s.connections) s

  -- `request_dsn.or_else(default).ok_or_else(…)`
  unfoldable pub resolve_dsn : Option String → Option String → Result (ProtocolError V) String
  unfolding invalid_params
  resolve_dsn default (some dsn) = ok dsn
  resolve_dsn (some dsn) none = ok dsn
  resolve_dsn none none = err (invalid_params "no 'dsn' provided and no default DSN configured")

  -- A connection, and what is done with it.
  unfoldable pub with_connection :
      {A : Type 0} → Handled ℕ → (ℕ → D → Result (ProtocolError V) A × D) → Handled A
  with_connection (err e, s) f = (err e, s)
  with_connection (ok conn, s) f =
      let (r, d) = f conn s.databases in (r, record s { databases = d })

  abbrev completed : List (String × V) → Result (ProtocolError V) SubmitResponse
  completed fields = ok (SubmitResponse.completed (lib.json_text (lib.object fields)) "" false)

  unfoldable pub queried : Queried V → Result (ProtocolError V) SubmitResponse
  unfolding internal_error
  queried (prepare_error e) = err (internal_error (format ("SQL prepare error: " ∷ e ∷ [])))
  queried (query_error e) = err (internal_error (format ("SQL query error: " ∷ e ∷ [])))
  queried (row_error e) = err (internal_error (format ("row read error: " ∷ e ∷ [])))
  queried (selected columns rows) = completed (
      ("columns", lib.array (map lib.text columns))
      ∷ ("rows", lib.array rows)
      ∷ ("row_count", lib.number (length rows))
      ∷ [])

  unfoldable pub execute_query : (dsn sql : String) → List V → SqlCtrl D → Handled SubmitResponse
  unfolding get_connection with_connection queried
  execute_query dsn sql params s =
      with_connection (get_connection dsn s)
        (λ conn d. let (q, d') = lib.query conn sql params d in (queried q, d'))

  unfoldable pub written : Result String (V × V) → Result (ProtocolError V) SubmitResponse
  unfolding internal_error
  written (err e) = err (internal_error (format ("SQL exec error: " ∷ e ∷ [])))
  written (ok counts) =
      completed (("affected_rows", counts.0) ∷ ("last_insert_rowid", counts.1) ∷ [])

  unfoldable pub execute_write : (dsn sql : String) → List V → SqlCtrl D → Handled SubmitResponse
  unfolding get_connection with_connection written
  execute_write dsn sql params s =
      with_connection (get_connection dsn s)
        (λ conn d. let (r, d') = lib.execute conn sql params d in (written r, d'))

  unfoldable pub discovered : Discovered V → Result (ProtocolError V) SubmitResponse
  unfolding internal_error
  discovered (discover_error e) = err (internal_error (format ("discover error: " ∷ e ∷ [])))
  discovered (table_info_error e) = err (internal_error (format ("table_info error: " ∷ e ∷ [])))
  discovered (column_error e) = err (internal_error (format ("column info error: " ∷ e ∷ [])))
  discovered (tables infos) = completed (
      ("tables", lib.array infos)
      ∷ ("table_count", lib.number (length infos))
      ∷ ("driver", lib.text "sqlite")
      ∷ [])

  unfoldable pub execute_discover : (dsn : String) → SqlCtrl D → Handled SubmitResponse
  unfolding get_connection with_connection discovered
  execute_discover dsn s =
      with_connection (get_connection dsn s)
        (λ conn d. let (r, d') = lib.discover conn d in (discovered r, d'))

  abbrev missing_sql : String → Result (ProtocolError V) SubmitResponse
  missing_sql action =
      err (invalid_params (format ("missing 'sql' field for " ∷ action ∷ " action" ∷ [])))

  unfoldable pub run_query : String → Option String → List V → SqlCtrl D → Handled SubmitResponse
  unfolding execute_query invalid_params
  run_query dsn none params s = (missing_sql "query", s)
  run_query dsn (some sql) params s = execute_query dsn sql params s

  unfoldable pub run_write : String → Option String → List V → SqlCtrl D → Handled SubmitResponse
  unfolding execute_write invalid_params
  run_write dsn none params s = (missing_sql "exec", s)
  run_write dsn (some sql) params s = execute_write dsn sql params s

  -- The `match` on the action.
  unfoldable pub run_action : SqlParams V → String → SqlCtrl D → Handled SubmitResponse
  unfolding run_query run_write execute_discover invalid_params
  run_action p dsn s =
      if str_eq p.action "query"
      then run_query dsn p.sql p.params s
      else if str_eq p.action "exec"
      then run_write dsn p.sql p.params s
      else if str_eq p.action "discover"
      then execute_discover dsn s
      else (
        err (
            invalid_params (
              format (
                "unknown action: " ∷ p.action ∷ " (expected 'query', 'exec', or 'discover')"
                ∷ []))),
        s,
      )

  unfoldable pub with_dsn :
      SqlParams V → Result (ProtocolError V) String → SqlCtrl D → Handled SubmitResponse
  unfolding run_action
  with_dsn p (ok dsn) s = run_action p dsn s
  with_dsn p (err e) s = (err e, s)

  unfoldable pub submit_read : Result String (SqlParams V) → SqlCtrl D → Handled SubmitResponse
  unfolding with_dsn resolve_dsn invalid_params
  submit_read (err e) s = (err (invalid_params e), s)
  submit_read (ok p) s = with_dsn p (resolve_dsn s.default_dsn p.dsn) s

  unfoldable pub submit : V → SqlCtrl D → Handled SubmitResponse
  unfolding submit_read
  submit params s = submit_read (lib.read_params params) s

  abbrev reported : Option String → Option V → HealthResponse V
  reported none metadata = record {
    status = healthy;
    version = some version;
    error = none;
    metadata = metadata;
  }
  reported (some e) metadata = record {
    status = unhealthy;
    version = some version;
    error = some e;
    metadata = none;
  }

  unfoldable pub pinged : String → Option String → HealthResponse V
  pinged dsn none =
      reported none (some (lib.object (("driver", lib.text "sqlite") ∷ ("dsn", lib.text dsn) ∷ [])))
  pinged dsn (some e) = reported (some (format ("database ping failed: " ∷ e ∷ []))) none

  unfoldable pub health_on : String → Handled ℕ → HealthResponse V × SqlCtrl D
  unfolding pinged error_text
  health_on dsn (err e, s) = (reported (some (error_text e)) none, s)
  health_on dsn (ok conn, s) =
      let (refused, d) = lib.execute_batch conn "SELECT 1" s.databases in
      (pinged dsn refused, record s { databases = d })

  unfoldable pub health_of : Option String → SqlCtrl D → HealthResponse V × SqlCtrl D
  unfolding health_on get_connection
  health_of (some dsn) s = health_on dsn (get_connection dsn s)
  health_of none s = (
    reported none (some (lib.object (("driver", lib.text "sqlite") ∷ ("dsn", lib.null) ∷ []))),
    s,
  )

  -- `impl SidecarHandler for SqlCtrl`
  unfoldable pub sql_handler : SidecarHandler V (SqlCtrl D)
  unfolding health_of submit default_status default_cancel
  sql_handler = record {
    health = λ s. health_of s.default_dsn s;
    submit = submit;
    status = default_status;
    cancel = default_cancel;
  }

-- The arguments after the program: a database and a socket, or the argument that is not known, for
-- which the process ends with code 1.
pub data Arguments : Type 0 where
  start_with : (dsn : Option String) (socket_path : String) → Arguments
  unknown_argument : String → Arguments

unfoldable pub starts_with_dash : String → Bool
starts_with_dash String.[] = false
starts_with_dash (String.◌∷◌ c s) = code c == b'-'

unfoldable pub parse_args : List String → (dsn : Option String) → (socket_path : String) → Arguments
unfolding starts_with_dash
parse_args [] dsn socket_path = start_with dsn socket_path
parse_args (arg ∷ []) dsn socket_path =
    if str_eq arg "--dsn"
    then start_with none socket_path
    else if starts_with_dash arg
    then unknown_argument arg
    else start_with dsn arg
parse_args (arg ∷ value ∷ args) dsn socket_path =
    let after_dsn = parse_args args (some value) socket_path in
    let after_path = parse_args (value ∷ args) dsn arg in
    if str_eq arg "--dsn"
    then after_dsn
    else if starts_with_dash arg
    then unknown_argument arg
    else after_path
