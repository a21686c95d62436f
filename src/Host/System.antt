-- ===== src/Host/System.antt =====
-- What installing and upgrading run on: std::fs, sha2, downloads with reqwest, and programs that
-- change files. What the operating system refuses is a parameter, and so is what it answers.
use vasal.Prelude.{ℕ, String, str_eq, Option, none, some, List, Bool, FilePath, if◌then◌else◌}
use vasal.Prelude.Results.{Result, ok, err}
use vasal.Codec.{Bytes}
use vasal.Protocol.Sidecar.{HealthResponse}
use vasal.Host.Act.{World, Act, happen, ask}
use vasal.Host.Attempt
use vasal.Host.Attempt.{Error, io, http, sha256_mismatch, Attempt, succeed, fail, ◌>>=◌, of_result}
use vasal.Host.Events.{
  Event, FileOp, write_file, copy_file, rename_file, remove_file, read_file, set_mode, create_dir,
  filed, downloaded, ran, started,
}
use vasal.Host.Files.{Node, Files, put, drop_file, mode_or, is_there}

-- What `get(url).send().await` and `bytes().await` give.
pub data Download : Type 0 where
  send_error : String → Download
  bad_status : (status : String) → Download
  body_error : String → Download
  body : Bytes → Download

-- What `timeout(…, Command::output())` gives: the code and the standard error.
pub data Output : Type 0 where
  elapsed : Output
  not_started : String → Output
  finished : (code : Option ℕ) (stderr : Bytes) → Output

-- Which branch of the `select!` between two ticks ran.
pub data Woken : Type 0 where
  cancelled shut_down slept_through : Woken

pub record System (V : Type 0) : Type 0 where
  -- why the next operation on a file is refused, and what a refused write leaves in its file
  pub refuse_io : List (Event V) → Option String
  pub torn : List (Event V) → Option Bytes
  pub not_found : String
  pub created_mode : ℕ
  pub download : List (Event V) → String → Download
  pub sha256_hex : Bytes → String
  pub current_exe : Result String FilePath
  -- text and bytes
  pub utf8 : String → Bytes
  pub from_utf8 : Bytes → Result String String
  -- a program that is waited for: its exit code, and the files after it
  pub run : List (Event V) → String → List String → Result String (Option ℕ)
  pub run_files : List (Event V) → String → List String → Files → Files
  -- `/bin/sh -c` with a script, for at most so many milliseconds
  pub output : List (Event V) → String → ℕ → Output
  -- whether the agent is shut down before a sleep of so many milliseconds ends
  pub shut_down_in_sleep : List (Event V) → ℕ → Bool
  -- how a sleep of so many milliseconds between two ticks ends
  pub select_tick : List (Event V) → ℕ → Woken
  -- `str::to_lowercase`, `str::trim`
  pub lower : String → String
  pub trim : String → String
  -- serde_json
  pub as_u64 : V → Option ℕ
  pub read_health : V → Result String (HealthResponse V)
  -- a program left running: its pid
  pub start : List (Event V) → String → List String → Result String (Option ℕ)

module _ {V : Type 0} (sys : System V) where
  -- The files after an operation, and the operation recorded.
  abbrev filed_as : FileOp → FilePath → Files → World V → World V
  filed_as op path files w = record (happen (filed op path) w) { files = files }

  unfoldable pub torn_files : FilePath → World V → Option Bytes → Files
  unfolding put mode_or
  torn_files path w none = w.files
  torn_files path w (some bytes) =
      put path (record { content = bytes; mode = mode_or sys.created_mode (w.files path) }) w.files

  -- A refused operation is its error, and leaves `refused`.
  unfoldable pub gate :
      {A : Type 0} → Option String → World V → Result Error A × World V → Result Error A × World V
  gate (some e) refused done = (err (io e), refused)
  gate none refused done = done

  -- `std::fs::write`
  unfoldable pub write : FilePath → Bytes → Attempt V (Unit {0})
  unfolding put mode_or gate torn_files
  write path bytes w =
      gate (sys.refuse_io w.trace)
        (filed_as write_file path (torn_files path w (sys.torn w.trace)) w)
        (
          ok tt,
          filed_as write_file path
              (put path (record { content = bytes; mode = mode_or sys.created_mode (w.files path) })
                w.files)
              w,
        )

  unfoldable pub copy_node : FilePath → Option Node → Attempt V (Unit {0})
  unfolding put
  copy_node to none w = (err (io sys.not_found), filed_as copy_file to w.files w)
  copy_node to (some node) w = (ok tt, filed_as copy_file to (put to node w.files) w)

  -- `std::fs::copy`: the content and the mode
  unfoldable pub copy : (from to : FilePath) → Attempt V (Unit {0})
  unfolding gate copy_node torn_files
  copy from to w =
      gate (sys.refuse_io w.trace) (filed_as copy_file to (torn_files to w (sys.torn w.trace)) w)
        (copy_node to (w.files from) w)

  unfoldable pub rename_node : (from to : FilePath) → Option Node → Attempt V (Unit {0})
  unfolding put drop_file
  rename_node from to none w = (err (io sys.not_found), filed_as rename_file to w.files w)
  rename_node from to (some node) w =
      (ok tt, filed_as rename_file to (put to node (drop_file from w.files)) w)

  -- `std::fs::rename`: whole or not at all
  unfoldable pub rename : (from to : FilePath) → Attempt V (Unit {0})
  unfolding gate rename_node
  rename from to w =
      gate (sys.refuse_io w.trace) (filed_as rename_file to w.files w)
        (rename_node from to (w.files from) w)

  -- `std::fs::remove_file`
  unfoldable pub remove : FilePath → Attempt V (Unit {0})
  unfolding gate drop_file
  remove path w = gate (sys.refuse_io w.trace) (filed_as remove_file path w.files w) (
    if is_there (w.files path) then ok tt else err (io sys.not_found),
    filed_as remove_file path (drop_file path w.files) w,
  )

  unfoldable pub read_node : FilePath → Option Node → Attempt V Bytes
  read_node path none w = (err (io sys.not_found), filed_as read_file path w.files w)
  read_node path (some node) w = (ok node.content, filed_as read_file path w.files w)

  unfoldable pub read : FilePath → Attempt V Bytes
  unfolding gate read_node
  read path w =
      gate (sys.refuse_io w.trace) (filed_as read_file path w.files w)
        (read_node path (w.files path) w)

  -- `std::fs::read_to_string`
  unfoldable pub read_to_string : FilePath → Attempt V String
  unfolding read
  read_to_string path = do bytes ← read path; of_result (Attempt.io_text (sys.from_utf8 bytes))

  unfoldable pub chmod_node : FilePath → ℕ → Option Node → Attempt V (Unit {0})
  unfolding put
  chmod_node path mode none w = (err (io sys.not_found), filed_as set_mode path w.files w)
  chmod_node path mode (some node) w =
      (ok tt, filed_as set_mode path (put path (record node { mode = mode }) w.files) w)

  -- `std::fs::set_permissions`
  unfoldable pub set_permissions : FilePath → ℕ → Attempt V (Unit {0})
  unfolding gate chmod_node
  set_permissions path mode w =
      gate (sys.refuse_io w.trace) (filed_as set_mode path w.files w)
        (chmod_node path mode (w.files path) w)

  -- `std::fs::create_dir_all`
  unfoldable pub create_dir_all : FilePath → Attempt V (Unit {0})
  unfolding gate
  create_dir_all path w =
      gate (sys.refuse_io w.trace) (filed_as create_dir path w.files w)
        (ok tt, filed_as create_dir path w.files w)

  -- `Path::exists`
  abbrev pub exists : FilePath → Act V Bool
  exists path w = (is_there (w.files path), w)

  -- `Command::new(program).args(…).status().await`
  unfoldable pub status : String → List String → Attempt V (Option ℕ)
  status program arguments w = (
    Attempt.io_text (sys.run w.trace program arguments),
    record (happen (ran program arguments) w) {
      files = sys.run_files w.trace program arguments w.files;
    },
  )

  -- `Command::new(program).args(…).spawn()`
  unfoldable pub spawn : String → List String → Attempt V (Option ℕ)
  spawn program arguments =
      ask (λ t. Attempt.io_text (sys.start t program arguments)) (started program arguments)

  unfoldable pub downloaded_bytes : (String → Error) → Download → Result Error Bytes
  downloaded_bytes refused (send_error e) = err (http e)
  downloaded_bytes refused (bad_status s) = err (refused s)
  downloaded_bytes refused (body_error e) = err (http e)
  downloaded_bytes refused (body bytes) = ok bytes

  unfoldable pub verified : String → Bytes → Result Error Bytes
  verified expected bytes =
      if str_eq (sys.sha256_hex bytes) expected
      then ok bytes
      else err (sha256_mismatch expected (sys.sha256_hex bytes))

  -- `http_client.get(url).send().await?`, the test of its status, and its bytes
  unfoldable pub fetch : (String → Error) → String → Attempt V Bytes
  unfolding downloaded_bytes
  fetch refused url = do
    answer ← Attempt.lift (ask (λ t. sys.download t url) (downloaded url))
    of_result (downloaded_bytes refused answer)

  -- The download whose digest is tested before anything is done with it.
  unfoldable pub fetch_verified : (String → Error) → (url expected : String) → Attempt V Bytes
  unfolding fetch verified
  fetch_verified refused url expected = do
    bytes ← fetch refused url
    of_result (verified expected bytes)
