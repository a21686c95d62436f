-- ===== src/Auth.antt =====
-- crates/vasal-core/src/auth.rs: the tokens, their refresh, and the bootstrap from a one-time key.
-- serde_json and toml on what is read and written are parameters. Times are seconds since 1970.
pub mod Laws
use vasal.Prelude.{
  ℕ, ◌+◌, ◌/◌, ◌%◌, ◌^◌, String, Option, none, some, List, [], ◌∷◌, Bool, true, false, leb,
  FilePath, format, join, if◌then◌else◌,
}
use vasal.Prelude.Results.{Result, ok, err}
use vasal.Host.{Env}
use vasal.Host.Events.{Event, posted}
use vasal.Host.Act
use vasal.Host.Act.{Act, World, observe, ask}
use vasal.Host.Attempt
use vasal.Host.Attempt.{Error, io, http, json, auth, error_text, Attempt, of_result, ◌>>=◌, ◌>>◌}
use vasal.Host.System.{
  System, read_to_string, create_dir_all, write, set_permissions, remove, exists,
}

pub record TokenResponse : Type 0 where
  pub access_token : String
  pub refresh_token : Option String
  pub expires_in : Option ℕ
  pub token_type : Option String

pub record PersistedTokens : Type 0 where
  pub access_token : String
  pub refresh_token : Option String
  pub expires_at : Option ℕ

-- What is inside the lock of a `TokenStore`, and an `AuthManager`.
abbrev pub TokenStore : Type 0
TokenStore = Option PersistedTokens

abbrev pub empty : TokenStore
empty = none

-- The answer of the token endpoint: its status, and its body read as a `TokenResponse`.
pub data TokenReply : Type 0 where
  send_error : String → TokenReply
  bad_status : (status : String) → TokenReply
  body_error : String → TokenReply
  tokens : TokenResponse → TokenReply

pub record Provider (V : Type 0) : Type 0 where
  pub grant : List (Event V) → (url : String) → V → TokenReply
  pub tokens_text : PersistedTokens → Result String String
  pub parse_tokens : String → Result String PersistedTokens
  -- the key of a bootstrap configuration
  pub parse_key : String → Result String String
  pub parent : FilePath → Option FilePath

-- The text of an I/O error, without the prefix of `crate::Error`.
unfoldable pub io_text_of : Error → String
unfolding error_text
io_text_of (io e) = e
io_text_of e = error_text e

unfoldable pub granted : (String → Error) → TokenReply → Result Error TokenResponse
granted refused (send_error e) = err (http e)
granted refused (bad_status status) = err (refused status)
granted refused (body_error e) = err (http e)
granted refused (tokens resp) = ok resp

-- `resp.expires_in.map(|secs| now + secs)`
unfoldable pub expiry : ℕ → Option ℕ → Option ℕ
expiry now none = none
expiry now (some secs) = some ((now + secs) % 2 ^ 64)

unfoldable pub from_response : (now : ℕ) → TokenResponse → TokenStore
unfolding expiry
from_response now resp = some (record {
  access_token = resp.access_token;
  refresh_token = resp.refresh_token;
  expires_at = expiry now resp.expires_in;
})

-- A token is withheld from 30 seconds before it expires.
unfoldable pub token_until : (now : ℕ) → String → Option ℕ → Option String
token_until now token none = some token
token_until now token (some expires_at) =
    if leb expires_at ((now + 30) % 2 ^ 64) then none else some token

unfoldable pub access_token : (now : ℕ) → TokenStore → Option String
unfolding token_until
access_token now none = none
access_token now (some t) = token_until now t.access_token t.expires_at

unfoldable pub refresh_token_of : TokenStore → Result Error String
refresh_token_of none = err (auth "no refresh token available")
refresh_token_of (some t) = elim t.refresh_token [
  | none ↦ err (auth "no refresh token available")
  | some token ↦ ok token
]

-- `new.or(Some(old))`
unfoldable pub or_old : Option String → String → Option String
or_old none old = some old
or_old (some new) old = some new

unfoldable pub refreshed : (now : ℕ) → (old : String) → TokenResponse → TokenStore
unfolding expiry or_old
refreshed now old body = some (record {
  access_token = body.access_token;
  refresh_token = or_old body.refresh_token old;
  expires_at = expiry now body.expires_in;
})

module _ {V : Type 0} (env : Env V) (sys : System V) (provider : Provider V) where
  -- `SystemTime::now()` in seconds
  abbrev pub now_sec : Act V ℕ
  now_sec = observe (λ t. env.wall_ms t / 1000)

  unfoldable pub parsed_tokens : Result Error String → TokenStore
  parsed_tokens (err _) = none
  parsed_tokens (ok content) = elim (provider.parse_tokens content) as (λ _. TokenStore) [
    | ok t ↦ some t
    | err _ ↦ none
  ]

  -- None where the file cannot be read or parsed.
  unfoldable pub load : FilePath → Act V TokenStore
  unfolding read_to_string parsed_tokens
  load path w = let (content, w') = read_to_string sys path w in (parsed_tokens content, w')

  unfoldable pub text_of : Result String String → Result Error String
  text_of (ok text) = ok text
  text_of (err e) = err (json e)

  unfoldable pub create_parent : Option FilePath → Attempt V (Unit {0})
  unfolding create_dir_all
  create_parent none = Attempt.succeed tt
  create_parent (some parent) = create_dir_all sys parent

  -- A file whose mode cannot be set is logged, and no more.
  unfoldable pub restrict : FilePath → Act V (Unit {0})
  unfolding set_permissions
  restrict path w = (tt, (set_permissions sys path 384 w).1)

  unfoldable pub save : TokenStore → FilePath → Attempt V (Unit {0})
  unfolding text_of create_parent write restrict
  save none path = Attempt.succeed tt
  save (some t) path = do
    text ← of_result (text_of (provider.tokens_text t))
    create_parent (provider.parent path)
    write sys path (sys.utf8 text)
    Attempt.lift (restrict path)

  abbrev grant_json : (grant_type field value : String) → V
  grant_json grant_type field value =
      env.object (("grant_type", env.text grant_type) ∷ (field, env.text value) ∷ [])

  abbrev refresh_refused : String → Error
  refresh_refused status = auth (format ("token refresh returned HTTP " ∷ status ∷ []))

  abbrev bootstrap_refused : String → Error
  bootstrap_refused status = auth (format ("bootstrap auth returned HTTP " ∷ status ∷ []))

  unfoldable pub request_grant : (String → Error) → (url : String) → V → Attempt V TokenResponse
  unfolding granted
  request_grant refused url payload = do
    reply ← Attempt.lift (ask (λ t. provider.grant t url payload) (posted url (some payload)))
    of_result (granted refused reply)

  -- The tokens that replace those of the store; an error leaves the store as it is.
  unfoldable pub refresh : TokenStore → (url : String) → Attempt V TokenStore
  unfolding refresh_token_of request_grant refreshed
  refresh store url = do
    old ← of_result (refresh_token_of store)
    body ← request_grant refresh_refused url (grant_json "refresh_token" "refresh_token" old)
    now ← Attempt.lift now_sec
    Attempt.succeed (refreshed now old body)

  unfoldable pub readable : FilePath → Result Error String → Result Error String
  unfolding io_text_of
  readable path (ok content) = ok content
  readable path (err e) =
      err (auth (format ("failed to read bootstrap config " ∷ path ∷ ": " ∷ io_text_of e ∷ [])))

  unfoldable pub key_of : Result String String → Result Error String
  key_of (ok key) = ok key
  key_of (err e) = err (auth (format ("failed to parse bootstrap config: " ∷ e ∷ [])))

  unfoldable pub bootstrap : (bootstrap_path : FilePath) → (url : String) → Attempt V TokenStore
  unfolding read_to_string readable key_of request_grant from_response
  bootstrap bootstrap_path url w =
      let (read, w') = read_to_string sys bootstrap_path w in
      (do
        content ← of_result (readable bootstrap_path read)
        key ← of_result (key_of (provider.parse_key content))
        body ← request_grant bootstrap_refused url (grant_json "one_time_key" "key" key)
        now ← Attempt.lift now_sec
        Attempt.succeed (from_response now body))
        w'

  -- The one-time key, removed after the tokens are saved; a failure to remove it is logged.
  unfoldable pub discard : FilePath → Act V (Unit {0})
  unfolding remove
  discard path w = (tt, (remove sys path w).1)

  unfoldable pub parent_or_etc : Option FilePath → FilePath
  parent_or_etc none = "/etc/vasal"
  parent_or_etc (some dir) = dir

  unfoldable pub bootstrap_if :
      Bool → (token_file bootstrap_path : FilePath) → (url : String) → Attempt V TokenStore
  unfolding bootstrap save discard
  bootstrap_if false token_file bootstrap_path url = Attempt.succeed empty
  bootstrap_if true token_file bootstrap_path url = do
    store ← bootstrap bootstrap_path url
    save store token_file
    Attempt.lift (discard bootstrap_path)
    Attempt.succeed store

  unfoldable pub init_with :
      TokenStore → (token_file : FilePath) → (url : String) → Attempt V TokenStore
  unfolding bootstrap_if parent_or_etc join
  init_with (some t) token_file url = Attempt.succeed (some t)
  init_with none token_file url = do
    let bootstrap_path = join (parent_or_etc (provider.parent token_file)) "onetimeauth.toml"
    there ← Attempt.lift (exists sys bootstrap_path)
    bootstrap_if there token_file bootstrap_path url

  unfoldable pub init : (token_file : FilePath) → (url : String) → Attempt V TokenStore
  unfolding load init_with
  init token_file url = do stored ← Attempt.lift (load token_file); init_with stored token_file url
