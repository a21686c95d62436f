-- ===== src/Exec/Credentials.antt =====
-- crates/vasal-core/src/credential.rs: resolving the eager credentials of a task, and handing on
-- the lazy ones.
pub mod Laws
use vasal.Prelude.{
  String, str_eq, Option, none, some, List, [], ◌∷◌, Bool, true, false, FilePath, format, join,
  if◌then◌else◌,
}
use vasal.Prelude.Int.{int_text}
use vasal.Prelude.Results.{Result, ok, err}
use vasal.Protocol.JsonRpc.{Response, ErrorObject}
use vasal.Protocol.Credential.{
  ResolveMode, eager, lazy, CredentialProvider, http, sidecar, CredentialRef,
}
use vasal.Host.{Env, HttpReply, send_error, bad_status, body_error, body}
use vasal.Host.Events.{posted}
use vasal.Host.Act.{happen}
use vasal.Host.Attempt.{Error, auth, Attempt, succeed, of_result, ◌>>=◌}
use vasal.Host.Attempt
use vasal.Exec.Call.{call_raw}

abbrev pub ResolvedCredentials : Type 0
ResolvedCredentials = List (String × String)

-- `HashMap::insert`
unfoldable pub put : String → String → ResolvedCredentials → ResolvedCredentials
put name value [] = (name, value) ∷ []
put name value ((n, v) ∷ creds) =
    if str_eq n name then (name, value) ∷ creds else (n, v) ∷ put name value creds

unfoldable pub is_lazy : ResolveMode → Bool
is_lazy lazy = true
is_lazy eager = false

module _ {V : Type 0} (env : Env V) where
  -- `v.get("value").and_then(|v| v.as_str())`
  unfoldable pub text_at : V → String → Option String
  text_at v key = elim (env.get v key) [ none ↦ none | some field ↦ env.as_str field ]

  unfoldable pub value_or_body : String → Result String V → String
  unfolding text_at
  value_or_body text (err _) = text
  value_or_body text (ok v) = elim (text_at v "value") [ none ↦ text | some value ↦ value ]

  unfoldable pub from_http : HttpReply → Result Error String
  unfolding value_or_body
  from_http (send_error e) = err (Error.http e)
  from_http (bad_status status) =
      err (auth (format ("credential provider returned HTTP " ∷ status ∷ [])))
  from_http (body_error e) = err (Error.http e)
  from_http (body text) = ok (value_or_body text (env.parse_json text))

  unfoldable pub resolve_http : String → Option V → Attempt V String
  unfolding from_http
  resolve_http endpoint params w =
      (from_http (env.post w.trace endpoint params), happen (posted endpoint params) w)

  unfoldable pub value_or_text : V → String
  unfolding text_at
  value_or_text v = elim (text_at v "value") [ none ↦ env.json_text v | some value ↦ value ]

  unfoldable pub provider_error : Option (ErrorObject V) → Error
  unfolding int_text
  provider_error none = auth "credential sidecar returned empty response"
  provider_error (some e) =
      auth (format ("credential sidecar error: [" ∷ int_text e.code ∷ "] " ∷ e.message ∷ []))

  unfoldable pub from_sidecar : Response V → Result Error String
  unfolding value_or_text provider_error
  from_sidecar response = elim response.result [
    | some result ↦ ok (value_or_text result)
    | none ↦ err (provider_error response.error)
  ]

  unfoldable pub resolve_sidecar : String → String → Option V → FilePath → Attempt V String
  unfolding join call_raw from_sidecar
  resolve_sidecar name method params socket_dir = do
    response ←
        call_raw env (join socket_dir (format (name ∷ ".sock" ∷ []))) method
          (some (elim params [ none ↦ env.null | some p ↦ p ]))
    of_result (from_sidecar response)

  unfoldable pub resolve_one : CredentialRef V → FilePath → Attempt V String
  unfolding resolve_http resolve_sidecar
  resolve_one c socket_dir = elim c.provider [
    | http endpoint ↦ resolve_http endpoint c.params
    | sidecar endpoint method ↦ resolve_sidecar endpoint method c.params socket_dir
  ]

  unfoldable pub resolve_from :
      ResolvedCredentials → List (CredentialRef V) → FilePath → Attempt V ResolvedCredentials
  unfolding is_lazy put resolve_one
  resolve_from creds [] socket_dir = succeed creds
  resolve_from creds (c ∷ refs) socket_dir = elim c.resolve [
    | lazy ↦ resolve_from creds refs socket_dir
    | eager ↦
        (resolve_one c socket_dir >>= λ value.
        resolve_from (put c.name value creds) refs socket_dir)
  ]

  unfoldable pub resolve_eager : List (CredentialRef V) → FilePath → Attempt V ResolvedCredentials
  unfolding resolve_from
  resolve_eager refs socket_dir = resolve_from [] refs socket_dir

  unfoldable pub lazy_references : List (CredentialRef V) → List (CredentialRef V)
  unfolding is_lazy
  lazy_references [] = []
  lazy_references (c ∷ refs) =
      let rest = lazy_references refs in if is_lazy c.resolve then c ∷ rest else rest

  json_or_null : Result String V → V
  json_or_null (ok v) = v
  json_or_null (err _) = env.null

  unfoldable pub lazy_credentials_as_json : List (CredentialRef V) → V
  unfolding lazy_references json_or_null
  lazy_credentials_as_json refs = elim (lazy_references refs) [
    | [] ↦ env.null
    | c ∷ more ↦ json_or_null (env.references_json (c ∷ more))
  ]
