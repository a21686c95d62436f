-- ===== src/Exec/Trace/Answers.antt =====
-- Hosts on which every call to a sidecar is answered and the output of every child is closed: there
-- no call stays without an answer. The code waits for both without a limit.
use vasal.Prelude.{
  String, false, Option, none, some, List, [], ◌∷◌, FilePath, ℕ, ◌≡◌, ◌≢◌, refl, inl, inr,
  Option-cases,
}
use vasal.Prelude.Int.{pos}
use vasal.Prelude.Results.{Result, ok, err, map_err}
use vasal.Protocol.JsonRpc.{Response, integer, new_request}
use vasal.Protocol.Credential.{
  CredentialRef, ResolveMode, eager, lazy, CredentialProvider, http, sidecar,
}
use vasal.Codec
use vasal.Codec.{Bytes, encode}
use vasal.Host.{
  Env, Trace, Reply, never_answered, send_failed, closed, read_failed, frame, ChildEnd, HttpReply,
  send_error, bad_status, body_error, body,
}
use vasal.Host.Act.{World}
use vasal.Host.Attempt
use vasal.Host.Attempt.{Error, Attempt, json, of_result, is_unanswered}
use vasal.Exec.Call
use vasal.Exec.Call.{connection, received, open_connection, exchange_frames, call_raw}
use vasal.Exec.Credentials.{
  ResolvedCredentials, put, from_http, provider_error, from_sidecar, resolve_http, resolve_sidecar,
  resolve_one, resolve_from, resolve_eager,
}

pub record Answers {V : Type 0} (env : Env V) : Type 0 where
  pub answers :
      (t : Trace V) (path : FilePath) (bytes : Bytes) → env.exchange t path bytes ≢ never_answered
  pub closes : (t : Trace V) (ms : ℕ) → env.wait t ms ≢ ChildEnd.left_open

abbrev pub IsAnswered : {A : Type 0} → Result Error A → Type 0
IsAnswered (ok a) = Unit
IsAnswered (err e) = is_unanswered e ≡ false

record Answered {V A : Type 0} (m : Attempt V A) : Type 0 where
  pub answered : (w : World V) → IsAnswered (m w).0

received-IsAnswered : (r : Reply) → r ≢ never_answered → IsAnswered (received r)
unfolding received is_unanswered Call.send_error
received-IsAnswered never_answered h = absurd (h refl)
received-IsAnswered (send_failed e) h = refl
received-IsAnswered closed h = refl
received-IsAnswered (read_failed e) h = refl
received-IsAnswered (frame bytes) h = tt

connection-IsAnswered : (path : FilePath) (o : Option String) → IsAnswered (connection path o)
unfolding connection is_unanswered
connection-IsAnswered path none = tt
connection-IsAnswered path (some e) = refl

json-IsAnswered : {A : Type 0} (r : Result String A) → IsAnswered (map_err json r)
unfolding is_unanswered
json-IsAnswered (ok a) = tt
json-IsAnswered (err e) = refl

sent-IsAnswered : {A : Type 0} (r : Result String A) → IsAnswered (map_err Call.send_error r)
unfolding is_unanswered Call.send_error
sent-IsAnswered (ok a) = tt
sent-IsAnswered (err e) = refl

module _ {V : Type 0} where
  continue-IsAnswered :
      {A B : Type 0} (m : Result Error A × World V) (f : A → Attempt V B)
      → IsAnswered m.0
      → ((a : A) → Answered (f a))
      → IsAnswered (Attempt.continue m.0 f m.1).0
  continue-IsAnswered (ok a, w) f h k = (k a).answered w
  continue-IsAnswered (err e, w) f h k = h

  bind-Answered :
      {A B : Type 0} {f : A → Attempt V B} (m : Attempt V A)
      → Answered m
      → ((a : A) → Answered (f a))
      → Answered (Attempt.◌>>=◌ m f)
  bind-Answered {f} m h k = record { answered = λ w. continue-IsAnswered (m w) f (h.answered w) k }

module _ {V : Type 0} (env : Env V) (host : Answers env) where
  call_raw-Answered :
      (path : FilePath) (method : String) (params : Option V)
      → Answered (call_raw env path method params)
  unfolding call_raw open_connection exchange_frames
  call_raw-Answered path method params =
      bind-Answered (open_connection env path)
        (record { answered = λ w. connection-IsAnswered path (env.connect w.trace path) })
        λ _.
          bind-Answered
            (of_result
              (map_err json (env.encode_request (new_request method params (integer (pos 1))))))
            (record { answered = λ w. json-IsAnswered _ })
            λ payload.
              bind-Answered (of_result (map_err Call.send_error (encode Codec.new payload []).0))
                (record { answered = λ w. sent-IsAnswered _ })
                λ _.
                  bind-Answered (exchange_frames env path payload)
                    (record {
                      answered = λ w.
                          received-IsAnswered (env.exchange w.trace path payload)
                            (host.answers w.trace path payload);
                    })
                    λ reply. record { answered = λ w. json-IsAnswered _ }

  -- A call comes back.
  pub call_raw-IsAnswered :
      (path : FilePath) (method : String) (params : Option V) (w : World V)
      → IsAnswered (call_raw env path method params w).0
  call_raw-IsAnswered path method params w = (call_raw-Answered path method params).answered w

  from_http-IsAnswered : (r : HttpReply) → IsAnswered (from_http env r)
  unfolding from_http is_unanswered
  from_http-IsAnswered (send_error e) = refl
  from_http-IsAnswered (bad_status status) = refl
  from_http-IsAnswered (body_error e) = refl
  from_http-IsAnswered (body text) = tt

  from_sidecar-IsAnswered : (r : Response V) → IsAnswered (from_sidecar env r)
  unfolding from_sidecar provider_error is_unanswered
  from_sidecar-IsAnswered r = elim (Option-cases r.result) [
    | inl p ↦ rw p (elim (Option-cases r.error) [ inl q ↦ rw q refl | inr (e, q) ↦ rw q refl ])
    | inr (v, p) ↦ rw p tt
  ]

  provider-Answered :
      (c : CredentialRef V) (socket_dir : FilePath) (p : CredentialProvider)
      → c.provider ≡ p
      → Answered (resolve_one env c socket_dir)
  unfolding resolve_one resolve_http resolve_sidecar
  provider-Answered c socket_dir (http endpoint) e =
      rw e (record { answered = λ w. from_http-IsAnswered _ })
  provider-Answered c socket_dir (sidecar endpoint method) e = rw e (
      bind-Answered (call_raw env _ method _) (call_raw-Answered _ method _)
        λ response. record { answered = λ w. from_sidecar-IsAnswered response })

  mode-Answered :
      (c : CredentialRef V) (refs : List (CredentialRef V)) (creds : ResolvedCredentials)
      (socket_dir : FilePath) (m : ResolveMode)
      → c.resolve ≡ m
      → ((more : ResolvedCredentials) → Answered (resolve_from env more refs socket_dir))
      → Answered (resolve_from env creds (c ∷ refs) socket_dir)
  unfolding resolve_from
  mode-Answered c refs creds socket_dir lazy e k = rw e (k creds)
  mode-Answered c refs creds socket_dir eager e k = rw e (
      bind-Answered (resolve_one env c socket_dir) (provider-Answered c socket_dir c.provider refl)
        λ value. k (put c.name value creds))

  resolve_from-Answered :
      (creds : ResolvedCredentials) (refs : List (CredentialRef V)) (socket_dir : FilePath)
      → Answered (resolve_from env creds refs socket_dir)
  unfolding resolve_from
  resolve_from-Answered creds [] socket_dir = record { answered = λ w. tt }
  resolve_from-Answered creds (c ∷ refs) socket_dir =
      mode-Answered c refs creds socket_dir c.resolve refl
        (λ more. resolve_from-Answered more refs socket_dir)

  -- So does the resolution of credentials.
  pub resolve_eager-IsAnswered :
      (refs : List (CredentialRef V)) (socket_dir : FilePath) (w : World V)
      → IsAnswered (resolve_eager env refs socket_dir w).0
  unfolding resolve_eager
  resolve_eager-IsAnswered refs socket_dir w = (resolve_from-Answered [] refs socket_dir).answered w
