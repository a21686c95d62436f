-- ===== src/Auth/Laws.antt =====
-- The tokens: when one is given out, what a refresh keeps, what a save leaves for a load, and when
-- the one-time key goes.
use vasal.Prelude.{
  ℕ, ◌+◌, ◌%◌, ◌^◌, ◌<◌, String, Option, none, some, leb, ◌≡◌, ◌↔◌, refl, sym, ap, ◌∙◌, FilePath,
  arith, if◌then◌else◌,
}
use vasal.Prelude.Results.{Result, ok, err}
use vasal.Codec.{Bytes}
use vasal.Host.{Env, Trace}
use vasal.Host.Act.{World}
use vasal.Host.Attempt
use vasal.Host.Attempt.{Error, Attempt, of_result}
use vasal.Host.Files.{Node, put-here}
use vasal.Host.System.{
  System, read_to_string, read, read_node, gate, set_permissions, chmod_node, write,
}
use vasal.Host.Hoare.{
  Ensures, HasContent, ok≢err, ok-inj, Ensures-bind, any-Ensures, succeed-Ensures,
}
use vasal.Host.Hoare.Success.{write-Ensures}
use vasal.Auth.{
  TokenResponse, PersistedTokens, TokenStore, Provider, from_response, expiry, token_until,
  access_token, refresh_token_of, refreshed, or_old, refresh, request_grant, load, parsed_tokens,
  save, text_of, create_parent, restrict, now_sec,
}

none≢some : {A : Type 0} {a : A} → none ≡ some a → ⊥
none≢some h = cc

-- The comparison that the agent makes.
given :
    (expires later : ℕ) (token : String)
    → ((if leb expires later then none else some token) ≡ some token) ↔ (later < expires)
given expires later token = ground arith

-- A token that expires in so many seconds is given out until 30 seconds before it expires, where
-- the sums of seconds are below 2^64.
pub access_token-margin :
    (got now secs : ℕ) (resp : TokenResponse)
    → resp.expires_in ≡ some secs
    → got + secs < 2 ^ 64
    → now + 30 < 2 ^ 64
    → (access_token now (from_response got resp) ≡ some resp.access_token) ↔ (now + 30 < got + secs)
unfolding access_token from_response expiry token_until
access_token-margin got now secs resp h small small' =
    let later : (now + 30) % 2 ^ 64 ≡ now + 30 = omega arith in
    let expires : (got + secs) % 2 ^ 64 ≡ got + secs = omega arith in
    rw (h, later, expires) (given (got + secs) (now + 30) resp.access_token)

-- A store with a refresh token.
abbrev pub CanRefresh : TokenStore → Type 0
CanRefresh store = (token : String) × (refresh_token_of store ≡ ok token)

refreshed-CanRefresh :
    (now : ℕ) (old : String) (body : TokenResponse) (new : Option String)
    → body.refresh_token ≡ new
    → CanRefresh (refreshed now old body)
unfolding refresh_token_of refreshed or_old
refreshed-CanRefresh now old body none h = (old, rw h refl)
refreshed-CanRefresh now old body (some new) h = (new, rw h refl)

module _ {V : Type 0} (env : Env V) (sys : System V) (provider : Provider V) where
  refresh-Ensures :
      (store : TokenStore) (url : String)
      → Ensures (λ _. Unit) (refresh env sys provider store url) (λ store' _. CanRefresh store')
  unfolding refresh
  refresh-Ensures store url =
      Ensures-bind (λ _ _. Unit) (of_result (refresh_token_of store)) (any-Ensures _)
        (λ old.
          Ensures-bind (λ _ _. Unit) (request_grant env sys provider _ url _) (any-Ensures _)
            (λ body.
              Ensures-bind (λ _ _. Unit) (Attempt.lift (now_sec env sys provider)) (any-Ensures _)
                (λ now.
                  succeed-Ensures CanRefresh (refreshed now old body)
                    (refreshed-CanRefresh now old body body.refresh_token refl))))

  -- A refresh that succeeds leaves a store that can be refreshed again, also where the answer holds
  -- no new refresh token.
  pub refresh-CanRefresh :
      (store store' : TokenStore) (url : String) (w : World V)
      → (refresh env sys provider store url w).0 ≡ ok store'
      → CanRefresh store'
  refresh-CanRefresh store store' url w h = (refresh-Ensures store url).ensured w tt store' h

  -- Setting a mode, done or not, leaves the content.
  chmod_node-content :
      (path : FilePath) (mode : ℕ) (node : Option Node) (bytes : Bytes) (w : World V)
      → w.files path ≡ node
      → HasContent path bytes w
      → HasContent path bytes (chmod_node sys path mode node w).1
  unfolding chmod_node
  chmod_node-content path mode none bytes w e c = absurd (none≢some (sym e ∙ c.content_held))
  chmod_node-content path mode (some n) bytes w e c = record {
    mode = mode;
    content_held =
        put-here path _ w.files
        ∙ ap
            (λ o. elim o as (λ _. Option Node) [
              | none ↦ none
              | some k ↦ some (record k { mode = mode })
            ])
            (sym e ∙ c.content_held);
  }

  gate-content :
      (r : Option String) (path : FilePath) (bytes : Bytes) (refused : World V)
      (done : Result Error (Unit {0}) × World V)
      → HasContent path bytes refused
      → HasContent path bytes done.1
      → HasContent path bytes (gate sys r refused done).1
  unfolding gate
  gate-content none path bytes refused done h h' = h'
  gate-content (some e) path bytes refused done h h' = h

  restrict-content :
      (path : FilePath) (bytes : Bytes) (w : World V)
      → HasContent path bytes w
      → HasContent path bytes (restrict env sys provider path w).1
  unfolding restrict set_permissions
  restrict-content path bytes w c =
      gate-content (sys.refuse_io w.trace) path bytes _ _
        (record { mode = c.mode; content_held = c.content_held })
        (chmod_node-content path 384 (w.files path) bytes w refl c)

  text_of-ok :
      (r : Result String String) (text : String)
      → text_of env sys provider r ≡ ok text
      → r ≡ ok text
  unfolding text_of
  text_of-ok (ok t) text h = ap (λ x. ok x) (ok-inj (ok t) refl h)
  text_of-ok (err e) text h = absurd (ok≢err text _ (sym h))

  -- What a save leaves: the text of the tokens.
  Saved : PersistedTokens → FilePath → String → World V → Type 0
  Saved t path text w = (provider.tokens_text t ≡ ok text) × HasContent path (sys.utf8 text) w

  save-Saved :
      (t : PersistedTokens) (path : FilePath)
      → Ensures
          (λ _. Unit)
          (save env sys provider (some t) path)
          (λ _ w. (text : String) × Saved t path text w)
  unfolding save Saved
  save-Saved t path =
      Ensures-bind (λ text _. provider.tokens_text t ≡ ok text)
        (of_result (text_of env sys provider (provider.tokens_text t)))
        (record { ensured = λ w p text h. text_of-ok (provider.tokens_text t) text h })
        (λ text.
          Ensures-bind (λ _ _. provider.tokens_text t ≡ ok text)
            (create_parent env sys provider (provider.parent path))
            (record { ensured = λ w p a h. p })
            (λ _.
              Ensures-bind
                (λ _ w. (provider.tokens_text t ≡ ok text) × HasContent path (sys.utf8 text) w)
                (write sys path (sys.utf8 text))
                (record {
                  ensured = λ w p a h. (
                    p,
                    (write-Ensures sys (λ _. Unit {0}) path (sys.utf8 text)).ensured w tt a h,
                  );
                })
                (λ _. record {
                  ensured = λ w p a h. (text, (p.0, restrict-content path (sys.utf8 text) w p.1));
                })))

  load-reads :
      (allowed : (t : Trace V) → sys.refuse_io t ≡ none) (t : PersistedTokens) (path : FilePath)
      (text : String) (w : World V)
      → sys.from_utf8 (sys.utf8 text) ≡ ok text
      → provider.parse_tokens text ≡ ok t
      → HasContent path (sys.utf8 text) w
      → (load env sys provider path w).0 ≡ some t
  unfolding load parsed_tokens read_to_string read read_node gate
  load-reads allowed t path text w bytes parses c =
      rw (allowed w.trace, c.content_held, bytes, parses) refl

  -- Tokens that were saved are loaded again, where no operation on a file is refused, and text and
  -- tokens survive being written and read.
  pub load-save :
      ((t : Trace V) → sys.refuse_io t ≡ none)
      → (t : PersistedTokens) (path : FilePath) (w : World V)
      → ((text : String)
          → provider.tokens_text t ≡ ok text
          → sys.from_utf8 (sys.utf8 text) ≡ ok text)
      → ((text : String) → provider.tokens_text t ≡ ok text → provider.parse_tokens text ≡ ok t)
      → (save env sys provider (some t) path w).0 ≡ ok tt
      → (load env sys provider path (save env sys provider (some t) path w).1).0 ≡ some t
  unfolding Saved
  load-save allowed t path w bytes tokens h =
      let saved = (save-Saved t path).ensured w tt tt h in
      load-reads allowed t path saved.0 _ (bytes saved.0 saved.1.0) (tokens saved.0 saved.1.0)
        saved.1.1
