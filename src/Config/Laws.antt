-- ===== src/Config/Laws.antt =====
-- The lints against what the transport needs, and the log of a reload against equality.
use vasal.Prelude.{
  ℕ, String, str_eq, eq_iff, List, [], ◌∷◌, ◌++◌, Bool, true, false, ◌==◌, tests, ==_iff, ◌≡◌, ◌≢◌,
  ◌↔◌, refl, subst, All, All-append, FilePath, not, ◌||◌,
}
use vasal.Config.{
  Config, TransportConfig, TransportMode, poll, grpc, RuntimeConfig, error, warning, ConfigLint,
  lint_if, lint_transport, lint, is_missing, changed, log_config_diff,
}

-- What the transport mode needs: its section.
abbrev pub HasSection : TransportConfig → TransportMode → Type 0
HasSection t poll = is_missing t.poll_section ≡ false
HasSection t grpc = is_missing t.grpc_section ≡ false

abbrev pub IsWarning : ConfigLint → Type 0
IsWarning l = l.severity ≡ warning

All-left : {A : Type 0} (P : A → Type 0) (xs ys : List A) → All P (xs ++ ys) → All P xs × All P ys
All-left P [] ys h = (tt, h)
All-left P (x ∷ xs) ys h = ((h.0, (All-left P xs ys h.1).0), (All-left P xs ys h.1).1)

lint_if-warning : (b : Bool) (message : String) → All IsWarning (lint_if b warning message)
unfolding lint_if
lint_if-warning true message = (refl, tt)
lint_if-warning false message = tt

error≢warning : error ≡ warning → ⊥
error≢warning h = cc

lint_if-error :
    (b : Bool) (message : String) → All IsWarning (lint_if b error message) ↔ (b ≡ false)
unfolding lint_if
lint_if-error true message = (λ h. absurd (error≢warning h.0), λ h. absurd (cc))
lint_if-error false message = (λ h. refl, λ h. tt)

lint_transport-error :
    (t : TransportConfig) (mode : TransportMode)
    → All IsWarning (lint_transport t mode) ↔ HasSection t mode
unfolding lint_transport
lint_transport-error t poll = lint_if-error (is_missing t.poll_section) _
lint_transport-error t grpc = lint_if-error (is_missing t.grpc_section) _

zero-test : (n : ℕ) → ((n == 0) ≡ false) ↔ (n ≢ 0)
zero-test n = grind tests

abbrev lint_auth : Config → List ConfigLint
lint_auth c =
    lint_if (str_eq c.auth.provider "" || str_eq c.auth.provider "none") warning
      "auth disabled, running unauthenticated"

-- No lint is an error exactly where the section of the transport's mode is there and
-- max_concurrent is not 0.
pub lint-errors :
    (exists : FilePath → Bool) (debug : FilePath → String) (c : Config)
    → All IsWarning (lint exists debug c)
      ↔ (HasSection c.transport c.transport.mode × (c.shell.max_concurrent ≢ 0))
unfolding lint
lint-errors exists debug c = (
  (λ h.
      let warned = All-left IsWarning _ (lint_if (str_eq c.heartbeat.endpoint "") warning _) h in
      let shell =
        All-left IsWarning _ (lint_if (not (exists c.agent.data_dir)) warning _) warned.0 in
      let transport =
        All-left IsWarning _ (lint_if (c.shell.max_concurrent == 0) error _) shell.0 in
      let auth = All-left IsWarning _ (lint_transport c.transport c.transport.mode) transport.0 in
      (
        (lint_transport-error c.transport c.transport.mode).0 auth.1,
        (zero-test c.shell.max_concurrent).0 ((lint_if-error _ _).0 transport.1),
      )),
  (λ h.
      All-append IsWarning _ (lint_if (str_eq c.heartbeat.endpoint "") warning _)
        (All-append IsWarning _ (lint_if (not (exists c.agent.data_dir)) warning _)
          (All-append IsWarning _ (lint_if (c.shell.max_concurrent == 0) error _)
            (All-append IsWarning _ (lint_transport c.transport c.transport.mode)
              (lint_if-warning _ _) ((lint_transport-error c.transport c.transport.mode).1 h.0))
            ((lint_if-error _ _).1 ((zero-test c.shell.max_concurrent).1 h.1)))
          (lint_if-warning _ _))
        (lint_if-warning _ _)),
)

-- A log that is empty so far and stays empty: its last field is the same.
changed-none :
    (log : List String) (b : Bool) (name : String)
    → (log ++ changed b name ≡ []) ↔ ((log ≡ []) × (b ≡ true))
unfolding changed
changed-none [] true name = (λ h. (refl, refl), λ h. refl)
changed-none [] false name = (λ h. absurd (cc), λ h. absurd (cc))
changed-none (l ∷ log) b name = (λ h. absurd (cc), λ h. absurd (let e = h.0 in cc))

same : (n : ℕ) → (n == n) ≡ true
same n = (==_iff n n).1 refl

unchanged : (r : RuntimeConfig) → log_config_diff r r ≡ []
unfolding log_config_diff
unchanged r = (changed-none _ _ _).1 (
  (changed-none _ _ _).1 (
    (changed-none _ _ _).1 (
      (changed-none _ _ _).1 (
        (changed-none _ _ _).1 (
          (changed-none [] _ "log_level").1 (refl, (eq_iff r.log_level r.log_level).1 refl),
          same r.max_concurrent,
        ),
        same r.heartbeat_interval_sec,
      ),
      same r.health_check_interval_sec,
    ),
    same r.audit_batch_size,
  ),
  same r.audit_flush_interval_sec,
)

-- A reload logs nothing about the hot-reloadable settings exactly where they are all equal.
pub log_config_diff-equal : (old new : RuntimeConfig) → (log_config_diff old new ≡ []) ↔ (old ≡ new)
unfolding log_config_diff
log_config_diff-equal old new = (
  (λ h.
      let audit = (changed-none _ _ "audit_flush_interval_sec").0 h in
      let batch = (changed-none _ _ "audit_batch_size").0 audit.0 in
      let health = (changed-none _ _ "health_check_interval_sec").0 batch.0 in
      let heartbeat = (changed-none _ _ "heartbeat_interval_sec").0 health.0 in
      let concurrent = (changed-none _ _ "max_concurrent").0 heartbeat.0 in
      let level = (changed-none [] _ "log_level").0 concurrent.0 in
      λ i. record {
        log_level = (eq_iff old.log_level new.log_level).0 level.1 i;
        max_concurrent = (==_iff old.max_concurrent new.max_concurrent).0 concurrent.1 i;
        heartbeat_interval_sec =
            (==_iff old.heartbeat_interval_sec new.heartbeat_interval_sec).0 heartbeat.1 i;
        health_check_interval_sec =
            (==_iff old.health_check_interval_sec new.health_check_interval_sec).0 health.1 i;
        audit_batch_size = (==_iff old.audit_batch_size new.audit_batch_size).0 batch.1 i;
        audit_flush_interval_sec =
            (==_iff old.audit_flush_interval_sec new.audit_flush_interval_sec).0 audit.1 i;
      }),
  (λ h. subst (λ r. log_config_diff old r ≡ []) h (unchanged old)),
)
