-- ===== src/Agent/Laws.antt =====
-- The published settings follow the configuration, and the transport needs its section.
use vasal.Prelude.{
  String, Option, none, some, Bool, true, false, ◌≡◌, ◌≢◌, ◌↔◌, refl, ◌∙◌, FilePath, All, arith,
}
use vasal.Prelude.Results.{Result, ok, err}
use vasal.Config.{
  Config, RuntimeConfig, runtime, log_config_diff, changed, TransportConfig, TransportMode, poll,
  grpc, is_missing, lint, PollConfig, GrpcConfig,
}
use vasal.Config.Laws.{log_config_diff-equal, HasSection, IsWarning, lint-errors}
use vasal.Host.Attempt.{Error}
use vasal.Agent.{
  Settings, differs, publish, reload, Chosen, poll_section, grpc_section, select_mode,
  select_transport,
}

-- What the tasks read is the hot-reloadable part of the configuration.
pub record IsPublished (s : Settings) : Type 0 where
  pub in_step : s.published ≡ runtime s.full_config

same-runtime : (old new : RuntimeConfig) → differs old new ≡ false → old ≡ new
unfolding differs log_config_diff
same-runtime old new h = (log_config_diff-equal old new).0 (ground (arith, changed))

publish-IsPublished :
    (changed : Bool) (new : Config) (s : Settings)
    → differs (runtime s.full_config) (runtime new) ≡ changed
    → IsPublished s
    → IsPublished (publish changed s.full_config new s)
unfolding publish differs
publish-IsPublished true new s e p = record { in_step = refl }
publish-IsPublished false new s e p = record {
  in_step = p.in_step ∙ same-runtime (runtime s.full_config) (runtime new) e;
}

-- A reload, of a file that parses or of one that does not, keeps what the tasks read equal to the
-- hot-reloadable part of the configuration.
pub reload-IsPublished :
    (loaded : Result Error Config) (s : Settings) → IsPublished s → IsPublished (reload loaded s)
unfolding reload
reload-IsPublished (ok new) s p =
    publish-IsPublished (differs (runtime s.full_config) (runtime new)) new s refl p
reload-IsPublished (err e) s p = p

abbrev pub IsChosen : Result Error Chosen → Type 0
IsChosen (ok c) = Unit
IsChosen (err e) = ⊥

poll-section : (o : Option PollConfig) → IsChosen (poll_section o) ↔ (is_missing o ≡ false)
unfolding poll_section
poll-section none = (λ h. absurd h, λ h. absurd (cc))
poll-section (some p) = (λ h. refl, λ h. tt)

grpc-section :
    (agent_id version : String) (o : Option GrpcConfig)
    → IsChosen (grpc_section agent_id version o) ↔ (is_missing o ≡ false)
unfolding grpc_section
grpc-section agent_id version none = (λ h. absurd h, λ h. absurd (cc))
grpc-section agent_id version (some g) = (λ h. refl, λ h. tt)

select_mode-section :
    (agent_id version : String) (t : TransportConfig) (mode : TransportMode)
    → IsChosen (select_mode agent_id version t mode) ↔ HasSection t mode
unfolding select_mode
select_mode-section agent_id version t poll = poll-section t.poll_section
select_mode-section agent_id version t grpc = grpc-section agent_id version t.grpc_section

-- The lints of a configuration hold no error exactly where the agent starts with a transport and
-- may run a task.
pub lint-select_transport :
    (exists : FilePath → Bool) (debug : FilePath → String) (agent_id version : String) (c : Config)
    → All IsWarning (lint exists debug c)
      ↔ (IsChosen (select_transport agent_id version c.transport) × (c.shell.max_concurrent ≢ 0))
unfolding select_transport
lint-select_transport exists debug agent_id version c =
    let section = select_mode-section agent_id version c.transport c.transport.mode in
    let errors = lint-errors exists debug c in
    ((λ h. (section.1 (errors.0 h).0, (errors.0 h).1)), (λ h. errors.1 (section.0 h.0, h.1)))
