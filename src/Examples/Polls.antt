-- ===== src/Examples/Polls.antt =====
-- A polled task and credentials on concrete input.
use vasal.Host.{Env, never_answered}
use vasal.Exec.Sidecar
use vasal.Exec.Shell
use vasal.Exec.Shell.Laws.{Succeeds, RanWell, execute-success}
use vasal.Prelude.{refl, ◌↔◌, String, none, List, [], ◌∷◌, arith}
use vasal.Protocol.Task.{ExecTask, Executor}
use vasal.Protocol.Credential.{CredentialRef, eager, lazy, http}
use vasal.Exec.Sidecar.{poll_until_complete, poll_fuel}
use vasal.Exec.Credentials.{resolve_eager, text_at}
use vasal.Exec.Credentials.Laws.{HasAll, resolve_eager-HasAll, eager_references}
use vasal.Exec.Trace.Ends.{Returns, poll-Returns}
use vasal.Examples.{host, host-Clock, host-Answers, world, script, clock_of}

-- The sidecar of the example host runs this task for ever.
abbrev endless : ExecTask String
endless = record (script 5 "") { executor = Executor.sidecar; timeout_ms = 350 }

poll-Returns_example :
    Returns (poll_until_complete host 5 "/run/unknown.sock" 350 0 (poll_fuel 350) "a" 0 world).0
unfolding clock_of
poll-Returns_example =
    poll-Returns host host-Clock host-Answers 5 "/run/unknown.sock" 350 0 "a" world (omega arith)

abbrev references : List (CredentialRef String)
references =
    record { name = "token"; resolve = eager; provider = http "https://a"; params = none }
    ∷ record { name = "key"; resolve = lazy; provider = http "https://b"; params = none }
    ∷ []

resolve_eager-HasAll_example : HasAll (eager_references references) (("token", "accepted") ∷ [])
unfolding resolve_eager
resolve_eager-HasAll_example =
    resolve_eager-HasAll host "/run" references (("token", "accepted") ∷ []) world
      (resolve_eager host references "/run" world).1 refl

execute-success_example :
    Succeeds (Shell.execute host (script 1 "true") [] world).0
    ↔ RanWell host (script 1 "true") [] [] (text_at host "true" "script")
execute-success_example = execute-success host (script 1 "true") [] world

-- The host whose sidecars never answer.
abbrev silent_host : Env String
silent_host = record host { exchange = λ t path bytes. never_answered }
