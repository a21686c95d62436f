-- ===== src/Examples/Chains.antt =====
-- Chains and the task manager on concrete input.
use vasal.Prelude.{String, Option, none, some, List, [], ◌∷◌, length, ◌≡◌, refl}
use vasal.Protocol.Task.{TaskChain, TaskResult, rollback_all}
use vasal.Host.Act.{World}
use vasal.Host.Events.{chain_step, rollback_step, rollback_skipped}
use vasal.Exec.Chain.{execute}
use vasal.Exec.Chain.Steps.{Follows, execute-Follows}
use vasal.Exec.Chain.Rollbacks.{history}
use vasal.Exec.Chain.Runs.{Chained, started, execute-Chained}
use vasal.Exec.Chain.Ends.{execute-Returns}
use vasal.Exec.Trace.{notes}
use vasal.Exec.Trace.Ends.{Returns}
use vasal.Examples.{host, host-Clock, host-Answers, world, script}

-- The second step fails; the third is never started.
abbrev chain : TaskChain String
chain = record {
  id = 7;
  steps =
      record { task = script 1 "true"; rollback = some (script 11 "undo 1") }
      ∷ record { task = script 2 "fail"; rollback = none }
      ∷ record { task = script 3 "true"; rollback = none }
      ∷ [];
  on_failure = rollback_all;
  tags = [];
}

abbrev results_of : Option (List TaskResult) → List TaskResult
results_of none = []
results_of (some rs) = rs

abbrev ended : Option (List TaskResult) × World String
ended = execute host "/run" chain world

two_results : length (results_of ended.0) ≡ 2
unfolding execute
two_results = refl

logged :
    notes ended.1.trace
    ≡ rollback_step 7 0 ∷ rollback_skipped 7 1 ∷ chain_step 7 1 ∷ chain_step 7 0 ∷ []
unfolding execute
logged = refl

execute-Chained_example :
    Chained host "/run" chain 0 chain.steps []
      (results_of ended.0)
      (started host "/run" chain world)
      ended.1
    × (notes ended.1.trace ≡ history chain 0 chain.steps (results_of ended.0) [])
unfolding execute
execute-Chained_example = execute-Chained host "/run" chain (results_of ended.0) world ended.1 refl

execute-Follows_example : Follows host 7 0 chain.steps (results_of ended.0)
unfolding execute
execute-Follows_example = execute-Follows host "/run" chain (results_of ended.0) world ended.1 refl

execute-Returns_example : Returns (execute host "/run" chain world).0
execute-Returns_example = execute-Returns host host-Clock host-Answers "/run" chain world
