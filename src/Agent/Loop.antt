-- ===== src/Agent/Loop.antt =====
-- crates/vasal-core/src/main.rs, the main loop of `run`. The order in which tokio's channels and
-- streams become ready is an explicit sequence; the jobs that the manager spawned move on between
-- two turns, which Manager's steps say.
use vasal.Prelude.{ℕ, String, none, List, [], ◌∷◌}
use vasal.Prelude.Results.{Result, ok, err}
use vasal.Protocol.Task.{TaskResult}
use vasal.Transport.{ReceivedWork, single, chain}
use vasal.Manager.{TaskManager, submit, submit_chain, Reachable, next, submitted, chained}
use vasal.Host.{Env}
use vasal.Host.Act.{Act, World, ◌>>◌}
use vasal.Host.Attempt.{Error, Attempt}
use vasal.Audit.{record_event, agent_started, agent_shutdown}
use vasal.Agent.{forward, drain}

-- Which arm of the `select!` is ready first.
pub data Arm : Type 0 where
  cancelled received : Arm
  has_result : TaskResult → Arm

-- What the loop changes.
pub record Running (V : Type 0) : Type 0 where
  pub manager : TaskManager
  pub world : World V

module _ {V : Type 0} where
  unfoldable submit_item : ReceivedWork V → TaskManager → TaskManager
  submit_item (single task) m = submit task m
  submit_item (chain c) m = submit_chain c m

  unfoldable submit_items : List (ReceivedWork V) → TaskManager → TaskManager
  unfolding submit_item
  submit_items [] m = m
  submit_items (item ∷ items) m = submit_items items (submit_item item m)

  -- A failure to receive is logged.
  unfoldable pub submit_work : Result Error (List (ReceivedWork V)) → TaskManager → TaskManager
  unfolding submit_items
  submit_work (ok items) m = submit_items items m
  submit_work (err _) m = m

  submit_item-Reachable :
      {n : ℕ} (item : ReceivedWork V) {m : TaskManager}
      → Reachable V n m
      → Reachable V n (submit_item item m)
  unfolding submit_item
  submit_item-Reachable (single task) r = next r (submitted task)
  submit_item-Reachable (chain c) r = next r (chained c)

  submit_items-Reachable :
      {n : ℕ} (items : List (ReceivedWork V)) {m : TaskManager}
      → Reachable V n m
      → Reachable V n (submit_items items m)
  unfolding submit_items
  submit_items-Reachable [] r = r
  submit_items-Reachable (item ∷ items) r =
      submit_items-Reachable items (submit_item-Reachable item r)

  -- Whatever the transport gives, the manager stays in a state that its steps reach.
  submit_work-Reachable :
      {n : ℕ} (work : Result Error (List (ReceivedWork V))) {m : TaskManager}
      → Reachable V n m
      → Reachable V n (submit_work work m)
  unfolding submit_work
  submit_work-Reachable (ok items) r = submit_items-Reachable items r
  submit_work-Reachable (err e) r = r

module _ {V : Type 0} (send_result : TaskResult → Attempt V (Unit {0}))
    (recv_tasks : Attempt V (List (ReceivedWork V))) where
  -- A turn of the loop that does not end it.
  unfoldable turn : Arm → Running V → Running V
  unfolding submit_work forward
  turn cancelled s = s
  turn (has_result result) s = record s { world = (forward send_result result s.world).1 }
  turn received s =
      let (work, w) = recv_tasks s.world in
      record { manager = submit_work work s.manager; world = w }

  -- The loop over the arms that become ready, up to the shutdown.
  unfoldable pub main_loop : List Arm → Running V → Running V
  unfolding turn
  main_loop [] s = s
  main_loop (cancelled ∷ arms) s = s
  main_loop (has_result result ∷ arms) s = main_loop arms (turn (has_result result) s)
  main_loop (received ∷ arms) s = main_loop arms (turn received s)

  -- The manager's invariants hold in every turn.
  main_loop-Reachable :
      {n : ℕ} (arms : List Arm) (s : Running V)
      → Reachable V n s.manager
      → Reachable V n (main_loop arms s).manager
  unfolding main_loop turn
  main_loop-Reachable [] s r = r
  main_loop-Reachable (cancelled ∷ arms) s r = r
  main_loop-Reachable (has_result result ∷ arms) s r = main_loop-Reachable arms _ r
  main_loop-Reachable (received ∷ arms) s r =
      main_loop-Reachable arms _ (submit_work-Reachable (recv_tasks s.world).0 r)

module _ {V : Type 0} (env : Env V) where
  -- The agent's event in the audit log.
  unfoldable record_shutdown : (agent_id : String) → Act V (Unit {0})
  unfolding record_event
  record_shutdown agent_id =
      record_event env agent_shutdown none (env.object (("agent_id", env.text agent_id) ∷ []))

  unfoldable pub record_started : (agent_id version transport : String) → Act V (Unit {0})
  unfolding record_event
  record_started agent_id version transport = record_event env agent_started none (
      env.object (
        ("agent_id", env.text agent_id)
        ∷ ("version", env.text version)
        ∷ ("transport", env.text transport)
        ∷ []))

  -- What follows the loop: the results left in the channel, and the event of the shutdown.
  unfoldable pub shut_down :
      (send_result : TaskResult → Attempt V (Unit {0}))
      → (agent_id : String) → List TaskResult
      → Act V (Unit {0})
  unfolding drain record_shutdown
  shut_down send_result agent_id left = do drain send_result left; record_shutdown agent_id
