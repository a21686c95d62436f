-- ===== src/Examples/Loops.antt =====
-- The main loop and the loop of the audit forwarder on concrete input.
use vasal.Prelude.{String, some, [], ◌∷◌, ◌≡◌, refl, length, true}
use vasal.Protocol.Task.{exec}
use vasal.Transport.{single}
use vasal.Host.Attempt.{fail, succeed, transport}
use vasal.Host.Act.{World}
use vasal.Host.System.{System}
use vasal.Store.Sql.{unforwarded, insert_audit, set_forwarded}
use vasal.Manager.{new, submit}
use vasal.Agent.Loop.{
  Running, received, cancelled, submit_work, main_loop, record_started, shut_down,
}
use vasal.Audit.{flush_once}
use vasal.Audit.Forwarder.{run_forwarder}
use vasal.Examples.{host, world, script}
use vasal.Examples.Tables.{result}
use vasal.Examples.Machine.{machine}

abbrev agent : Running String
agent = record { manager = new 4; world = world }

-- What arrives after the shutdown is not taken.
main_loop_test :
    length
      (main_loop
        (λ r. succeed tt)
        (succeed (single (exec (script 1 "true")) ∷ []))
        (received ∷ cancelled ∷ received ∷ [])
        agent).manager.active_tasks
    ≡ 1
unfolding main_loop submit_work submit
main_loop_test = refl

-- The results that cannot be sent are given up, and the shutdown is on record.
shut_down_test :
    length (shut_down host (λ r. fail (transport "down")) "a" (result ∷ []) world).1.store.audit_log
    ≡ 1
unfolding shut_down insert_audit
shut_down_test = refl

-- The machine whose agent is shut down in every sleep.
abbrev halted : System String
halted = record machine { shut_down_in_sleep = λ t ms. true }

abbrev started : World String
started = (record_started host "a" "1" "Poll" world).1

-- A shutdown flushes what is pending, once, and the forwarder returns.
run_forwarder_test :
    ((run_forwarder host halted
        (λ t. record { flush_interval_sec = 5; batch_size = 10 })
        "https://audit"
        1
        started).0
      ≡ some tt)
    × (length (
          unforwarded
            (run_forwarder host halted
              (λ t. record { flush_interval_sec = 5; batch_size = 10 })
              "https://audit"
              1
              started).1.store.audit_log)
        ≡ 0)
unfolding run_forwarder record_started unforwarded flush_once insert_audit set_forwarded
run_forwarder_test = (refl, refl)
