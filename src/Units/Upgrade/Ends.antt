-- ===== src/Units/Upgrade/Ends.antt =====
-- An upgrade ends: the probe of the new version is within its fuel.
use vasal.Prelude.{String, Option, none, some, Bool, FilePath}
use vasal.Prelude.Results.{Result, ok, err}
use vasal.Protocol.Task.{RollbackSpec}
use vasal.Store.Sql.{UnitRow}
use vasal.Host.{Env}
use vasal.Host.Act.{World}
use vasal.Host.Run
use vasal.Host.Run.{Run}
use vasal.Host.Attempt.{Error}
use vasal.Host.System.{System}
use vasal.Exec.Trace.{Clock}
use vasal.Exec.Trace.Ends.{Returns}
use vasal.Exec.Trace.Answers.{Answers}
use vasal.Units.Health.{probe_sidecar}
use vasal.Units.Health.Laws.{Rests, probe_sidecar-Returns}
use vasal.Units.Upgrade.{Begun, to_write, to_probe, begin, after_probe, finish, upgrade}

module _ {V : Type 0} (env : Env V) (sys : System V) (unit_name target : String)
    (rollback : Option RollbackSpec) (cache socket_dir : FilePath) where
  probed-Returns :
      (row : UnitRow) (m : Option Bool × World V)
      → Returns m.0
      → Returns
          (Run.continue m.0
            (λ passed.
              Run.lift (after_probe env sys unit_name target rollback cache socket_dir row passed))
            m.1).0
  probed-Returns row (none, w) r = r
  probed-Returns row (some passed, w) r = tt

  finish-Returns :
      (r : Result Error Begun) (w : World V)
      → Clock env
      → Rests env
      → Answers env
      → Returns (finish env sys unit_name target rollback cache socket_dir r w).0
  unfolding finish
  finish-Returns (err e) w clock rests host = tt
  finish-Returns (ok (to_write row)) w clock rests host = tt
  finish-Returns (ok (to_probe row)) w clock rests host =
      probed-Returns row (probe_sidecar env sys socket_dir unit_name 10 w)
        (probe_sidecar-Returns env sys clock rests host socket_dir unit_name 10 w)

  -- An upgrade returns, success or error: the probe of the new version is within its fuel, where the
  -- monotonic clock does not go back, a sleep takes its time and every call to a sidecar is answered.
  pub upgrade-Returns :
      Clock env
      → Rests env
      → Answers env
      → (url sha256 : String) (w : World V)
      → Returns (upgrade env sys unit_name target rollback cache socket_dir url sha256 w).0
  unfolding upgrade
  upgrade-Returns clock rests host url sha256 w =
      finish-Returns (begin env sys unit_name target rollback cache socket_dir url sha256 w).0
        (begin env sys unit_name target rollback cache socket_dir url sha256 w).1 clock rests host
