-- ===== src/Units/Upgrade/Laws.antt =====
-- An upgrade that ends well has recorded the new version.
use vasal.Prelude.{
  String, str_eq, eq_iff, Option, none, some, List, [], ◌∷◌, Bool, true, false, ◌≡◌, refl, sym, ap,
  subst, FilePath, join, arith,
}
use vasal.Prelude.Results.{Result, ok, err}
use vasal.Protocol.Task.{RollbackSpec}
use vasal.Store.{get_unit, upsert_unit, statement}
use vasal.Store.Sql.{UnitRow, find_unit}
use vasal.Host.{Env}
use vasal.Host.Act.{World}
use vasal.Host.Run
use vasal.Host.Run.{Run}
use vasal.Host.Attempt
use vasal.Host.Attempt.{Error, Attempt, succeed}
use vasal.Host.System.{System, exists, fetch_verified}
use vasal.Host.Hoare.{Ensures, ok≢err, ok-inj, Ensures-bind, any-Ensures}
use vasal.Units.Install.{start_sidecar, download_refused, is_zero, pid_or_zero}
use vasal.Units.Install.Laws.{upsert_unit-found}
use vasal.Units.Health.{probe_sidecar}
use vasal.Units.Upgrade.{
  unhealthy_error, Begun, to_write, to_probe, found, fail_with, perform_rollback, with_version,
  start_if_there, stop_current, terminate, unpack, start_new, after_extract, begin, after_probe,
  finish, upgrade,
}

find_unit-name :
    (name : String) (us : List UnitRow) (row : UnitRow)
    → find_unit name us ≡ some row
    → row.name ≡ name
unfolding find_unit
find_unit-name name [] row h = absurd (cc)
find_unit-name name (u ∷ us) row h = ground (arith, eq_iff u.name name, find_unit-name name us row)

-- A row of the unit, at the version.
pub record AtVersion (unit_name version : String) (row : UnitRow) : Type 0 where
  pub at_name : row.name ≡ unit_name
  pub at_version : row.version ≡ version

abbrev BegunAt : String → String → Begun → Type 0
BegunAt unit_name version (to_write row) = AtVersion unit_name version row
BegunAt unit_name version (to_probe row) = AtVersion unit_name version row

module _ {V : Type 0} (env : Env V) (sys : System V) (unit_name target : String)
    (rollback : Option RollbackSpec) (cache socket_dir : FilePath) where
  found-Ensures :
      Ensures
        (λ (_ : World V). Unit {0})
        (get_unit env unit_name)
        (λ o _. (row : UnitRow) → o ≡ some row → row.name ≡ unit_name)
  unfolding get_unit statement
  found-Ensures = record {
    ensured = λ w p o h row e. find_unit-name unit_name w.store.units row (ground arith);
  }

  fail_with-Ensures :
      {A : Type 0} {P : World V → Type 0} (r : Option RollbackSpec) (e : Error)
      (Q : A → World V → Type 0)
      → Ensures P (fail_with env sys unit_name r cache socket_dir e {A = A}) Q
  unfolding fail_with
  fail_with-Ensures none e Q = record { ensured = λ w p a h. absurd (ok≢err a e (sym h)) }
  fail_with-Ensures (some rb) e Q =
      Ensures-bind (λ _ _. Unit) (perform_rollback env sys unit_name rb cache socket_dir)
        (any-Ensures _) (λ _. record { ensured = λ w p a h. absurd (ok≢err a e (sym h)) })

  start_if_there-Ensures :
      (there : Bool) (row : UnitRow)
      → Ensures
          (λ _. AtVersion unit_name target row)
          (start_if_there env sys unit_name target rollback cache socket_dir there row)
          (λ b _. BegunAt unit_name target b)
  unfolding start_if_there
  start_if_there-Ensures true row =
      Ensures-bind (λ _ _. AtVersion unit_name target row) (start_sidecar env sys _ _)
        (record { ensured = λ w p a h. p })
        (λ pid. record {
          ensured = λ w p b h.
              subst (BegunAt unit_name target) (ok-inj (ok _) refl h)
                (record { at_name = p.at_name; at_version = p.at_version });
        })
  start_if_there-Ensures false row = record {
    ensured = λ w p b h. subst (BegunAt unit_name target) (ok-inj (ok (to_write row)) refl h) p;
  }

  start_new-Ensures :
      (row : UnitRow) (side : Bool)
      → str_eq row.kind "sidecar" ≡ side
      → Ensures
          (λ _. AtVersion unit_name target row)
          (start_new env sys unit_name target rollback cache socket_dir row)
          (λ b _. BegunAt unit_name target b)
  unfolding start_new
  start_new-Ensures row true k = rw k (
      Ensures-bind (λ _ _. AtVersion unit_name target row)
        (Attempt.lift (exists sys (join (join cache unit_name) unit_name)))
        (record { ensured = λ w p a h. p }) (λ there. start_if_there-Ensures there row))
  start_new-Ensures row false k = rw k (record {
    ensured = λ w p b h. subst (BegunAt unit_name target) (ok-inj (ok (to_write row)) refl h) p;
  })

  after_extract-Ensures :
      (current : UnitRow) (extracted : Bool)
      → Ensures
          (λ (_ : World V). current.name ≡ unit_name)
          (after_extract env sys unit_name target rollback cache socket_dir current extracted)
          (λ b _. BegunAt unit_name target b)
  unfolding after_extract
  after_extract-Ensures current false = fail_with-Ensures rollback _ _
  after_extract-Ensures current true =
      Ensures-bind (λ row _. AtVersion unit_name target row)
        (Attempt.lift (with_version env sys target current))
        (record {
          ensured = λ w p a h.
              subst (AtVersion unit_name target)
                (ok-inj (ok (with_version env sys target current w).0) refl h)
                (record { at_name = p; at_version = refl });
        })
        (λ row. start_new-Ensures row (str_eq row.kind "sidecar") refl)

  found-row : (o : Option UnitRow) (row : UnitRow) → found unit_name o ≡ ok row → o ≡ some row
  unfolding found
  found-row none row h = absurd (ok≢err row _ (sym h))
  found-row (some r) row h = ap (λ x. some x) (ok-inj (ok r) refl h)

  begin-Ensures :
      (url sha256 : String)
      → Ensures
          (λ (_ : World V). Unit {0})
          (begin env sys unit_name target rollback cache socket_dir url sha256)
          (λ b _. BegunAt unit_name target b)
  unfolding begin
  begin-Ensures url sha256 =
      Ensures-bind (λ _ _. Unit) (fetch_verified sys (download_refused unit_name) url sha256)
        (any-Ensures _)
        (λ bytes.
          Ensures-bind (λ o _. (row : UnitRow) → o ≡ some row → row.name ≡ unit_name)
            (get_unit env unit_name) found-Ensures
            (λ o.
              Ensures-bind (λ row _. row.name ≡ unit_name) (Attempt.of_result (found unit_name o))
                (record { ensured = λ w p row h. p row (found-row o row h) })
                (λ current.
                  Ensures-bind (λ _ _. current.name ≡ unit_name)
                    (Attempt.lift (stop_current env sys current.pid))
                    (record { ensured = λ w p a h. p })
                    (λ _.
                      Ensures-bind (λ _ _. current.name ≡ unit_name)
                        (unpack env sys (join cache unit_name) unit_name target bytes)
                        (record { ensured = λ w p a h. p })
                        (λ code. after_extract-Ensures current (is_zero code))))))

  -- What the database holds after a success.
  IsAtVersion : World V → Type 0
  IsAtVersion w =
      (row : UnitRow) × (find_unit unit_name w.store.units ≡ some row) × (row.version ≡ target)

  upsert-AtVersion :
      (row : UnitRow) (w : World V)
      → AtVersion unit_name target row
      → (upsert_unit env row w).0 ≡ ok tt
      → IsAtVersion (upsert_unit env row w).1
  unfolding IsAtVersion
  upsert-AtVersion row w p h = (
    row,
    subst (λ n. find_unit n (upsert_unit env row w).1.store.units ≡ some row) p.at_name
        ((upsert_unit-found env sys (λ _. Unit) row).ensured w tt tt h),
    p.at_version,
  )

  after_probe-AtVersion :
      (row : UnitRow) (passed : Bool) (w : World V)
      → AtVersion unit_name target row
      → (after_probe env sys unit_name target rollback cache socket_dir row passed w).0 ≡ ok tt
      → IsAtVersion (after_probe env sys unit_name target rollback cache socket_dir row passed w).1
  unfolding after_probe
  after_probe-AtVersion row true w p h = upsert-AtVersion row w p h
  after_probe-AtVersion row false w p h =
      (Ensures-bind {P = λ _. Unit {0}} (λ _ _. Unit {0})
          (Attempt.lift (terminate env sys (pid_or_zero row.pid) 1000)) (any-Ensures _)
          (λ _. fail_with-Ensures rollback (unhealthy_error unit_name) (λ _. IsAtVersion))).ensured
        w tt tt h

  some-inj : {A : Type 0} {a b : A} → some a ≡ some b → a ≡ b
  some-inj h = cc

  run-probe :
      (row : UnitRow) (m : Option Bool × World V)
      → AtVersion unit_name target row
      → (Run.continue m.0
          (λ passed.
            Run.lift (after_probe env sys unit_name target rollback cache socket_dir row passed))
          m.1).0
        ≡ some (ok tt)
      → IsAtVersion
          (Run.continue m.0
            (λ passed.
              Run.lift (after_probe env sys unit_name target rollback cache socket_dir row passed))
            m.1).1
  run-probe row (none, w) p h = absurd (cc)
  run-probe row (some passed, w) p h = after_probe-AtVersion row passed w p (some-inj h)

  finish-AtVersion :
      (r : Result Error Begun) (w : World V)
      → ((b : Begun) → r ≡ ok b → BegunAt unit_name target b)
      → (finish env sys unit_name target rollback cache socket_dir r w).0 ≡ some (ok tt)
      → IsAtVersion (finish env sys unit_name target rollback cache socket_dir r w).1
  unfolding finish
  finish-AtVersion (err e) w q h = absurd (ok≢err tt e (some-inj (sym h)))
  finish-AtVersion (ok (to_write row)) w q h =
      upsert-AtVersion row w (q (to_write row) refl) (some-inj h)
  finish-AtVersion (ok (to_probe row)) w q h =
      run-probe row (probe_sidecar env sys socket_dir unit_name 10 w) (q (to_probe row) refl) h

  -- An upgrade that returns success has recorded the target version under the unit's name.
  pub upgrade-AtVersion :
      (url sha256 : String) (w : World V)
      → (upgrade env sys unit_name target rollback cache socket_dir url sha256 w).0 ≡ some (ok tt)
      → (row : UnitRow) × (find_unit unit_name
            (upgrade env sys unit_name target rollback cache socket_dir url sha256 w).1.store.units
          ≡ some row)
        × (row.version ≡ target)
  unfolding upgrade IsAtVersion
  upgrade-AtVersion url sha256 w h =
      finish-AtVersion (begin env sys unit_name target rollback cache socket_dir url sha256 w).0
        (begin env sys unit_name target rollback cache socket_dir url sha256 w).1
        (λ b e. (begin-Ensures url sha256).ensured w tt b e) h
