-- ===== src/Store.antt =====
-- crates/vasal-core/src/state.rs: the methods of `StateStore`, each a statement that SQLite may
-- refuse. What a statement does to the tables stands in `Sql`.
pub mod Sql
pub mod Laws
use vasal.Prelude.{ℕ, ◌-◌, String, Option, none, some, List, [], ◌∷◌, length, take}
use vasal.Prelude.Results.{Result, ok, err}
use vasal.Host.{Env}
use vasal.Host.Events.{sql}
use vasal.Host.Act.{World, Act, happen}
use vasal.Host.Attempt.{Error, state, Attempt, succeed, ◌>>=◌, ◌>>◌}
use Sql.{
  Tables, UnitRow, TaskResultRow, AuditRow, insert_unit, find_unit, delete_unit, order_by_name,
  insert_result, prune, insert_audit, unforwarded, set_forwarded,
}

module _ {V : Type 0} (env : Env V) where
  -- One statement: refused it changes nothing, else it answers and changes the tables.
  unfoldable pub statement : {A : Type 0} → (Tables → A × Tables) → Attempt V A
  statement run w = elim (env.refuse w.trace) [
    | some e ↦ (err (state e), happen sql w)
    | none ↦ let (a, t) = run w.store in (ok a, record (happen sql w) { store = t })
  ]

  unfoldable pub upsert_unit : UnitRow → Attempt V (Unit {0})
  unfolding statement
  upsert_unit row = statement (λ t. (tt, record t { units = insert_unit row t.units }))

  unfoldable pub get_unit : String → Attempt V (Option UnitRow)
  unfolding statement
  get_unit name = statement (λ t. (find_unit name t.units, t))

  unfoldable pub list_units : Attempt V (List UnitRow)
  unfolding statement
  list_units = statement (λ t. (order_by_name t.units, t))

  unfoldable pub remove_unit : String → Attempt V (Unit {0})
  unfolding statement
  remove_unit name = statement (λ t. (tt, record t { units = delete_unit name t.units }))

  unfoldable pub record_task_result : TaskResultRow → Attempt V (Unit {0})
  unfolding statement
  record_task_result row = statement (λ t. (tt, insert_result row t))

  -- The answer is the number of rows deleted.
  unfoldable pub prune_journal : ℕ → Attempt V ℕ
  unfolding statement
  prune_journal keep =
      statement (λ t. let t' = prune keep t in (length t.journal - length t'.journal, t'))

  unfoldable pub append_audit : AuditRow → Attempt V (Unit {0})
  unfolding statement
  append_audit row = statement (λ t. (tt, insert_audit row t))

  unfoldable pub pending_audit_events : ℕ → Attempt V (List AuditRow)
  unfolding statement
  pending_audit_events limit = statement (λ t. (take limit (unforwarded t.audit_log), t))

  -- One UPDATE for each id: those before a refused one stay done.
  unfoldable pub mark_forwarded : List ℕ → Attempt V (Unit {0})
  unfolding statement
  mark_forwarded [] = succeed tt
  mark_forwarded (id ∷ ids) =
      statement (λ t. (tt, record t { audit_log = set_forwarded id t.audit_log }))
      >> mark_forwarded ids
