-- ===== src/Store/Sql.antt =====
-- crates/vasal-core/src/state.rs: the rows, the three tables, and what each SQL statement does to
-- them. A table is the list of its rows in the order of `id`, and `units` in the order of insertion.
use Prim.Native.Nat.{Ordering}
use Prim.Native.String.{compare}
use vasal.Prelude.{
  ℕ, ◌+◌, String, str_eq, Bool, true, false, Option, none, some, List, [], ◌∷◌, ◌++◌, ◌==◌, map,
  take, if◌then◌else◌,
}
use mathlib.Core.List.{reverse}
use vasal.Prelude.Int.{ℤ}

pub record UnitRow : Type 0 where
  pub name : String
  pub kind : String
  pub version : String
  pub state : String
  pub health : Option String
  pub health_error : Option String
  pub pid : Option ℕ
  pub socket_path : Option String
  pub config_json : Option String
  pub updated_at : ℕ

pub record TaskResultRow : Type 0 where
  pub task_id : String
  pub chain_id : Option String
  pub step_index : Option ℤ
  pub status : String
  pub exit_code : Option ℤ
  pub stdout : String
  pub stderr : String
  pub duration_ms : ℤ
  pub created_at : ℤ

pub record AuditRow : Type 0 where
  pub id : Option ℕ
  pub timestamp : ℕ
  pub event_type : String
  pub task_id : Option String
  pub detail_json : String

-- A row of `task_journal`, and one of `audit_log`.
pub record JournalEntry : Type 0 where
  pub id : ℕ
  pub row : TaskResultRow

pub record AuditEntry : Type 0 where
  pub id : ℕ
  pub row : AuditRow
  pub forwarded : Bool

-- The last id that AUTOINCREMENT gave out in each table is kept beside it.
pub record Tables : Type 0 where
  pub units : List UnitRow
  pub journal : List JournalEntry
  pub journal_seq : ℕ
  pub audit_log : List AuditEntry
  pub audit_seq : ℕ

-- `CREATE TABLE IF NOT EXISTS`, on a new database
abbrev pub empty : Tables
empty = record { units = []; journal = []; journal_seq = 0; audit_log = []; audit_seq = 0 }

-- INSERT INTO units … ON CONFLICT(name) DO UPDATE SET every other column
unfoldable pub insert_unit : UnitRow → List UnitRow → List UnitRow
insert_unit row [] = row ∷ []
insert_unit row (u ∷ us) = if str_eq u.name row.name then row ∷ us else u ∷ insert_unit row us

-- SELECT … FROM units WHERE name = ?1
unfoldable pub find_unit : String → List UnitRow → Option UnitRow
find_unit name [] = none
find_unit name (u ∷ us) = if str_eq u.name name then some u else find_unit name us

-- DELETE FROM units WHERE name = ?1
unfoldable pub delete_unit : String → List UnitRow → List UnitRow
delete_unit name [] = []
delete_unit name (u ∷ us) =
    let rest = delete_unit name us in if str_eq u.name name then rest else u ∷ rest

-- ORDER BY name
unfoldable pub insert_by_name : UnitRow → List UnitRow → List UnitRow
insert_by_name row [] = row ∷ []
insert_by_name row (u ∷ us) =
    let rest = insert_by_name row us in
    elim (compare row.name u.name) [ Ordering.gt ↦ u ∷ rest | _ ↦ row ∷ u ∷ us ]

unfoldable pub order_by_name : List UnitRow → List UnitRow
order_by_name [] = []
order_by_name (u ∷ us) = insert_by_name u (order_by_name us)

-- INSERT INTO task_journal
unfoldable pub insert_result : TaskResultRow → Tables → Tables
insert_result row t = record t {
  journal = t.journal ++ record { id = t.journal_seq + 1; row = row } ∷ [];
  journal_seq = t.journal_seq + 1;
}

-- id IN (…)
unfoldable pub is_in : ℕ → List ℕ → Bool
is_in id [] = false
is_in id (i ∷ is) = if i == id then true else is_in id is

-- SELECT id FROM task_journal ORDER BY id DESC LIMIT ?1
unfoldable pub latest_ids : ℕ → List JournalEntry → List ℕ
latest_ids keep journal = take keep (reverse (map (λ (e : JournalEntry). e.id) journal))

unfoldable pub only_ids : List ℕ → List JournalEntry → List JournalEntry
only_ids ids [] = []
only_ids ids (e ∷ es) = let rest = only_ids ids es in if is_in e.id ids then e ∷ rest else rest

-- DELETE FROM task_journal WHERE id NOT IN (SELECT …)
unfoldable pub prune : ℕ → Tables → Tables
prune keep t = record t { journal = only_ids (latest_ids keep t.journal) t.journal }

-- INSERT INTO audit_log … VALUES (…, 0)
unfoldable pub insert_audit : AuditRow → Tables → Tables
insert_audit row t = record t {
  audit_log =
      t.audit_log
      ++ record {
        id = t.audit_seq + 1;
        row = record row { id = some (t.audit_seq + 1) };
        forwarded = false;
      }
        ∷ [];
  audit_seq = t.audit_seq + 1;
}

-- SELECT … WHERE forwarded = 0 ORDER BY id LIMIT ?1
unfoldable pub unforwarded : List AuditEntry → List AuditRow
unforwarded [] = []
unforwarded (e ∷ es) =
    let rest = unforwarded es in
    if e.forwarded then rest else record e.row { id = some e.id } ∷ rest

-- UPDATE audit_log SET forwarded = 1 WHERE id = ?1
unfoldable pub set_forwarded : ℕ → List AuditEntry → List AuditEntry
set_forwarded id [] = []
set_forwarded id (e ∷ es) =
    (if e.id == id then record e { forwarded = true } else e) ∷ set_forwarded id es
