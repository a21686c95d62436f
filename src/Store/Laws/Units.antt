-- ===== src/Store/Laws/Units.antt =====
-- The `units` table as a map from names: reads after writes, and names that stay unique.
use mathlib.Core.List.{Perm}
use mathlib.Core.List.Perm
use Prim.Native.Nat.{Ordering}
use Prim.Native.String.{compare}
use vasal.Prelude.{
  String, str_eq, eq_iff, ◌≡◌, refl, Option, none, some, List, [], ◌∷◌, arith, if◌then◌else◌,
}
use vasal.Prelude.Results.{ok}
use vasal.Host.{Env}
use vasal.Host.Act.{World}
use vasal.Store.Sql.{UnitRow, insert_unit, find_unit, delete_unit, insert_by_name, order_by_name}
use vasal.Store.{upsert_unit, get_unit, remove_unit}

pub find-insert :
    (row : UnitRow) (name : String) (us : List UnitRow)
    → find_unit name (insert_unit row us)
      ≡ (if str_eq row.name name then some row else find_unit name us)
unfolding find_unit insert_unit
find-insert row name [] = refl
find-insert row name (u ∷ us) = ground (
  arith,
  eq_iff u.name row.name,
  eq_iff u.name name,
  eq_iff row.name name,
  find-insert row name us,
)

pub find-delete :
    (gone name : String) (us : List UnitRow)
    → find_unit name (delete_unit gone us) ≡ (if str_eq gone name then none else find_unit name us)
unfolding find_unit delete_unit
find-delete gone name [] = ground arith
find-delete gone name (u ∷ us) =
    ground
      (arith, eq_iff u.name gone, eq_iff u.name name, eq_iff gone name, find-delete gone name us)

module _ {V : Type 0} (env : Env V) where
  -- Where both statements succeed, a unit read after a write is the row written, and the row that was there for any other name.
  pub get-upsert :
      (row : UnitRow) (name : String) (w w' w'' : World V) (found : Option UnitRow)
      → upsert_unit env row w ≡ (ok tt, w')
      → get_unit env name w' ≡ (ok found, w'')
      → found ≡ (if str_eq row.name name then some row else find_unit name w.store.units)
  unfolding upsert_unit get_unit
  get-upsert row name w w' w'' found e f = ground (arith, find-insert row name w.store.units)

  -- Where both statements succeed, a unit read after its removal is gone, and every other is as it
  -- was.
  pub get-remove :
      (gone name : String) (w w' w'' : World V) (found : Option UnitRow)
      → remove_unit env gone w ≡ (ok tt, w')
      → get_unit env name w' ≡ (ok found, w'')
      → found ≡ (if str_eq gone name then none else find_unit name w.store.units)
  unfolding remove_unit get_unit
  get-remove gone name w w' w'' found e f = ground (arith, find-delete gone name w.store.units)

-- `name TEXT PRIMARY KEY`
abbrev pub HasUniqueNames : List UnitRow → Type 0
HasUniqueNames [] = Unit
HasUniqueNames (u ∷ us) = (find_unit u.name us ≡ none) × HasUniqueNames us

-- Writing a unit keeps the names unique.
pub insert-HasUniqueNames :
    (row : UnitRow) (us : List UnitRow) → HasUniqueNames us → HasUniqueNames (insert_unit row us)
unfolding find_unit insert_unit
insert-HasUniqueNames row [] h = (refl, tt)
insert-HasUniqueNames row (u ∷ us) h = ground (
  arith,
  eq_iff u.name row.name,
  eq_iff row.name u.name,
  find-insert row u.name us,
  insert-HasUniqueNames row us h.1,
)

-- Removing a unit keeps the names unique.
pub delete-HasUniqueNames :
    (gone : String) (us : List UnitRow) → HasUniqueNames us → HasUniqueNames (delete_unit gone us)
unfolding delete_unit
delete-HasUniqueNames gone [] h = tt
delete-HasUniqueNames gone (u ∷ us) h =
    ground (arith, find-delete gone u.name us, delete-HasUniqueNames gone us h.1)

insert_by_name-perm : (row : UnitRow) (us : List UnitRow) → Perm (insert_by_name row us) (row ∷ us)
unfolding insert_by_name
insert_by_name-perm row [] = Perm.refl _
insert_by_name-perm row (u ∷ us) =
    let deeper : Perm (u ∷ insert_by_name row us) (row ∷ u ∷ us) =
      Perm.trans (Perm.cons u (insert_by_name-perm row us)) (Perm.swap row u us) in
    elim (compare row.name u.name)
      as (λ o.
        Perm (elim o [ Ordering.gt ↦ u ∷ insert_by_name row us | _ ↦ row ∷ u ∷ us ])
          (row ∷ u ∷ us)) [ Ordering.gt ↦ deeper | _ ↦ Perm.refl _ ]

-- Listing the units by name loses none and repeats none.
pub order_by_name-perm : (us : List UnitRow) → Perm (order_by_name us) us
unfolding order_by_name
order_by_name-perm [] = Perm.refl _
order_by_name-perm (u ∷ us) =
    Perm.trans (insert_by_name-perm u (order_by_name us)) (Perm.cons u (order_by_name-perm us))
