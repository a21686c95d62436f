-- ===== src/Store/Laws/Journal.antt =====
-- Pruning the journal keeps exactly its newest entries, in their order.
use mathlib.Core.List.{reverse, reverse-cons}
use vasal.Prelude.{
  ℕ, zero, suc, ◌+◌, ◌-◌, ◌≤◌, ◌<◌, ==_iff, leb, ◌≡◌, refl, ap, ◌∙◌, inl, inr, true, false, ◌||◌,
  List, [], ◌∷◌, ◌++◌, map, arith, Bool-cases, length, take, drop, take-append, All, length-append,
  length-drop,
}
use vasal.Prelude.Results.{ok}
use vasal.Host.{Env}
use vasal.Host.Act.{World}
use vasal.Store.Sql.{
  JournalEntry, TaskResultRow, Tables, insert_result, is_in, latest_ids, only_ids, prune,
}
use vasal.Store.{prune_journal}

abbrev ids : List JournalEntry → List ℕ
ids = map (λ (e : JournalEntry). e.id)

-- Ids ascend, from above `low` up to `seq`.
abbrev pub Ascends : ℕ → List JournalEntry → ℕ → Type 0
Ascends low [] seq = low ≤ seq
Ascends low (e ∷ es) seq = (low < e.id) × Ascends e.id es seq

abbrev pub HasOrderedJournal : Tables → Type 0
HasOrderedJournal t = Ascends 0 t.journal t.journal_seq

Ascends-append :
    (low : ℕ) (es : List JournalEntry) (seq : ℕ) (row : TaskResultRow)
    → Ascends low es seq
    → Ascends low (es ++ record { id = seq + 1; row = row } ∷ []) (seq + 1)
Ascends-append low [] seq row h = omega arith
Ascends-append low (e ∷ es) seq row h = (h.0, Ascends-append e.id es seq row h.1)

-- Recording a result keeps the ids of the journal ascending and below the last one given out.
pub insert_result-HasOrderedJournal :
    (row : TaskResultRow) (t : Tables)
    → HasOrderedJournal t
    → HasOrderedJournal (insert_result row t)
unfolding insert_result
insert_result-HasOrderedJournal row t h = Ascends-append 0 t.journal t.journal_seq row h

is_in-append : (i : ℕ) (xs ys : List ℕ) → is_in i (xs ++ ys) ≡ (is_in i xs || is_in i ys)
unfolding is_in
is_in-append i [] ys = refl
is_in-append i (x ∷ xs) ys = ground (arith, is_in-append i xs ys)

is_in-reverse : (i : ℕ) (xs : List ℕ) → is_in i (reverse xs) ≡ is_in i xs
unfolding is_in
is_in-reverse i [] = refl
is_in-reverse i (x ∷ xs) =
    rw (reverse-cons x xs)
      (ground (arith, is_in-append i (reverse xs) (x ∷ []), is_in-reverse i xs))

is_in_below :
    (i low seq : ℕ) (es : List JournalEntry)
    → i ≤ low
    → Ascends low es seq
    → is_in i (ids es) ≡ false
unfolding is_in
is_in_below i low seq [] h a = refl
is_in_below i low seq (e ∷ es) h a = ground (arith, is_in_below i e.id seq es)

length-reverse : (xs : List ℕ) → length (reverse xs) ≡ length xs
length-reverse [] = refl
length-reverse (x ∷ xs) =
    rw (reverse-cons x xs)
      (omega (arith, length-append {0} (reverse xs) (x ∷ []), length-reverse xs))

length-ids : (es : List JournalEntry) → length (ids es) ≡ length es
length-ids [] = refl
length-ids (e ∷ es) = ap suc (length-ids es)

take_all : (n : ℕ) (xs : List ℕ) → length xs ≤ n → take n xs ≡ xs
take_all zero [] h = refl
take_all zero (x ∷ xs) h = absurd (omega arith)
take_all (suc n) [] h = refl
take_all (suc n) (x ∷ xs) h = ap (λ (l : List ℕ). x ∷ l) (take_all n xs (omega arith))

only_ids-All :
    (is : List ℕ) (es : List JournalEntry)
    → All (λ (e : JournalEntry). is_in e.id is ≡ true) es
    → only_ids is es ≡ es
unfolding only_ids
only_ids-All is [] h = refl
only_ids-All is (e ∷ es) h = rw (h.0, only_ids) (rw (only_ids-All is es h.1))

ids_in :
    (is : List ℕ) (es : List JournalEntry)
    → ((i : ℕ) → is_in i (ids es) ≡ true → is_in i is ≡ true)
    → All (λ (e : JournalEntry). is_in e.id is ≡ true) es
unfolding is_in
ids_in is [] h = tt
ids_in is (e ∷ es) h =
    (h e.id (ground (arith, ==_iff e.id e.id)), ids_in is es (λ i p. h i (ground arith)))

-- An entry below the `keep` newest is not among them.
latest_ids-cons :
    (keep : ℕ) (e : JournalEntry) (es : List JournalEntry)
    → keep ≤ length es
    → latest_ids keep (e ∷ es) ≡ latest_ids keep es
unfolding latest_ids
latest_ids-cons keep e es h = rw (reverse-cons e.id (ids es)) (
    take-append keep (reverse (ids es)) (e.id ∷ [])
      (omega (arith, length-reverse (ids es), length-ids es)))

latest_ids_all :
    (keep : ℕ) (es : List JournalEntry) → length es ≤ keep → latest_ids keep es ≡ reverse (ids es)
unfolding latest_ids
latest_ids_all keep es h =
    take_all keep (reverse (ids es)) (omega (arith, length-reverse (ids es), length-ids es))

is_in-take : (i n : ℕ) (xs : List ℕ) → is_in i xs ≡ false → is_in i (take n xs) ≡ false
unfolding is_in
is_in-take i zero xs h = refl
is_in-take i (suc n) [] h = refl
is_in-take i (suc n) (x ∷ xs) h = ground (arith, is_in-take i n xs)

not_in_latest :
    (keep low seq : ℕ) (es : List JournalEntry)
    → Ascends low es seq
    → is_in low (latest_ids keep es) ≡ false
unfolding latest_ids
not_in_latest keep low seq es a =
    is_in-take low keep (reverse (ids es))
      (is_in-reverse low (ids es) ∙ is_in_below low low seq es (omega arith) a)

only_ids-cons :
    (is : List ℕ) (e : JournalEntry) (es : List JournalEntry)
    → is_in e.id is ≡ false
    → only_ids is (e ∷ es) ≡ only_ids is es
unfolding only_ids
only_ids-cons is e es h = rw (h, only_ids)

-- With ascending ids the entries kept are the last `keep` ones.
only_ids-latest :
    (keep low seq : ℕ) (es : List JournalEntry)
    → Ascends low es seq
    → only_ids (latest_ids keep es) es ≡ drop (length es - keep) es
only_ids-latest keep low seq [] a = unfold only_ids in ground arith
only_ids-latest keep low seq (e ∷ es) a = elim (Bool-cases (leb keep (length es))) [
  | inl more ↦
      let within : keep ≤ length es = ground arith in
      let count : suc (length es) - keep ≡ suc (length es - keep) = omega arith in
      rw (latest_ids-cons keep e es within, count)
        (only_ids-cons (latest_ids keep es) e es (not_in_latest keep e.id seq es a.1)
          ∙ only_ids-latest keep e.id seq es a.1)
  | inr all ↦
      let short : length (e ∷ es) ≤ keep = ground arith in
      let none_dropped : suc (length es) - keep ≡ 0 = omega arith in
      rw (latest_ids_all keep (e ∷ es) short, none_dropped)
        (only_ids-All (reverse (ids (e ∷ es))) (e ∷ es)
          (ids_in (reverse (ids (e ∷ es))) (e ∷ es) (λ i p. is_in-reverse i (ids (e ∷ es)) ∙ p)))
]

Ascends-weaken :
    (low low' seq : ℕ) (es : List JournalEntry)
    → low' ≤ low
    → Ascends low es seq
    → Ascends low' es seq
Ascends-weaken low low' seq [] h a = omega arith
Ascends-weaken low low' seq (e ∷ es) h a = (omega arith, a.1)

Ascends-drop :
    (n low seq : ℕ) (es : List JournalEntry) → Ascends low es seq → Ascends low (drop n es) seq
Ascends-drop zero low seq es a = a
Ascends-drop (suc n) low seq [] a = a
Ascends-drop (suc n) low seq (e ∷ es) a =
    Ascends-drop n low seq es (Ascends-weaken e.id low seq es (omega arith) a.1)

pub prune-HasOrderedJournal :
    (keep : ℕ) (t : Tables) → HasOrderedJournal t → HasOrderedJournal (prune keep t)
unfolding prune
prune-HasOrderedJournal keep t h =
    rw (only_ids-latest keep 0 t.journal_seq t.journal h)
      (Ascends-drop (length t.journal - keep) 0 t.journal_seq t.journal h)

module _ {V : Type 0} (env : Env V) where
  -- Where the ids ascend, pruning that succeeds keeps the newest `keep` entries in their order, and answers how many it
  -- deleted; every other table stays.
  pub prune_journal-newest :
      (keep deleted : ℕ) (w w' : World V)
      → HasOrderedJournal w.store
      → prune_journal env keep w ≡ (ok deleted, w')
      → (w'.store.journal ≡ drop (length w.store.journal - keep) w.store.journal)
        × (deleted ≡ length w.store.journal - keep)
        × (w'.store.units ≡ w.store.units)
        × (w'.store.audit_log ≡ w.store.audit_log)
  unfolding prune_journal prune
  prune_journal-newest keep deleted w w' h e =
      let j = w.store.journal in
      ground
        (arith, only_ids-latest keep 0 w.store.journal_seq j h, length-drop (length j - keep) j)
