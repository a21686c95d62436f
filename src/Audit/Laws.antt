-- ===== src/Audit/Laws.antt =====
-- What a flush does to the audit log.
use vasal.Prelude.{
  ℕ, zero, suc, ◌≤◌, ◌<◌, ◌==◌, String, Option, none, some, List, [], ◌∷◌, map, length, take, drop,
  true, false, ◌≡◌, refl, ap, ◌∙◌, inl, inr, Bool-cases, arith,
}
use vasal.Prelude.Results.{ok, err}
use vasal.Host.{Env, Trace}
use vasal.Host.Act.{World, happen}
use vasal.Host.Events.{sql}
use vasal.Host.Attempt.{Error}
use vasal.Store.Sql.{AuditRow, AuditEntry, unforwarded, set_forwarded}
use vasal.Store.{statement, pending_audit_events, mark_forwarded}
use vasal.Audit.{ids_of, delivered, deliver, flush, flush_once, event_json}

-- Ids ascend, from above `low`.
abbrev pub Ascends : ℕ → List AuditEntry → Type 0
Ascends low [] = Unit
Ascends low (e ∷ es) = (low < e.id) × Ascends e.id es

-- Every id marked in turn.
abbrev pub mark_each : List ℕ → List AuditEntry → List AuditEntry
mark_each [] log = log
mark_each (i ∷ is) log = mark_each is (set_forwarded i log)

set_forwarded_below :
    (i low : ℕ) (es : List AuditEntry) → i ≤ low → Ascends low es → set_forwarded i es ≡ es
unfolding set_forwarded
set_forwarded_below i low [] h a = refl
set_forwarded_below i low (e ∷ es) h a =
    let other : (e.id == i) ≡ false = ground arith in
    rw (other, set_forwarded_below i e.id es (omega arith) a.1) refl

-- Marking more ids leaves a forwarded entry as it is.
mark_each-done :
    (is : List ℕ) (e : AuditEntry) (es : List AuditEntry)
    → e.forwarded ≡ true
    → unforwarded (mark_each is (e ∷ es)) ≡ unforwarded (mark_each is es)
unfolding set_forwarded unforwarded
mark_each-done [] e es h = rw h refl
mark_each-done (i ∷ is) e es h = elim (Bool-cases (e.id == i)) [
  | inl p ↦ rw p (mark_each-done is (record e { forwarded = true }) (set_forwarded i es) refl)
  | inr p ↦ rw p (mark_each-done is e (set_forwarded i es) h)
]

forwarded-cons :
    (e : AuditEntry) (es : List AuditEntry)
    → e.forwarded ≡ true
    → unforwarded (e ∷ es) ≡ unforwarded es
unfolding unforwarded
forwarded-cons e es p = rw p refl

pending-cons :
    (e : AuditEntry) (es : List AuditEntry)
    → e.forwarded ≡ false
    → unforwarded (e ∷ es) ≡ record e.row { id = some e.id } ∷ unforwarded es
unfolding unforwarded
pending-cons e es p = rw p refl

set_forwarded-head :
    (low : ℕ) (e : AuditEntry) (es : List AuditEntry)
    → Ascends low (e ∷ es)
    → set_forwarded e.id (e ∷ es) ≡ record e { forwarded = true } ∷ es
unfolding set_forwarded
set_forwarded-head low e es a =
    let this : (e.id == e.id) ≡ true = ground arith in
    rw (this, set_forwarded_below e.id e.id es (omega arith) a.1) refl

-- Marking the first rows that are not forwarded leaves the others.
mark_each-unforwarded :
    (n low : ℕ) (es : List AuditEntry)
    → Ascends low es
    → unforwarded (mark_each (ids_of (take n (unforwarded es))) es) ≡ drop n (unforwarded es)
unfolding ids_of
mark_each-unforwarded zero low es a = refl
mark_each-unforwarded (suc n) low [] a = unfold unforwarded in refl
mark_each-unforwarded (suc n) low (e ∷ es) a = elim (Bool-cases e.forwarded) [
  | inl p ↦ rw (forwarded-cons e es p) (
      mark_each-done (ids_of (take (suc n) (unforwarded es))) e es p
      ∙ mark_each-unforwarded (suc n) e.id es a.1)
  | inr p ↦ rw (pending-cons e es p) (
      ap (λ l. unforwarded (mark_each (ids_of (take n (unforwarded es))) l))
        (set_forwarded-head low e es a)
      ∙ mark_each-done (ids_of (take n (unforwarded es))) (record e { forwarded = true }) es refl
      ∙ mark_each-unforwarded n e.id es a.1)
]

module _ {V : Type 0} (env : Env V) where
  -- A failed delivery is the flush's error and changes no table: every event stays pending.
  pub flush_failed :
      (endpoint : String) (e : AuditRow) (es : List AuditRow) (error : Error) (w : World V)
      → delivered env (env.post w.trace endpoint (some (env.array (map (event_json env) (e ∷ es)))))
        ≡ err error
      → ((flush env endpoint (e ∷ es) w).0 ≡ err error)
        × ((flush env endpoint (e ∷ es) w).1.store ≡ w.store)
  unfolding flush deliver
  flush_failed endpoint e es error w h = (rw h refl, rw h refl)

  mark_forwarded_lem :
      (is : List ℕ) (w : World V)
      → ((t : Trace V) → env.refuse t ≡ none)
      → ((mark_forwarded env is w).0 ≡ ok tt)
        × ((mark_forwarded env is w).1.store.audit_log ≡ mark_each is w.store.audit_log)
  unfolding mark_forwarded
  mark_forwarded_lem [] w h = (refl, refl)
  mark_forwarded_lem (i ∷ is) w h = rw (h w.trace, statement) (mark_forwarded_lem is _ h)

  deliver_ok :
      (endpoint : String) (events : List AuditRow) (w : World V)
      → ((t : Trace V) (v : Option V) → delivered env (env.post t endpoint v) ≡ ok tt)
      → (deliver env endpoint events w).0 ≡ ok tt
  unfolding deliver
  deliver_ok endpoint events w d = d w.trace _

  -- The log after a flush whose delivery succeeds.
  flush-mark_each :
      (endpoint : String) (events : List AuditRow) (w : World V)
      → ((t : Trace V) → env.refuse t ≡ none)
      → ((t : Trace V) (v : Option V) → delivered env (env.post t endpoint v) ≡ ok tt)
      → ((flush env endpoint events w).0 ≡ ok (length events))
        × ((flush env endpoint events w).1.store.audit_log
            ≡ mark_each (ids_of events) w.store.audit_log)
  unfolding flush ids_of
  flush-mark_each endpoint [] w h d = (refl, refl)
  flush-mark_each endpoint (e ∷ es) w h d =
      let w' = (deliver env endpoint (e ∷ es) w).1 in
      let m = mark_forwarded_lem (ids_of (e ∷ es)) w' h in
      (
        rw (deliver_ok endpoint (e ∷ es) w d, m.0) refl,
        rw (deliver_ok endpoint (e ∷ es) w d) (rw m.0 m.1),
      )

  -- Where SQLite refuses nothing, the endpoint accepts what is posted and the ids of the log ascend, a
  -- flush of at most `n` events
  -- answers how many it sent, and afterwards the first `n` pending events, and no others, are no
  -- longer pending; the others keep their order.
  pub flush_once-drops :
      (endpoint : String) (n : ℕ) (w : World V)
      → ((t : Trace V) → env.refuse t ≡ none)
      → ((t : Trace V) (v : Option V) → delivered env (env.post t endpoint v) ≡ ok tt)
      → Ascends 0 w.store.audit_log
      → ((flush_once env endpoint n w).0 ≡ ok (length (take n (unforwarded w.store.audit_log))))
        × (unforwarded (flush_once env endpoint n w).1.store.audit_log
            ≡ drop n (unforwarded w.store.audit_log))
  unfolding flush_once pending_audit_events
  flush_once-drops endpoint n w h d a =
      let batch = take n (unforwarded w.store.audit_log) in
      let f = flush-mark_each endpoint batch (happen sql w) h d in
      (
        rw (h w.trace, statement) f.0,
        rw (h w.trace, statement)
            (ap unforwarded f.1 ∙ mark_each-unforwarded n 0 w.store.audit_log a),
      )
