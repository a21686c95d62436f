-- ===== src/Transport/Grpc/Laws.antt =====
-- The state of the stream: its backoff and its two halves.
use vasal.Prelude.{
  ℕ, zero, suc, ◌+◌, ◌*◌, ◌^◌, ◌≤◌, min, Option, none, some, ◌≡◌, refl, ◌∙◌, ap, arith,
}
use native.Mathlib.Numerals.{unary_clauses}
use vasal.Prelude.Results.{Result, ok, err}
use vasal.Host.Act.{World}
use vasal.Host.Attempt.{Error}
use vasal.Transport.{Wire, Incoming, message, ended, broken}
use vasal.Transport.Grpc.{
  GrpcInner, GrpcTransport, new, max_backoff, initial_backoff, connect, on_incoming, closed,
  read_from, on_connect, reconnect, recv_with, recv_tasks,
}

-- Both halves are there, or neither; the backoff is from 1 to 30 seconds.
pub record IsSound (inner : GrpcInner) : Type 0 where
  pub paired : inner.outbound_tx ≡ inner.inbound_stream
  pub low : initial_backoff ≤ inner.backoff
  pub high : inner.backoff ≤ max_backoff

pub new-IsSound : IsSound new
new-IsSound = record { paired = refl; low = omega arith; high = omega arith }

module _ {V : Type 0} (wire : Wire V) (self : GrpcTransport) where
  closed-IsSound : (inner : GrpcInner) → IsSound inner → IsSound (closed wire inner)
  unfolding closed
  closed-IsSound inner s = record { paired = refl; low = s.low; high = s.high }

  on_incoming-IsSound :
      (inner : GrpcInner) (incoming : Incoming)
      → IsSound inner
      → IsSound (on_incoming wire inner incoming).1
  unfolding on_incoming
  on_incoming-IsSound inner (message _) s = s
  on_incoming-IsSound inner ended s = closed-IsSound inner s
  on_incoming-IsSound inner (broken e) s = closed-IsSound inner s

  on_connect-IsSound :
      (inner : GrpcInner) (r : Result Error ℕ) (w : World V)
      → IsSound inner
      → IsSound (on_connect wire inner r w).0.1
  unfolding on_connect read_from
  on_connect-IsSound inner (ok stream) w s =
      on_incoming-IsSound _ (wire.next_message w.trace stream)
        (record { paired = refl; low = omega arith; high = omega arith })
  on_connect-IsSound inner (err e) w s = record {
    paired = s.paired;
    low = omega (arith, s.low);
    high = omega arith;
  }

  recv_with-IsSound :
      (inner : GrpcInner) (inbound outbound : Option ℕ) (w : World V)
      → IsSound inner
      → IsSound (recv_with wire self inner inbound outbound w).0.1
  unfolding recv_with reconnect read_from
  recv_with-IsSound inner none outbound w s =
      on_connect-IsSound inner (connect wire self w).0 (connect wire self w).1 s
  recv_with-IsSound inner (some stream) none w s =
      on_connect-IsSound inner (connect wire self w).0 (connect wire self w).1 s
  recv_with-IsSound inner (some stream) (some tx) w s =
      on_incoming-IsSound inner (wire.next_message w.trace stream) s

  -- Receiving keeps the transport sound: both halves of the stream are held or neither, and the
  -- backoff is from 1 to 30 seconds.
  pub recv_tasks-IsSound :
      (inner : GrpcInner) (w : World V) → IsSound inner → IsSound (recv_tasks wire self inner w).0.1
  unfolding recv_tasks
  recv_tasks-IsSound inner w s = recv_with-IsSound inner inner.inbound_stream inner.outbound_tx w s

  -- The state and the world after so many receives, one after the other.
  abbrev pub after : ℕ → GrpcInner → World V → GrpcInner × World V
  after zero inner w = (inner, w)
  after (suc n) inner w = let (r, w') = recv_tasks wire self inner w in after n r.1 w'

  failed_connect :
      (r : Result Error ℕ) (inner : GrpcInner) (w : World V) (e : Error)
      → r ≡ err e
      → (on_connect wire inner r w).0.1
        ≡ record inner { backoff = min (inner.backoff * 2) max_backoff }
  unfolding on_connect
  failed_connect (ok s) inner w e h = absurd (cc)
  failed_connect (err e') inner w e h = refl

  -- A transport without a stream, after 2 ^ k seconds of backoff or the most there is.
  abbrev waiting : ℕ → GrpcInner
  waiting k = record new { backoff = min (2 ^ k) max_backoff }

  doubled : (k : ℕ) → min (min (2 ^ k) max_backoff * 2) max_backoff ≡ min (2 ^ (suc k)) max_backoff
  doubled k = simp unary_clauses (omega arith)

  -- Where no stream can be opened, a transport without a stream that would wait 2^k seconds or the
  -- 30 at most has, n receives later, a backoff of 2^(n + k) seconds or the 30 at most.
  pub recv_tasks-backoff :
      ((w : World V) → (e : Error) × ((connect wire self w).0 ≡ err e))
      → (n k : ℕ) (w : World V)
      → (after n (record new { backoff = min (2 ^ k) max_backoff }) w).0
        ≡ record new { backoff = min (2 ^ (n + k)) max_backoff }
  unfolding recv_tasks recv_with reconnect
  recv_tasks-backoff down zero k w =
      ap (λ m. record new { backoff = min (2 ^ m) max_backoff }) (omega arith)
  recv_tasks-backoff down (suc n) k w =
      let step =
        failed_connect (connect wire self w).0 (waiting k) (connect wire self w).1 (down w).0
          (down w).1 in
      ap (λ (inner : GrpcInner). (after n inner (recv_tasks wire self (waiting k) w).1).0)
        (step ∙ ap (λ b. record new { backoff = b }) (doubled k))
      ∙ recv_tasks-backoff down n (suc k) (recv_tasks wire self (waiting k) w).1
      ∙ ap (λ m. record new { backoff = min (2 ^ m) max_backoff }) (omega arith)
