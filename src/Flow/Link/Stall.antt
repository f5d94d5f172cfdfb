-- ===== src/Flow/Link/Stall.antt =====
-- A server whose bound on pending values is not positive. `NewStreamPump` replaces such a bound by the
-- default, and so do the windows of the other two receivers, but `setupInbound` grants it as it is.
use value_rpc.Prelude.{ℕ, ◌≡◌, ◌≢◌, sym, subst, ◌⊎◌, true, false, [], ◌∷◌, sle, arith}
use value_rpc.Flow.CreditGate.{acquire, grant, taken, new_credit_gate}
use value_rpc.Flow.CreditGate
use value_rpc.Flow.StreamPump.{StreamPump, new_stream_pump}
use value_rpc.Flow.StreamPump.Pending.{IsInRange}
use value_rpc.Flow.StreamPump.Occupancy.{occupancy, take-Same}
use value_rpc.Flow.Meter.{inbound_meter}
use value_rpc.Flow.Link.{
  Link, inbound_link, fetch, refill, Step, sends, ends_with, arrives, fetches, delivers, opens,
  refills, closes, closes_gate, ends_input, stops, gives_up, Reach, here, next,
}
use value_rpc.Flow.Link.Teardown.{Releases, close-Releases, stop-Releases, interrupt-Releases}

module _ {A : Type 0} where
  -- Nothing is on the way but the grant that the sender will ignore.
  record IsStuck (w : ℕ) (s : Link A) : Type 0 where
    in_range : IsInRange s.pump
    empty : occupancy s.pump ≡ 0
    silent : s.wire ≡ []
    broke : s.gate.credit ≡ 0
    started : s.opened ≡ true
    asked : s.initiated ≡ false
    useless : (s.grants ≡ []) ⊎ (s.grants ≡ w ∷ [])

  released-IsStuck :
      (w : ℕ) (s : Link A) (q : StreamPump A)
      → Releases s.pump q
      → IsStuck w s
      → IsStuck w (record s { pump = q })
  released-IsStuck w s q r k = record {
    in_range = rw (r.kept_head, r.kept_queue) k.in_range;
    empty = omega arith;
    silent = k.silent;
    broke = k.broke;
    started = k.started;
    asked = k.asked;
    useless = k.useless;
  }

  blocked_of : (w : ℕ) (s : Link A) → IsStuck w s → (acquire s.gate).1 ≢ taken
  unfolding acquire
  blocked_of w s k = ground arith

  Step-IsStuck :
      (nil_value : A) (grow : ℕ → ℕ → ℕ) (w : ℕ) {s t : Link A}
      → sle w 0 ≡ true
      → Step nil_value grow s t
      → IsStuck w s
      → IsStuck w t
  unfolding fetch refill grant CreditGate.close
  Step-IsStuck nil_value grow w {s} z (sends v n a e) k = absurd (blocked_of w s k a)
  Step-IsStuck nil_value grow w {s} z (ends_with v o c n e) k = ground (arith, k.asked)
  Step-IsStuck nil_value grow w {s} z (arrives v rest q e) k = ground (arith, k.silent)
  Step-IsStuck nil_value grow w {s} z (fetches e) k =
      ground (arith, take-Same nil_value s.pump k.in_range)
  Step-IsStuck nil_value grow w {s} z (delivers v q e) k = ground (arith, k.empty)
  Step-IsStuck nil_value grow w {s} z (opens v rest o q e) k = ground (arith, k.started)
  Step-IsStuck nil_value grow w {s} z (refills n rest q e) k = ground arith
  Step-IsStuck nil_value grow w {s} z (closes e) k = ground arith
  Step-IsStuck nil_value grow w {s} z (closes_gate e) k = ground arith
  Step-IsStuck nil_value grow w {s} z (ends_input e) k =
      subst (IsStuck w) (sym e) (released-IsStuck w s _ (close-Releases s.pump) k)
  Step-IsStuck nil_value grow w {s} z (stops e) k =
      subst (IsStuck w) (sym e) (released-IsStuck w s _ (stop-Releases s.pump) k)
  Step-IsStuck nil_value grow w {s} z (gives_up e) k =
      subst (IsStuck w) (sym e) (released-IsStuck w s _ (interrupt-Releases s.pump) k)

  inbound-IsStuck : (w : ℕ) → IsStuck w (inbound_link w)
  unfolding inbound_link new_credit_gate new_stream_pump inbound_meter
  inbound-IsStuck w = ground arith

  Reach-IsStuck :
      (nil_value : A) (grow : ℕ → ℕ → ℕ) (w : ℕ) {s t : Link A}
      → sle w 0 ≡ true
      → IsStuck w s
      → Reach nil_value grow s t
      → IsStuck w t
  Reach-IsStuck nil_value grow w z k here = k
  Reach-IsStuck nil_value grow w z k (next r st) =
      Step-IsStuck nil_value grow w z st (Reach-IsStuck nil_value grow w z k r)

-- A stream into a server that is configured with a bound of zero or less never carries a value: in no
-- reachable state does the client get a credit, and the receiver's pump stays empty.
pub nonpositive_bound_stalls :
    {A : Type 0} (nil_value : A) (grow : ℕ → ℕ → ℕ) (w : ℕ) (t : Link A)
    → sle w 0 ≡ true
    → Reach nil_value grow (inbound_link w) t
    → ((acquire t.gate).1 ≢ taken) × (t.wire ≡ []) × (occupancy t.pump ≡ 0)
nonpositive_bound_stalls nil_value grow w t z r =
    let k = Reach-IsStuck nil_value grow w z (inbound-IsStuck w) r in
    (blocked_of w t k, k.silent, k.empty)
