-- ===== src/Flow/Link/Teardown.antt =====
-- The ends of a stream's pump keep its account.
use value_rpc.Prelude.{ℕ, ◌≤◌, ◌≡◌, ◌∙◌, Bool, true, false, arith}
use value_rpc.Flow.StreamPump.{
  StreamPump, push, take, deliver, interrupt, stop, sending, Runner, backlog,
}
use value_rpc.Flow.StreamPump
use value_rpc.Flow.StreamPump.Occupancy.{occupancy, interrupt-occupancy}
use value_rpc.Flow.Link.{Link}
use value_rpc.Flow.Link.Account.{Phase, Inv}

module _ {A : Type 0} where
  -- An operation on the pump that takes in no value and keeps its bound.
  pub record Releases (p q : StreamPump A) : Type 0 where
    pub kept_bound : q.max_pending ≡ p.max_pending
    pub kept_calm : q.overflow ≡ p.overflow
    pub kept_out : q.out ≡ p.out
    pub kept_head : q.head ≡ p.head
    pub kept_queue : q.queue ≡ p.queue
    pub fewer : occupancy q ≤ occupancy p
    pub live :
        q.input_end ≡ false
        → q.stopped ≡ false
        → (p.input_end ≡ false) × (p.stopped ≡ false) × (occupancy q ≡ occupancy p)

  teardown-Phase :
      (w : ℕ) (s : Link A) (q : StreamPump A) (b : Bool)
      → Releases s.pump q
      → Phase w s b
      → Phase w (record s { pump = q }) b
  teardown-Phase w s q true r f = ground (arith, r.live)
  teardown-Phase w s q false r f = ground arith

  pub teardown-Inv :
      (w : ℕ) (s : Link A) (q : StreamPump A)
      → Releases s.pump q
      → Inv w s
      → Inv w (record s { pump = q })
  teardown-Inv w s q r i = record {
    positive = i.positive;
    small = i.small;
    in_range = rw (r.kept_head, r.kept_queue) i.in_range;
    bound = r.kept_bound ∙ i.bound;
    calm = r.kept_calm ∙ i.calm;
    metered = i.metered;
    phase = teardown-Phase w s q s.opened r i.phase;
  }

  pub close-Releases : (p : StreamPump A) → Releases p (StreamPump.close p)
  unfolding StreamPump.close
  close-Releases p = ground arith

  pub stop-Releases : (p : StreamPump A) → Releases p (stop p)
  unfolding stop
  stop-Releases p = ground arith

  pub interrupt-Releases : (p : StreamPump A) → Releases p (interrupt p)
  interrupt-Releases p = ground (arith, interrupt-occupancy p)
