-- ===== src/Flow/Link/Steps.antt =====
-- Every step of a stream direction keeps its account.
use value_rpc.Prelude.{
  ℕ, ◌+◌, ◌<◌, ◌≡◌, subst, ◌∙◌, Bool, true, false, List, [], ◌∷◌, ◌++◌, Option, none, some,
  length-append, sum, sum-append, append-nil, two63, arith,
}
use value_rpc.Flow.CreditGate.{CreditGate, acquire, grant, taken}
use value_rpc.Flow.CreditGate
use value_rpc.Flow.StreamPump.{sending, backlog}
use value_rpc.Flow.StreamPump.Pending.{IsInRange, push-bounded}
use value_rpc.Flow.StreamPump.Occupancy.{push-occupancy, take-Same, deliver-occupancy}
use value_rpc.Flow.Meter.{
  grant_recv, message, amount, batch_bounds, grant_recv_lem, grant_recv_ready, grant_recv-window,
}
use value_rpc.Flow.Link.{Link, send, arrive, fetch, hand_over, open_window, refill}
use value_rpc.Flow.Link.Account.{nulls, IsSettled, IsOpening, Phase, Inv}

sum-message : (gs : List ℕ) (c : Option ℕ) → sum (gs ++ message c) ≡ sum gs + amount c
sum-message gs none = rw append-nil (omega arith)
sum-message gs (some n) = omega (arith, sum-append gs (n ∷ []))

module _ {A : Type 0} where
  send-Phase :
      (w : ℕ) (s : Link A) (v : Option A) (b : Bool)
      → w < two63
      → (acquire s.gate).1 ≡ taken
      → Phase w s b
      → Phase w (send v s) b
  unfolding send acquire
  send-Phase w s v true h a f = ground (arith, length-append s.wire (v ∷ []))
  send-Phase w s v false h a f = ground arith

  pub send-Inv :
      (w : ℕ) (s : Link A) (v : Option A) → (acquire s.gate).1 ≡ taken → Inv w s → Inv w (send v s)
  unfolding send
  send-Inv w s v a i = record {
    positive = i.positive;
    small = i.small;
    in_range = i.in_range;
    bound = i.bound;
    calm = i.calm;
    metered = i.metered;
    phase = send-Phase w s v s.opened i.small a i.phase;
  }

  -- A frame on the way finds room in the pump.
  pub room_of_Phase :
      (w : ℕ) (s : Link A) (v : Option A) (rest : List (Option A)) (b : Bool)
      → 0 < w
      → s.wire ≡ v ∷ rest
      → Phase w s b
      → backlog s.pump < w
  room_of_Phase w s v rest true p e f = ground arith
  room_of_Phase w s v rest false p e f = ground arith

  arrive-Phase :
      (grow : ℕ → ℕ → ℕ) (w : ℕ) (s : Link A) (v : Option A) (rest : List (Option A)) (b : Bool)
      → s.wire ≡ v ∷ rest
      → Inv w s
      → Phase w s b
      → Phase w (arrive grow v rest s) b
  unfolding arrive nulls
  arrive-Phase grow w s none rest true e i f = ground arith
  arrive-Phase grow w s none rest false e i f = ground arith
  arrive-Phase grow w s (some v) rest true e i f =
      ground (arith, push-occupancy grow v s.pump i.in_range, room_of_Phase w s (some v) rest true)
  arrive-Phase grow w s (some v) rest false e i f =
      ground (arith, push-occupancy grow v s.pump i.in_range, room_of_Phase w s (some v) rest false)

  pub arrive-Inv :
      (grow : ℕ → ℕ → ℕ) (w : ℕ) (s : Link A) (v : Option A) (rest : List (Option A))
      → s.wire ≡ v ∷ rest
      → Inv w s
      → Inv w (arrive grow v rest s)
  unfolding arrive
  arrive-Inv grow w s none rest e i = record {
    positive = i.positive;
    small = i.small;
    in_range = i.in_range;
    bound = i.bound;
    calm = i.calm;
    metered = i.metered;
    phase = arrive-Phase grow w s none rest s.opened e i i.phase;
  }
  arrive-Inv grow w s (some v) rest e i =
      let room = room_of_Phase w s (some v) rest s.opened i.positive e i.phase in
      let effect = push-occupancy grow v s.pump i.in_range (omega arith) in
      record {
        positive = i.positive;
        small = i.small;
        in_range = (push-bounded grow v s.pump i.in_range (omega arith)).0;
        bound = effect.0.max_kept ∙ i.bound;
        calm = effect.0.overflow_kept ∙ i.calm;
        metered = i.metered;
        phase = arrive-Phase grow w s (some v) rest s.opened e i i.phase;
      }

  fetch-Phase :
      (nil_value : A) (w : ℕ) (s : Link A) (b : Bool)
      → IsInRange s.pump
      → Phase w s b
      → Phase w (fetch nil_value s) b
  unfolding fetch
  fetch-Phase nil_value w s true i f = ground (arith, take-Same nil_value s.pump i)
  fetch-Phase nil_value w s false i f = ground (arith, take-Same nil_value s.pump i)

  pub fetch-Inv : (nil_value : A) (w : ℕ) (s : Link A) → Inv w s → Inv w (fetch nil_value s)
  unfolding fetch
  fetch-Inv nil_value w s i =
      let (kept, _, _, range) = take-Same nil_value s.pump i.in_range in
      record {
        positive = i.positive;
        small = i.small;
        in_range = range;
        bound = kept.max_kept ∙ i.bound;
        calm = kept.overflow_kept ∙ i.calm;
        metered = i.metered;
        phase = fetch-Phase nil_value w s s.opened i.in_range i.phase;
      }

  hand_over-Phase :
      (w : ℕ) (s : Link A) (v : A) (b : Bool)
      → s.pump.runner ≡ sending v
      → Inv w s
      → Phase w s b
      → Phase w (hand_over s) b
  unfolding hand_over
  hand_over-Phase w s v true e i f = ground (
    arith,
    grant_recv_lem s.meter,
    deliver-occupancy s.pump v e,
    sum-message s.grants (grant_recv true s.meter).1,
  )
  hand_over-Phase w s v false e i f =
      ground (arith, grant_recv_ready s.meter, deliver-occupancy s.pump v e)

  pub hand_over-Inv :
      (w : ℕ) (s : Link A) (v : A) → s.pump.runner ≡ sending v → Inv w s → Inv w (hand_over s)
  unfolding hand_over
  hand_over-Inv w s v e i =
      let (kept, _, _, head, queue) = deliver-occupancy s.pump v e in
      record {
        positive = i.positive;
        small = i.small;
        in_range = rw (head, queue) i.in_range;
        bound = kept.max_kept ∙ i.bound;
        calm = kept.overflow_kept ∙ i.calm;
        metered = grant_recv-window true s.meter ∙ i.metered;
        phase = hand_over-Phase w s v s.opened e i i.phase;
      }

  -- The window is opened after the StreamReady has reached the consumer.
  open_window-Phase :
      (w : ℕ) (s : Link A) (v : A) (rest : List A)
      → s.pump.out ≡ v ∷ rest
      → Inv w s
      → IsOpening s
      → IsSettled w (open_window s)
  unfolding open_window
  open_window-Phase w s v rest e i f =
      ground (arith, sum-append s.grants (s.meter.window ∷ []), batch_bounds w)

  pub open_window-Inv :
      (w : ℕ) (s : Link A) (v : A) (rest : List A)
      → s.opened ≡ false
      → s.pump.out ≡ v ∷ rest
      → Inv w s
      → Inv w (open_window s)
  unfolding open_window
  open_window-Inv w s v rest o e i = record {
    positive = i.positive;
    small = i.small;
    in_range = i.in_range;
    bound = i.bound;
    calm = i.calm;
    metered = i.metered;
    phase = open_window-Phase w s v rest e i (subst (Phase w s) o i.phase);
  }

  refill-Phase :
      (w : ℕ) (s : Link A) (n : ℕ) (rest : List ℕ) (b : Bool)
      → s.grants ≡ n ∷ rest
      → w < two63
      → Phase w s b
      → Phase w (refill n rest s) b
  unfolding refill grant
  refill-Phase w s n rest true e h f = ground arith
  refill-Phase w s n rest false e h f = ground arith

  pub refill-Inv :
      (w : ℕ) (s : Link A) (n : ℕ) (rest : List ℕ)
      → s.grants ≡ n ∷ rest
      → Inv w s
      → Inv w (refill n rest s)
  unfolding refill
  refill-Inv w s n rest e i = record {
    positive = i.positive;
    small = i.small;
    in_range = i.in_range;
    bound = i.bound;
    calm = i.calm;
    metered = i.metered;
    phase = refill-Phase w s n rest s.opened e i.small i.phase;
  }

  close_gate-Phase :
      (w : ℕ) (s : Link A) (b : Bool)
      → Phase w s b
      → Phase w (record s { gate = CreditGate.close s.gate }) b
  unfolding CreditGate.close
  close_gate-Phase w s true f = f
  close_gate-Phase w s false f = f

  close_flag-Phase :
      (w : ℕ) (s : Link A) (b : Bool) → Phase w s b → Phase w (record s { closed = true }) b
  close_flag-Phase w s true f = f
  close_flag-Phase w s false f = f

  pub close_gate-Inv :
      (w : ℕ) (s : Link A) → Inv w s → Inv w (record s { gate = CreditGate.close s.gate })
  close_gate-Inv w s i = record {
    positive = i.positive;
    small = i.small;
    in_range = i.in_range;
    bound = i.bound;
    calm = i.calm;
    metered = i.metered;
    phase = close_gate-Phase w s s.opened i.phase;
  }

  pub close_flag-Inv : (w : ℕ) (s : Link A) → Inv w s → Inv w (record s { closed = true })
  close_flag-Inv w s i = record {
    positive = i.positive;
    small = i.small;
    in_range = i.in_range;
    bound = i.bound;
    calm = i.calm;
    metered = i.metered;
    phase = close_flag-Phase w s s.opened i.phase;
  }
