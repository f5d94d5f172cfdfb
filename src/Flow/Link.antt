-- ===== src/Flow/Link.antt =====
-- One stream direction from end to end: the sender's gate, the frames on the way to the receiver, its
-- pump with the delivery hook, and the StreamCredit messages on the way back. A step is one action of
-- the sender's streamer, of either read loop, of the pump's goroutine, or of a teardown. The
-- connection delivers every frame, in order.
pub mod Account
pub mod Steps
pub mod Teardown
pub mod Safety
pub mod Stall
use value_rpc.Prelude.{ℕ, ◌+◌, ◌≡◌, Bool, true, false, List, [], ◌∷◌, ◌++◌, Option, none, some}
use value_rpc.Flow.CreditGate.{CreditGate, new_credit_gate, acquire, grant, taken}
use value_rpc.Flow.CreditGate
use value_rpc.Flow.StreamPump.{
  StreamPump, new_stream_pump, push, take, deliver, interrupt, stop, sending,
}
use value_rpc.Flow.StreamPump
use value_rpc.Flow.Meter.{Meter, inbound_meter, initiator_meter, grant_recv, message}

-- `wire` holds the values of the StreamValue, StreamReady and StreamEnd frames on the way, `none` for a
-- null one. `nulls_lost` counts the null values that the receiver has passed over. `opened`: the receiver
-- has sent its initial window. `initiated`: the receiver has asked for the stream, so that its sender is an
-- outgoingStreamer. `closed` is that sender's flag, and `ended` tells that it has sent its StreamEnd.
pub record Link (A : Type 0) : Type 0 where
  pub gate : CreditGate
  pub wire : List (Option A)
  pub grants : List ℕ
  pub pump : StreamPump A
  pub meter : Meter
  pub nulls_lost : ℕ
  pub opened : Bool
  pub initiated : Bool
  pub closed : Bool
  pub ended : Bool

-- A client's stream into the server: `setupInbound`, then `grantInitialInbound`.
unfoldable pub inbound_link : {A : Type 0} → ℕ → Link A
inbound_link max_pending = record {
  gate = new_credit_gate;
  wire = [];
  grants = max_pending ∷ [];
  pump = new_stream_pump max_pending;
  meter = inbound_meter max_pending;
  nulls_lost = 0;
  opened = true;
  initiated = false;
  closed = false;
  ended = false;
}

-- A stream that the receiver has asked for, with the sender's StreamReady on the way: it goes through
-- the pump as a nil. `sendInitialCredit` waits for it.
unfoldable pub initiated_link : {A : Type 0} → A → ℕ → Link A
initiated_link nil_value max_pending = record {
  gate = new_credit_gate;
  wire = some nil_value ∷ [];
  grants = [];
  pump = new_stream_pump max_pending;
  meter = initiator_meter max_pending;
  nulls_lost = 0;
  opened = false;
  initiated = true;
  closed = false;
  ended = false;
}

module _ {A : Type 0} where
  -- The streamer gets a credit and sends a StreamValue.
  unfoldable pub send : Option A → Link A → Link A
  send v s = record s { gate = (acquire s.gate).0; wire = s.wire ++ v ∷ [] }

  -- An outgoingStreamer that has taken a value and finds its request closed sends the value in a
  -- StreamEnd, without a credit, and stops.
  unfoldable pub end_with : Option A → Link A → Link A
  end_with v s = record s { wire = s.wire ++ v ∷ []; ended = true }

  -- The receiver's read loop hands the value of the next frame to the pump, and passes over a null.
  unfoldable pub arrive : (ℕ → ℕ → ℕ) → Option A → List (Option A) → Link A → Link A
  arrive grow none rest s = record s { wire = rest; nulls_lost = s.nulls_lost + 1 }
  arrive grow (some v) rest s = record s { wire = rest; pump = (push grow v s.pump).0 }

  -- The pump's goroutine takes the next value from its queue.
  unfoldable pub fetch : A → Link A → Link A
  fetch nil_value s = record s { pump = take nil_value s.pump }

  -- The consumer's channel takes the value, and the hook runs.
  unfoldable pub hand_over : Link A → Link A
  hand_over s =
      let (m, c) = grant_recv true s.meter in
      record s { pump = deliver s.pump; meter = m; grants = s.grants ++ message c }

  -- `sendInitialCredit`
  unfoldable pub open_window : Link A → Link A
  open_window s = record s { grants = s.grants ++ s.meter.window ∷ []; opened = true }

  -- The sender's read loop takes the next StreamCredit.
  unfoldable pub refill : ℕ → List ℕ → Link A → Link A
  refill n rest s = record s { gate = grant s.gate n; grants = rest }

module _ {A : Type 0} (nil_value : A) (grow : ℕ → ℕ → ℕ) where
  pub data Step (s t : Link A) : Type 0 where
    sends : (v : Option A) → s.ended ≡ false → (acquire s.gate).1 ≡ taken → t ≡ send v s → Step s t
    ends_with :
        (v : Option A)
        → s.initiated ≡ true
        → s.closed ≡ true
        → s.ended ≡ false
        → t ≡ end_with v s
        → Step s t
    arrives :
        (v : Option A) (rest : List (Option A))
        → s.wire ≡ v ∷ rest
        → t ≡ arrive grow v rest s
        → Step s t
    fetches : t ≡ fetch nil_value s → Step s t
    delivers : (v : A) → s.pump.runner ≡ sending v → t ≡ hand_over s → Step s t
    opens :
        (v : A) (rest : List A)
        → s.opened ≡ false
        → s.pump.out ≡ v ∷ rest
        → t ≡ open_window s
        → Step s t
    refills : (n : ℕ) (rest : List ℕ) → s.grants ≡ n ∷ rest → t ≡ refill n rest s → Step s t
    closes : t ≡ record s { closed = true } → Step s t
    closes_gate : t ≡ record s { gate = CreditGate.close s.gate } → Step s t
    ends_input : t ≡ record s { pump = StreamPump.close s.pump } → Step s t
    stops : t ≡ record s { pump = stop s.pump } → Step s t
    gives_up : t ≡ record s { pump = interrupt s.pump } → Step s t

  pub data Reach (s : Link A) : Link A → Type 0 where
    here : Reach s s
    next : {t u : Link A} → Reach s t → Step t u → Reach s u
