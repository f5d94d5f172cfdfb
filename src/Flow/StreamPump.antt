-- ===== src/Flow/StreamPump.antt =====
-- valuerpc/pump.go. The state of a pump is that under its mutex, with the point that its goroutine has
-- reached and the values that it has handed to the `out` channel. Each event below is one critical
-- section or one channel operation, so a list of events is an interleaving of the callers, the
-- goroutine and the consumer. `nil_value` is Go's nil; `grow c n` is the capacity that the Go runtime
-- gives a slice of capacity `c` when `append` needs room for `n` elements.
pub mod Pending
pub mod Steps
pub mod Occupancy
pub mod Order
pub mod Drain
pub mod Default
use value_rpc.Prelude.{
  ℕ, suc, ◌+◌, ◌-◌, Bool, true, false, not, ◌&&◌, ◌||◌, if◌then◌else◌, ltb, leb, ◌==◌, List, [],
  ◌∷◌, ◌++◌, Option, none, some, length, get_elem?, set, drop, sle,
}

-- The goroutine waits at the top of its loop, offers a value to the channel, or has returned.
pub data Runner {ℓ} (A : Type ℓ) : Type ℓ where
  idle finished panicked : Runner A
  sending : A → Runner A

pub record StreamPump {ℓ} (A : Type ℓ) : Type ℓ where
  pub queue : List A
  pub cap : ℕ
  pub head : ℕ
  pub input_end : Bool
  pub overflow : Bool
  pub max_pending : ℕ
  pub stopped : Bool
  pub runner : Runner A
  pub out : List A
  pub out_closed : Bool

abbrev pub default_max_pending : ℕ
default_max_pending = 4096

-- The bound of a pump that is asked for one.
abbrev pub at_least_default : ℕ → ℕ
at_least_default max_pending = if sle max_pending 0 then default_max_pending else max_pending

unfoldable pub new_stream_pump {ℓ} : {A : Type ℓ} → ℕ → StreamPump A
new_stream_pump max_pending = record {
  queue = [];
  cap = 0;
  head = 0;
  input_end = false;
  overflow = false;
  max_pending = at_least_default max_pending;
  stopped = false;
  runner = idle;
  out = [];
  out_closed = false;
}

module _ {ℓ} {A : Type ℓ} where
  -- len(p.queue) - p.head
  abbrev pub backlog : StreamPump A → ℕ
  backlog p = length p.queue - p.head

  unfoldable pub compact : StreamPump A → StreamPump A
  compact p =
      if ltb 0 p.head && (length p.queue == p.cap)
      then record p { queue = drop p.head p.queue; head = 0 }
      else p

  unfoldable pub append : (ℕ → ℕ → ℕ) → A → StreamPump A → StreamPump A
  append grow v p = record p {
    queue = p.queue ++ v ∷ [];
    cap = if ltb (length p.queue) p.cap then p.cap else grow p.cap (length p.queue + 1);
  }

  unfoldable pub push : (ℕ → ℕ → ℕ) → A → StreamPump A → StreamPump A × Bool
  push grow v p =
      if p.input_end || p.stopped
      then (p, false)
      else if leb p.max_pending (backlog p)
      then (record p { overflow = true; input_end = true }, false)
      else (append grow v (compact p), true)

  unfoldable pub close : StreamPump A → StreamPump A
  close p = record p { input_end = true }

  unfoldable pub stop : StreamPump A → StreamPump A
  stop p = record p { stopped = true }

  unfoldable pub finish : StreamPump A → StreamPump A
  finish p = record p { runner = finished; out_closed = true }

  -- Indexing out of range is a panic.
  unfoldable pub dequeue : A → Option A → StreamPump A → StreamPump A
  dequeue nil_value none p = record p { runner = panicked }
  dequeue nil_value (some v) p =
      if suc p.head == length p.queue
      then record p { queue = []; head = 0; runner = sending v }
      else record p { queue = set p.queue p.head nil_value; head = suc p.head; runner = sending v }

  -- The critical section of the loop in `run`.
  unfoldable pub take_from : A → Runner A → StreamPump A → StreamPump A
  unfolding finish dequeue
  take_from nil_value idle p =
      if (backlog p == 0) && (not p.input_end && not p.stopped)
      then p
      else if p.stopped
      then finish p
      else if backlog p == 0
      then finish p
      else dequeue nil_value (get_elem? p.queue p.head) p
  take_from nil_value _ p = p

  unfoldable pub take : A → StreamPump A → StreamPump A
  unfolding take_from
  take nil_value p = take_from nil_value p.runner p

  -- The select of `run`: the channel takes the value.
  unfoldable pub deliver_from : Runner A → StreamPump A → StreamPump A
  deliver_from (sending v) p = record p { out = p.out ++ v ∷ []; runner = idle }
  deliver_from _ p = p

  unfoldable pub deliver : StreamPump A → StreamPump A
  unfolding deliver_from
  deliver p = deliver_from p.runner p

  -- The select of `run`: the stop channel is closed first.
  unfoldable pub interrupt_from : Runner A → StreamPump A → StreamPump A
  unfolding finish
  interrupt_from (sending v) p = if p.stopped then finish p else p
  interrupt_from _ p = p

  unfoldable pub interrupt : StreamPump A → StreamPump A
  unfolding interrupt_from
  interrupt p = interrupt_from p.runner p

-- `push` reports acceptance; the other events have nothing to report.
pub data Event {ℓ} (A : Type ℓ) : Type ℓ where
  pushes : A → Event A
  closes stops takes delivers interrupts : Event A

module _ {ℓ} {A : Type ℓ} (nil_value : A) (grow : ℕ → ℕ → ℕ) where
  -- A pump with the values whose `Push` returned true.
  unfoldable pub step : StreamPump A × List A → Event A → StreamPump A × List A
  unfolding push close stop take deliver interrupt append compact
  step (p, accepted) (pushes v) =
      let (q, done) = push grow v p in (q, if done then accepted ++ v ∷ [] else accepted)
  step (p, accepted) closes = (close p, accepted)
  step (p, accepted) stops = (stop p, accepted)
  step (p, accepted) takes = (take nil_value p, accepted)
  step (p, accepted) delivers = (deliver p, accepted)
  step (p, accepted) interrupts = (interrupt p, accepted)

  unfoldable pub run : StreamPump A × List A → List (Event A) → StreamPump A × List A
  run s [] = s
  run s (e ∷ es) = run (step s e) es
