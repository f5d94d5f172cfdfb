-- ===== src/Outbox.antt =====
-- The messages of a session on their way out: send, sender, replaceConn and Close of
-- valueserver/serving_client.go. The connections of a session are numbered as they come, and a write is
-- attempted on the one that is active when the sender has taken the message.
pub mod Sequence
use value_rpc.Prelude.{
  ℕ, ◌+◌, Bool, true, false, ltb, if◌then◌else◌, List, [], ◌∷◌, ◌++◌, Option, none, some, length,
}

-- `accepted` has the messages for which send returned nil, `attempts` those that the sender took, with
-- the connection that each was written to, whether or not the write failed.
pub record Outbox (M : Type 0) : Type 0 where
  pub capacity : ℕ
  pub outgoing_queue : List M
  pub active_conn : ℕ
  pub done : Bool
  pub sender_stopped : Bool
  pub accepted : List M
  pub attempts : List (ℕ × M)

unfoldable pub new_outbox : {M : Type 0} → ℕ → Outbox M
new_outbox capacity = record {
  capacity = capacity;
  outgoing_queue = [];
  active_conn = 0;
  done = false;
  sender_stopped = false;
  accepted = [];
  attempts = [];
}

-- A send is queued, or returns ErrClientClosed and changes nothing.
pub data Event (M : Type 0) : Type 0 where
  sends : M → Event M
  sender_takes sender_stops conn_replaced closes : Event M

module _ {M : Type 0} where
  -- The case of send that queues, which blocks while the queue is full.
  unfoldable pub enqueue : M → Outbox M → Outbox M
  enqueue x o =
      if ltb (length o.outgoing_queue) o.capacity
      then record o { outgoing_queue = o.outgoing_queue ++ x ∷ []; accepted = o.accepted ++ x ∷ [] }
      else o

  -- The case of sender that takes a message. A failed write is logged, and the message not queued again.
  unfoldable pub take_from : Outbox M → List M → Outbox M
  take_from o [] = o
  take_from o (x ∷ rest) = record o {
    outgoing_queue = rest;
    attempts = o.attempts ++ (o.active_conn, x) ∷ [];
  }

  unfoldable pub sender_take : Outbox M → Outbox M
  unfolding take_from
  sender_take o = if o.sender_stopped then o else take_from o o.outgoing_queue

  unfoldable pub sender_stop : Outbox M → Outbox M
  sender_stop o = if o.done then record o { sender_stopped = true } else o

  unfoldable pub step : Event M → Outbox M → Outbox M
  unfolding enqueue sender_take sender_stop
  step (sends x) o = enqueue x o
  step sender_takes o = sender_take o
  step sender_stops o = sender_stop o
  step conn_replaced o = record o { active_conn = o.active_conn + 1 }
  step closes o = record o { done = true }

  unfoldable pub run : List (Event M) → Outbox M → Outbox M
  unfolding step
  run [] o = o
  run (e ∷ es) o = run es (step e o)
