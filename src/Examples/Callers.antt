-- ===== src/Examples/Callers.antt =====
-- The callers' ends: calls that wait for their replies, and openings that fail.
use value_rpc.Memory
use value_rpc.Memory.Open.{Listens, registered_iff}
use value_rpc.Prelude.{
  ◌↔◌, ℕ, ◌≡◌, ◌≤◌, ◌≢◌, refl, true, List, [], ◌∷◌, none, some, length, get_elem?,
}
use value_rpc.Prelude.Maps.{load}
use value_rpc.Outbox
use value_rpc.Outbox.Sequence.{InSequence, run-InSequence}
use value_rpc.Pending.{
  Waiting, got, new_pending, Event, begins, draws, replied, receives, gives_up, run,
}
use value_rpc.Pending.Once.{run-AtMostOne}
use value_rpc.Exchange
use value_rpc.Opening.Client
use value_rpc.Opening.CleansUp.{CleansUp, failed_opening-CleansUp}
use value_rpc.Opening.Server
use value_rpc.Opening.TearsDown.{TearsDown, failed_opening-TearsDown}
use value_rpc.Examples.Exchanges.{one_more}

abbrev second_id : ℕ
second_id = 0xfffffffffffffffd

-- Two calls with a stream between them; the second is answered twice, and the first gives up.
abbrev calls : List (Event ℕ)
calls =
    begins
    ∷ draws
    ∷ begins
    ∷ replied second_id 40
    ∷ replied second_id 41
    ∷ gives_up 0
    ∷ receives 1
    ∷ []

abbrev second : Waiting ℕ
second = record {
  id = second_id;
  channel = [];
  answers = (second_id, 40) ∷ [];
  returned = some (got 40);
}

second_settled : get_elem? (run calls new_pending).calls 1 ≡ some second
unfolding run new_pending load
second_settled = refl

run-AtMostOne_example :
    (length second.channel ≤ 1)
    × ((a : ℕ) → second.returned ≡ some (got a) → second.answers ≡ (second_id, a) ∷ [])
run-AtMostOne_example = run-AtMostOne calls 1 second second_settled

abbrev responses : List (Exchange.Event ℕ ℕ)
responses = Exchange.responds (Exchange.stream_value (some 5)) ∷ Exchange.pump_takes ∷ []

-- Errors are numbers: 80 for no response, 81 for the timeout, 9 for a truncated stream, 82 for the context.
failed_opening-CleansUp_example :
    CleansUp (Client.invoke_unary 80 81 0 9 one_more 8 none responses (Client.cancelled 82))
    × CleansUp (Client.get_stream 80 81 0 9 one_more 8 true 4 none responses (Client.cancelled 82))
    × CleansUp (Client.put_stream 80 81 0 9 one_more 8 true none responses (Client.cancelled 82))
    × CleansUp (Client.chat 80 81 0 9 one_more 8 true 4 none responses (Client.cancelled 82))
failed_opening-CleansUp_example =
    failed_opening-CleansUp 80 81 0 9 one_more 8 true 4 none responses (Client.cancelled 82)

abbrev failures : Server.Failures ℕ
failures = record { closed_before_ready = 80; client_closed = 81; did_not_ack = 82 }

abbrev late : Server.Wake ℕ
late = Server.timed_out none

late_ne_closed : late ≢ Server.closed
late_ne_closed e = cc

failed_opening-TearsDown_example :
    TearsDown {A = ℕ} {E = ℕ} (Server.get_stream failures 0 one_more 8 true 4 true [] late)
    × TearsDown {A = ℕ} {E = ℕ} (Server.put_stream failures 0 one_more 8 true true [] late)
    × TearsDown {A = ℕ} {E = ℕ} (Server.chat failures 0 one_more 8 true 4 true [] late)
failed_opening-TearsDown_example =
    failed_opening-TearsDown failures 0 one_more 8 true 4 true [] late late_ne_closed

-- A listener under the name 7 is closed, and another is made before the close has ended.
abbrev listeners : List Memory.Event
listeners = Memory.listens 7 ∷ Memory.begins_close 0 ∷ Memory.listens 7 ∷ Memory.ends_close 0 ∷ []

registered_iff_example :
    (load 7 (Memory.run listeners Memory.new_memory).registry ≡ some 1)
    ↔ Listens (Memory.run listeners Memory.new_memory) 7 1
registered_iff_example = registered_iff listeners 7 1

-- Room for two messages; one is taken before and two after the connection is replaced.
abbrev sending : List (Outbox.Event ℕ)
sending =
    Outbox.sends 5
    ∷ Outbox.sends 6
    ∷ Outbox.sender_takes
    ∷ Outbox.conn_replaced
    ∷ Outbox.sends 7
    ∷ Outbox.sender_takes
    ∷ Outbox.closes
    ∷ Outbox.sender_takes
    ∷ Outbox.sender_stops
    ∷ []

run-InSequence_example : InSequence 2 (Outbox.run sending (Outbox.new_outbox 2))
run-InSequence_example = run-InSequence 2 sending
