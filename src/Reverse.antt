-- ===== src/Reverse.antt =====
-- The streams that a server opens toward its client: clientStream of valueserver/serving_stream.go, with the
-- frames that reach it, its teardown and the end of its streamOut. As in Exchange, `closes` counts the
-- closes of a result channel that has no pump, where a second one would panic.
pub mod Shows
pub mod Answers
pub mod Steps
pub mod Refinement
use value_rpc.Prelude.{
  ℕ, suc, ◌+◌, ◌-◌, Bool, true, false, if◌then◌else◌, ltb, sle, List, [], ◌∷◌, ◌++◌, Option, none,
  some, length,
}
use mathlib.Core.Option
use value_rpc.Flow.CreditGate.{CreditGate, new_credit_gate, grant}
use value_rpc.Flow.CreditGate
use value_rpc.Flow.Meter.{Meter, initiator_meter, grant_recv, pump_hook, message}
use value_rpc.Flow.StreamPump.{
  StreamPump, new_stream_pump, at_least_default, push, stop, take, deliver,
}
use value_rpc.Flow.StreamPump

pub data StreamKind : Type 0 where
  get_stream_kind put_stream_kind chat_kind : StreamKind

-- `registered`: pendingStreams has the stream. `credits` holds the StreamCredit messages that the hook of
-- the pump has sent, and `truncations` counts the error messages for a stream that was overrun.
pub record ClientStream (A E : Type 0) : Type 0 where
  pub kind : StreamKind
  pub capacity : ℕ
  pub results : List A
  pub result_pump : Option (StreamPump A)
  pub send_credit : Option CreditGate
  pub done : Bool
  pub closes : ℕ
  pub get_closed : Bool
  pub put_closed : Bool
  pub result_err : Option E
  pub registered : Bool
  pub meter : Meter
  pub credits : List ℕ
  pub truncations : ℕ

unfoldable pub pump_of : {A : Type 0} → StreamKind → ℕ → Option (StreamPump A)
pump_of get_stream_kind max_pending = some (new_stream_pump (at_least_default max_pending))
pump_of chat_kind max_pending = some (new_stream_pump (at_least_default max_pending))
pump_of put_stream_kind max_pending = none

unfoldable pub gate_of : StreamKind → Option CreditGate
gate_of get_stream_kind = none
gate_of put_stream_kind = some new_credit_gate
gate_of chat_kind = some new_credit_gate

unfoldable pub new_client_stream : {A E : Type 0} → StreamKind → ℕ → ℕ → ClientStream A E
unfolding pump_of gate_of
new_client_stream kind receive_cap max_pending = record {
  kind = kind;
  capacity = receive_cap;
  results = [];
  result_pump = pump_of kind max_pending;
  send_credit = gate_of kind;
  done = false;
  closes = 0;
  get_closed = false;
  put_closed = false;
  result_err = none;
  registered = true;
  meter = initiator_meter max_pending;
  credits = [];
  truncations = 0;
}

-- A frame of the client. A value is there unless its field is absent or null.
pub data Frame (A E : Type 0) : Type 0 where
  stream_ready : Frame A E
  stream_value : Option A → Frame A E
  stream_end : Option A → Frame A E
  stream_credit : Option ℕ → Frame A E
  error_response : E → Frame A E
  unsupported : Frame A E

-- What becomes of a value: it is queued or refused, or the read loop waits for room.
pub data Notified : Type 0 where
  queued refused waits : Notified

abbrev pub notified_if : Bool → Notified
notified_if true = queued
notified_if false = refused

abbrev pub overflowed : {A : Type 0} → Option (StreamPump A) → Bool
overflowed none = false
overflowed (some p) = p.overflow

unfoldable pub close_output : {A : Type 0} → Option (StreamPump A) → ℕ → ℕ
close_output none n = suc n
close_output (some p) n = n

unfoldable pub get_finished : StreamKind → Bool → Bool
get_finished chat_kind put_closed = put_closed
get_finished _ put_closed = true

abbrev pub rest_of : {A : Type 0} → List A → List A
rest_of [] = []
rest_of (x ∷ xs) = xs

module _ {A E : Type 0} where
  unfoldable pub close_result : ClientStream A E → ClientStream A E
  unfolding close_output
  close_result t = if t.done then t else record t {
    done = true;
    send_credit = Option.map CreditGate.close t.send_credit;
    result_pump = Option.map StreamPump.close t.result_pump;
    closes = close_output t.result_pump t.closes;
  }

  unfoldable pub close : ClientStream A E → ClientStream A E
  unfolding close_result
  close t = close_result (record t {
    get_closed = true;
    put_closed = true;
    result_pump = Option.map stop t.result_pump;
  })

  unfoldable pub try_get_close : ClientStream A E → ClientStream A E × Bool
  unfolding close_result get_finished
  try_get_close t =
      (close_result (record t { get_closed = true }), get_finished t.kind t.put_closed)

  unfoldable pub put_finished : StreamKind → ClientStream A E → ClientStream A E × Bool
  unfolding close_result
  put_finished put_stream_kind t = (close_result t, true)
  put_finished _ t = (t, t.get_closed)

  unfoldable pub try_put_close : ClientStream A E → ClientStream A E × Bool
  unfolding put_finished
  try_put_close t = put_finished t.kind (record t { put_closed = true })

  unfoldable pub delete_pending_stream : ClientStream A E → ClientStream A E
  delete_pending_stream t = record t { registered = false }

  unfoldable pub deleted_if : ClientStream A E × Bool → ClientStream A E
  unfolding delete_pending_stream
  deleted_if (t, true) = delete_pending_stream t
  deleted_if (t, false) = t

  unfoldable pub then_get_close : ClientStream A E × Notified → ClientStream A E
  unfolding deleted_if try_get_close
  then_get_close (t, waits) = t
  then_get_close (t, r) = deleted_if (try_get_close t)

  -- A refused value is answered by an error and tears the stream down when its pump has overflowed.
  unfoldable pub then_tear_down : ClientStream A E × Notified → ClientStream A E
  unfolding close delete_pending_stream
  then_tear_down (t, refused) =
      if overflowed t.result_pump
      then close (delete_pending_stream (record t { truncations = suc t.truncations }))
      else t
  then_tear_down (t, r) = t

  -- Also the end of `openStream` where its request cannot be sent.
  unfoldable pub cancel_client_stream : ClientStream A E → ClientStream A E
  unfolding close delete_pending_stream
  cancel_client_stream t = close (delete_pending_stream t)

  -- The consumer's channel takes a value of the pump, and the hook runs.
  unfoldable pub deliver_result : ClientStream A E → ClientStream A E
  deliver_result t =
      let (m, c) = pump_hook (grant_recv true) t.result_pump t.meter in
      record t {
        result_pump = Option.map deliver t.result_pump;
        meter = m;
        credits = t.credits ++ message c;
      }

  -- The end of `streamOut`.
  unfoldable pub end_stream_out : ClientStream A E → ClientStream A E
  unfolding deleted_if try_put_close
  end_stream_out t = deleted_if (try_put_close t)

-- A frame for a stream that is pending, the end of its streamOut, its cancellation, a read of a result that
-- has no pump, and the steps of the pump.
pub data Event (A E : Type 0) : Type 0 where
  arrives : Frame A E → Event A E
  ends_out : Event A E
  cancels : Event A E
  reads : Event A E
  pump_takes : Event A E
  pump_delivers : Event A E

module _ {A E : Type 0} (nil_value : A) (grow : ℕ → ℕ → ℕ) where
  unfoldable pub notify_by :
      Option (StreamPump A) → A → ClientStream A E → ClientStream A E × Notified
  notify_by (some p) v t =
      let (q, b) = push grow v p in (record t { result_pump = some q }, notified_if b)
  notify_by none v t =
      if t.done
      then (t, refused)
      else if ltb (length t.results) t.capacity
      then (record t { results = t.results ++ v ∷ [] }, queued)
      else (t, waits)

  unfoldable pub notify_result : A → ClientStream A E → ClientStream A E × Notified
  unfolding notify_by
  notify_result v t = notify_by t.result_pump v t

  unfoldable pub handle_inbound : Frame A E → ClientStream A E → ClientStream A E
  unfolding notify_result then_get_close then_tear_down deleted_if try_get_close close
      delete_pending_stream
  handle_inbound stream_ready t = (notify_result nil_value t).0
  handle_inbound (stream_value none) t = t
  handle_inbound (stream_value (some v)) t = then_tear_down (notify_result v t)
  handle_inbound (stream_end none) t = deleted_if (try_get_close t)
  handle_inbound (stream_end (some v)) t = then_get_close (notify_result v t)
  handle_inbound (stream_credit none) t = t
  handle_inbound (stream_credit (some n)) t = record t {
    send_credit = Option.map (λ g. grant g n) t.send_credit;
  }
  handle_inbound (error_response e) t =
      close (delete_pending_stream (record t { result_err = some e }))
  handle_inbound unsupported t = t

  unfoldable pub step : Event A E → ClientStream A E → ClientStream A E
  unfolding handle_inbound end_stream_out cancel_client_stream deliver_result
  step (arrives f) t = if t.registered then handle_inbound f t else t
  step ends_out t = end_stream_out t
  step cancels t = cancel_client_stream t
  step reads t = record t { results = rest_of t.results }
  step pump_takes t = record t { result_pump = Option.map (take nil_value) t.result_pump }
  step pump_delivers t = deliver_result t

  unfoldable pub run : List (Event A E) → ClientStream A E → ClientStream A E
  unfolding step
  run [] t = t
  run (e ∷ es) t = run es (step e t)
