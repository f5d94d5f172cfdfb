-- ===== src/Responder.antt =====
-- Who answers a stream that the peer opened: servingRequest of valueserver/serving_request.go, with the part of
-- doServeFunctionRequest in valueserver/serving_client.go that runs its handler. The read loop, the
-- handler's goroutine and the goroutine of outgoingStreamer take turns, one event each. The flow control of
-- the pump is in Flow; its hook is `grantInbound`.
pub mod Client
pub mod Tidy
pub mod Retired
pub mod View
pub mod Agreement
use value_rpc.Prelude.{
  ℕ, ◌==◌, Bool, true, false, ◌||◌, if◌then◌else◌, sle, List, [], ◌∷◌, ◌++◌, Option, none, some,
}
use mathlib.Core.Option
use value_rpc.Errors.{code_ok, code_canceled, code_resource_exhausted}
use value_rpc.Serving.{FunctionType, single_function, outgoing_stream, incoming_stream, chat}
use value_rpc.Flow.CreditGate.{
  CreditGate, Acquired, blocked, refused, taken, new_credit_gate, acquire, grant,
}
use value_rpc.Flow.CreditGate
use value_rpc.Flow.Meter.{Meter, inbound_meter, grant_inbound, pump_hook}
use value_rpc.Flow.StreamPump.{
  StreamPump, new_stream_pump, default_max_pending, push, stop, take, deliver,
}
use value_rpc.Flow.StreamPump

-- A frame of the peer. A value is there unless its field is absent or null.
pub data Frame (A : Type 0) : Type 0 where
  cancel_request unsupported : Frame A
  stream_value : Option A → Frame A
  stream_end : Option A → Frame A
  stream_credit : Option ℕ → Frame A

-- What is sent to the peer; an error is its code.
pub data Sent (A : Type 0) : Type 0 where
  ready : Sent A
  sent_value : A → Sent A
  sent_end : Option A → Sent A
  sent_error : ℕ → Sent A
  sent_credit : ℕ → Sent A

-- Where the handler's goroutine stands: in the user's function, waiting for its next value, waiting for
-- credit with a value, or at its end.
pub data Streamer (A : Type 0) : Type 0 where
  calling polling over : Streamer A
  holding : A → Streamer A

abbrev pub overflowed : {A : Type 0} → Option (StreamPump A) → Bool
overflowed none = false
overflowed (some p) = p.overflow

-- The handler fails with a code or returns; its stream gives a value or is closed; a value that is held
-- asks for credit; the session ends.
pub data Event (A : Type 0) : Type 0 where
  arrives : Frame A → Event A
  fails : ℕ → Event A
  returns acquires session_ends pump_takes pump_delivers : Event A
  polls : Option A → Event A

-- `registered`: requestMap has the request.
pub record ServingRequest (A : Type 0) : Type 0 where
  pub ft : FunctionType
  pub in_pump : Option (StreamPump A)
  pub send_credit : Option CreditGate
  pub closed : Bool
  pub in_closed : Bool
  pub cancelled : Bool
  pub code : ℕ
  pub registered : Bool
  pub streamer : Streamer A
  pub sent : List (Sent A)
  pub meter : Meter

unfoldable pub gate_of : FunctionType → Option CreditGate
gate_of outgoing_stream = some new_credit_gate
gate_of chat = some new_credit_gate
gate_of _ = none

unfoldable pub pump_of : {A : Type 0} → FunctionType → ℕ → Option (StreamPump A)
pump_of incoming_stream max_pending = some (new_stream_pump max_pending)
pump_of chat max_pending = some (new_stream_pump max_pending)
pump_of _ max_pending = none

-- grantInitialInbound, where there is an input: the bound as it is configured.
unfoldable pub initial_window : {A : Type 0} → FunctionType → ℕ → List (Sent A)
initial_window incoming_stream max_pending = sent_credit max_pending ∷ []
initial_window chat max_pending = sent_credit max_pending ∷ []
initial_window _ max_pending = []

abbrev pub credit_message : {A : Type 0} → Option ℕ → List (Sent A)
credit_message none = []
credit_message (some n) = sent_credit n ∷ []

-- The request once it is registered, and its initial window is granted.
unfoldable pub new_serving_request : {A : Type 0} → FunctionType → ℕ → ServingRequest A
unfolding gate_of pump_of initial_window
new_serving_request ft max_pending = record {
  ft = ft;
  in_pump = pump_of ft max_pending;
  send_credit = gate_of ft;
  closed = false;
  in_closed = false;
  cancelled = false;
  code = code_ok;
  registered = true;
  streamer = calling;
  sent = initial_window ft max_pending;
  meter = inbound_meter max_pending;
}

module _ {A : Type 0} where
  unfoldable pub set_code : ℕ → ServingRequest A → ServingRequest A
  set_code c t = record t { code = if t.code == code_ok then c else t.code }

  unfoldable pub close : ServingRequest A → ServingRequest A
  close t = if t.closed then t else record t {
    closed = true;
    cancelled = true;
    send_credit = Option.map CreditGate.close t.send_credit;
    in_closed = true;
    in_pump = Option.map stop t.in_pump;
  }

  unfoldable pub close_inbound_chan : ServingRequest A → ServingRequest A
  close_inbound_chan t =
      if t.in_closed
      then t
      else record t { in_closed = true; in_pump = Option.map StreamPump.close t.in_pump }

  unfoldable pub close_request : ServingRequest A → ServingRequest A
  unfolding close
  close_request t = close (record t { registered = false })

  abbrev pub send : Sent A → ServingRequest A → ServingRequest A
  send m t = record t { sent = t.sent ++ m ∷ [] }

  unfoldable pub then_truncate : ServingRequest A → ServingRequest A
  unfolding close_request set_code
  then_truncate t =
      if overflowed t.in_pump
      then close_request
          (set_code code_resource_exhausted (send (sent_error code_resource_exhausted) t))
      else t

  unfoldable pub retire_input : FunctionType → ServingRequest A → ServingRequest A
  retire_input chat t = t
  retire_input _ t = record t { registered = false; cancelled = true }

  -- The streamer has no more values, or finds the request closed.
  unfoldable pub end_stream : Option A → ServingRequest A → ServingRequest A
  unfolding close_request
  end_stream o t = record (close_request (send (sent_end o) t)) { streamer = over }

  unfoldable pub poll : Option A → ServingRequest A → ServingRequest A
  unfolding end_stream
  poll none t = end_stream none t
  poll (some v) t = if t.closed then end_stream (some v) t else record t { streamer = holding v }

  unfoldable pub then_send : A → ServingRequest A → CreditGate × Acquired → ServingRequest A
  unfolding close_request
  then_send v t (g, blocked) = t
  then_send v t (g, refused) = record (close_request t) { streamer = over }
  then_send v t (g, taken) =
      send (sent_value v) (record t { send_credit = some g; streamer = polling })

  unfoldable pub send_held : A → Option CreditGate → ServingRequest A → ServingRequest A
  unfolding then_send
  send_held v none t = send (sent_value v) (record t { streamer = polling })
  send_held v (some g) t = then_send v t (acquire g)

  unfoldable pub return_from : FunctionType → ServingRequest A → ServingRequest A
  return_from incoming_stream t = send ready (record t { streamer = over })
  return_from _ t = send ready (record t { streamer = polling })

  -- The handler's channel takes a value of the pump, and the hook runs.
  unfoldable pub deliver_input : ServingRequest A → ServingRequest A
  deliver_input t =
      let (m, c) = pump_hook grant_inbound t.in_pump t.meter in
      record t {
        in_pump = Option.map deliver t.in_pump;
        meter = m;
        sent = t.sent ++ credit_message c;
      }

  -- What the handler's goroutine does, where it stands at a point that the event is about.
  unfoldable pub handler_step : Event A → Streamer A → ServingRequest A → ServingRequest A
  unfolding close_request set_code return_from poll send_held
  handler_step (fails c) calling t =
      send (sent_error c) (record (close_request (set_code c t)) { streamer = over })
  handler_step returns calling t = return_from t.ft t
  handler_step (polls o) polling t = poll o t
  handler_step acquires (holding v) t = send_held v t.send_credit t
  handler_step _ _ t = t

module _ {A : Type 0} (nil_value : A) (grow : ℕ → ℕ → ℕ) where
  unfoldable pub offer : A → ServingRequest A → ServingRequest A
  offer v t = record t { in_pump = Option.map (λ p. (push grow v p).0) t.in_pump }

  unfoldable pub offer_some : Option A → ServingRequest A → ServingRequest A
  unfolding offer
  offer_some none t = t
  offer_some (some v) t = offer v t

  -- Without a pump the frame is an error that is only logged.
  unfoldable pub incoming_stream_value :
      Option A → Option (StreamPump A) → ServingRequest A → ServingRequest A
  unfolding offer_some then_truncate
  incoming_stream_value o none t = t
  incoming_stream_value o (some p) t = then_truncate (offer_some o t)

  unfoldable pub incoming_stream_end :
      Option A → Option (StreamPump A) → ServingRequest A → ServingRequest A
  unfolding offer_some close_inbound_chan retire_input
  incoming_stream_end o none t = t
  incoming_stream_end o (some p) t = retire_input t.ft (close_inbound_chan (offer_some o t))

  unfoldable pub serve_running_request : Frame A → ServingRequest A → ServingRequest A
  unfolding close_request set_code incoming_stream_value incoming_stream_end
  serve_running_request cancel_request t = close_request (set_code code_canceled t)
  serve_running_request unsupported t = t
  serve_running_request (stream_value o) t = incoming_stream_value o t.in_pump t
  serve_running_request (stream_end o) t = incoming_stream_end o t.in_pump t
  serve_running_request (stream_credit none) t = t
  serve_running_request (stream_credit (some n)) t = record t {
    send_credit = Option.map (λ g. grant g n) t.send_credit;
  }

  unfoldable pub step : Event A → ServingRequest A → ServingRequest A
  unfolding serve_running_request handler_step close deliver_input
  step (arrives f) t = if t.registered then serve_running_request f t else t
  step session_ends t = if t.registered then close t else t
  step pump_takes t = record t { in_pump = Option.map (take nil_value) t.in_pump }
  step pump_delivers t = deliver_input t
  step (fails c) t = handler_step (fails c) t.streamer t
  step returns t = handler_step returns t.streamer t
  step (polls o) t = handler_step (polls o) t.streamer t
  step acquires t = handler_step acquires t.streamer t

  unfoldable pub run : List (Event A) → ServingRequest A → ServingRequest A
  unfolding step
  run [] t = t
  run (e ∷ es) t = run es (step e t)
