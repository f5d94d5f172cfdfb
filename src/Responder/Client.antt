-- ===== src/Responder/Client.antt =====
-- clientServingRequest of valueclient/serving.go, which answers the streams that a server opens, with the
-- handler's goroutine of serveInboundStream.
use value_rpc.Prelude.{ℕ, Bool, true, false, if◌then◌else◌, List, [], ◌∷◌, ◌++◌, Option, none, some}
use mathlib.Core.Option
use value_rpc.Errors.{code_resource_exhausted}
use value_rpc.Flow.CreditGate.{
  CreditGate, Acquired, blocked, refused, taken, new_credit_gate, acquire, grant,
}
use value_rpc.Flow.CreditGate
use value_rpc.Flow.Meter.{Meter, inbound_meter, grant_inbound, pump_hook}
use value_rpc.Flow.StreamPump.{
  StreamPump, new_stream_pump, at_least_default, push, stop, take, deliver,
}
use value_rpc.Flow.StreamPump
use value_rpc.Responder.{
  Frame, cancel_request, unsupported, stream_value, stream_end, stream_credit, Sent, ready,
  sent_value, sent_end, sent_error, sent_credit, credit_message, Streamer, calling, polling,
  holding, over, overflowed, Event, arrives, fails, returns, polls, acquires, session_ends,
  pump_takes, pump_delivers,
}

pub data ClientFnKind : Type 0 where
  cfn_unary cfn_out cfn_in cfn_chat : ClientFnKind

-- `registered`: servingMap has the request.
pub record ClientServingRequest (A : Type 0) : Type 0 where
  pub ft : ClientFnKind
  pub in_pump : Option (StreamPump A)
  pub send_credit : Option CreditGate
  pub closed : Bool
  pub in_closed : Bool
  pub cancelled : Bool
  pub registered : Bool
  pub streamer : Streamer A
  pub sent : List (Sent A)
  pub meter : Meter

unfoldable pub gate_of : ClientFnKind → Option CreditGate
gate_of cfn_out = some new_credit_gate
gate_of cfn_chat = some new_credit_gate
gate_of _ = none

unfoldable pub pump_of : {A : Type 0} → ClientFnKind → ℕ → Option (StreamPump A)
pump_of cfn_in max_pending = some (new_stream_pump (at_least_default max_pending))
pump_of cfn_chat max_pending = some (new_stream_pump (at_least_default max_pending))
pump_of _ max_pending = none

unfoldable pub initial_window : {A : Type 0} → ClientFnKind → ℕ → List (Sent A)
initial_window cfn_in max_pending = sent_credit (at_least_default max_pending) ∷ []
initial_window cfn_chat max_pending = sent_credit (at_least_default max_pending) ∷ []
initial_window _ max_pending = []

unfoldable pub new_client_serving_request : {A : Type 0} → ClientFnKind → ℕ → ClientServingRequest A
unfolding gate_of pump_of initial_window
new_client_serving_request ft max_pending = record {
  ft = ft;
  in_pump = pump_of ft max_pending;
  send_credit = gate_of ft;
  closed = false;
  in_closed = false;
  cancelled = false;
  registered = true;
  streamer = calling;
  sent = initial_window ft max_pending;
  meter = inbound_meter (at_least_default max_pending);
}

module _ {A : Type 0} where
  unfoldable pub close : ClientServingRequest A → ClientServingRequest A
  close t = if t.closed then t else record t {
    closed = true;
    cancelled = true;
    send_credit = Option.map CreditGate.close t.send_credit;
    in_closed = true;
    in_pump = Option.map stop t.in_pump;
  }

  unfoldable pub close_inbound_chan : ClientServingRequest A → ClientServingRequest A
  close_inbound_chan t =
      if t.in_closed
      then t
      else record t { in_closed = true; in_pump = Option.map StreamPump.close t.in_pump }

  unfoldable pub close_request : ClientServingRequest A → ClientServingRequest A
  unfolding close
  close_request t = close (record t { registered = false })

  abbrev pub reply : Sent A → ClientServingRequest A → ClientServingRequest A
  reply m t = record t { sent = t.sent ++ m ∷ [] }

  unfoldable pub then_truncate : ClientServingRequest A → ClientServingRequest A
  unfolding close_request
  then_truncate t =
      if overflowed t.in_pump
      then close_request (reply (sent_error code_resource_exhausted) t)
      else t

  unfoldable pub retire_input : ClientFnKind → ClientServingRequest A → ClientServingRequest A
  retire_input cfn_chat t = t
  retire_input _ t = record t { registered = false; cancelled = true }

  unfoldable pub end_stream : Option A → ClientServingRequest A → ClientServingRequest A
  unfolding close_request
  end_stream o t = record (close_request (reply (sent_end o) t)) { streamer = over }

  unfoldable pub poll : Option A → ClientServingRequest A → ClientServingRequest A
  unfolding end_stream
  poll none t = end_stream none t
  poll (some v) t = if t.closed then end_stream (some v) t else record t { streamer = holding v }

  unfoldable pub then_send :
      A → ClientServingRequest A → CreditGate × Acquired → ClientServingRequest A
  unfolding close_request
  then_send v t (g, blocked) = t
  then_send v t (g, refused) = record (close_request t) { streamer = over }
  then_send v t (g, taken) =
      reply (sent_value v) (record t { send_credit = some g; streamer = polling })

  unfoldable pub send_held : A → Option CreditGate → ClientServingRequest A → ClientServingRequest A
  unfolding then_send
  send_held v none t = reply (sent_value v) (record t { streamer = polling })
  send_held v (some g) t = then_send v t (acquire g)

  unfoldable pub return_from : ClientFnKind → ClientServingRequest A → ClientServingRequest A
  return_from cfn_in t = reply ready (record t { streamer = over })
  return_from _ t = reply ready (record t { streamer = polling })

  unfoldable pub deliver_input : ClientServingRequest A → ClientServingRequest A
  deliver_input t =
      let (m, c) = pump_hook grant_inbound t.in_pump t.meter in
      record t {
        in_pump = Option.map deliver t.in_pump;
        meter = m;
        sent = t.sent ++ credit_message c;
      }

  unfoldable pub handler_step :
      Event A → Streamer A → ClientServingRequest A → ClientServingRequest A
  unfolding close_request return_from poll send_held
  handler_step (fails c) calling t =
      reply (sent_error c) (record (close_request t) { streamer = over })
  handler_step returns calling t = return_from t.ft t
  handler_step (polls o) polling t = poll o t
  handler_step acquires (holding v) t = send_held v t.send_credit t
  handler_step _ _ t = t

module _ {A : Type 0} (nil_value : A) (grow : ℕ → ℕ → ℕ) where
  unfoldable pub push_some : Option A → ClientServingRequest A → ClientServingRequest A
  push_some none t = t
  push_some (some v) t = record t { in_pump = Option.map (λ p. (push grow v p).0) t.in_pump }

  unfoldable pub serve_running : Frame A → ClientServingRequest A → ClientServingRequest A
  unfolding close_request push_some then_truncate close_inbound_chan retire_input
  serve_running cancel_request t = close_request t
  serve_running unsupported t = t
  serve_running (stream_value o) t = then_truncate (push_some o t)
  serve_running (stream_end o) t = retire_input t.ft (close_inbound_chan (push_some o t))
  serve_running (stream_credit none) t = t
  serve_running (stream_credit (some n)) t = record t {
    send_credit = Option.map (λ g. grant g n) t.send_credit;
  }

  unfoldable pub step : Event A → ClientServingRequest A → ClientServingRequest A
  unfolding serve_running handler_step close deliver_input
  step (arrives f) t = if t.registered then serve_running f t else t
  step session_ends t = if t.registered then close t else t
  step pump_takes t = record t { in_pump = Option.map (take nil_value) t.in_pump }
  step pump_delivers t = deliver_input t
  step (fails c) t = handler_step (fails c) t.streamer t
  step returns t = handler_step returns t.streamer t
  step (polls o) t = handler_step (polls o) t.streamer t
  step acquires t = handler_step acquires t.streamer t

  unfoldable pub run : List (Event A) → ClientServingRequest A → ClientServingRequest A
  unfolding step
  run [] t = t
  run (e ∷ es) t = run es (step e t)
