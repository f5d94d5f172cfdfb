-- ===== src/Responder/View.antt =====
-- The handler's goroutine does the same on both ends.
use value_rpc.Prelude.{◌≡◌, refl, sym, ap, ◌∙◌, false, if◌then◌else◌, if-ap, Option, none, some}
use value_rpc.Errors.{code_resource_exhausted}
use value_rpc.Serving.{FunctionType, single_function, outgoing_stream, incoming_stream, chat}
use value_rpc.Flow.CreditGate.{CreditGate, Acquired, blocked, refused, taken, acquire}
use value_rpc.Responder.{
  sent_end, sent_error, Streamer, calling, polling, holding, over, overflowed, Event, arrives,
  fails, returns, acquires, session_ends, pump_takes, pump_delivers, polls, ServingRequest,
  set_code, close, close_inbound_chan, close_request, send, then_truncate, retire_input, end_stream,
  poll, then_send, send_held, return_from, handler_step,
}
use value_rpc.Responder.Client.{
  ClientServingRequest, ClientFnKind, cfn_unary, cfn_out, cfn_in, cfn_chat,
}
use value_rpc.Responder.Client

abbrev pub kind_of : FunctionType → ClientFnKind
kind_of single_function = cfn_unary
kind_of outgoing_stream = cfn_out
kind_of incoming_stream = cfn_in
kind_of chat = cfn_chat

module _ {A : Type 0} where
  -- The client's request in the same state; the client keeps no code.
  abbrev pub as_client : ServingRequest A → ClientServingRequest A
  as_client t = record {
    ft = kind_of t.ft;
    in_pump = t.in_pump;
    send_credit = t.send_credit;
    closed = t.closed;
    in_closed = t.in_closed;
    cancelled = t.cancelled;
    registered = t.registered;
    streamer = t.streamer;
    sent = t.sent;
    meter = t.meter;
  }

  pub close-as_client : (t : ServingRequest A) → as_client (close t) ≡ Client.close (as_client t)
  unfolding close Client.close
  close-as_client t = sym (if-ap as_client t.closed _ _)

  pub close_request-as_client :
      (t : ServingRequest A) → as_client (close_request t) ≡ Client.close_request (as_client t)
  unfolding close_request Client.close_request
  close_request-as_client t = close-as_client (record t { registered = false })

  pub close_inbound_chan-as_client :
      (t : ServingRequest A)
      → as_client (close_inbound_chan t) ≡ Client.close_inbound_chan (as_client t)
  unfolding close_inbound_chan Client.close_inbound_chan
  close_inbound_chan-as_client t = sym (if-ap as_client t.in_closed _ _)

  pub retire_input-as_client :
      (ft : FunctionType) (t : ServingRequest A)
      → as_client (retire_input ft t) ≡ Client.retire_input (kind_of ft) (as_client t)
  unfolding retire_input Client.retire_input
  retire_input-as_client single_function t = refl
  retire_input-as_client outgoing_stream t = refl
  retire_input-as_client incoming_stream t = refl
  retire_input-as_client chat t = refl

  abbrev ended : ClientServingRequest A → ClientServingRequest A
  ended c = record c { streamer = over }

  pub then_truncate-as_client :
      (t : ServingRequest A) → as_client (then_truncate t) ≡ Client.then_truncate (as_client t)
  unfolding then_truncate Client.then_truncate set_code
  then_truncate-as_client t =
      sym (if-ap as_client (overflowed t.in_pump) _ t)
      ∙ ap (λ c. if overflowed t.in_pump then c else as_client t)
          (close_request-as_client
            (set_code code_resource_exhausted (send (sent_error code_resource_exhausted) t)))

  end_stream-as_client :
      (o : Option A) (t : ServingRequest A)
      → as_client (end_stream o t) ≡ Client.end_stream o (as_client t)
  unfolding end_stream Client.end_stream
  end_stream-as_client o t = ap ended (close_request-as_client (send (sent_end o) t))

  poll-as_client :
      (o : Option A) (t : ServingRequest A) → as_client (poll o t) ≡ Client.poll o (as_client t)
  unfolding poll Client.poll
  poll-as_client none t = end_stream-as_client none t
  poll-as_client (some v) t =
      sym (if-ap as_client t.closed (end_stream (some v) t) (record t { streamer = holding v }))
      ∙ ap (λ c. if t.closed then c else as_client (record t { streamer = holding v }))
          (end_stream-as_client (some v) t)

  then_send-as_client :
      (v : A) (t : ServingRequest A) (r : CreditGate × Acquired)
      → as_client (then_send v t r) ≡ Client.then_send v (as_client t) r
  unfolding then_send Client.then_send
  then_send-as_client v t (g, blocked) = refl
  then_send-as_client v t (g, refused) = ap ended (close_request-as_client t)
  then_send-as_client v t (g, taken) = refl

  send_held-as_client :
      (v : A) (o : Option CreditGate) (t : ServingRequest A)
      → as_client (send_held v o t) ≡ Client.send_held v o (as_client t)
  unfolding send_held Client.send_held
  send_held-as_client v none t = refl
  send_held-as_client v (some g) t = then_send-as_client v t (acquire g)

  return_from-as_client :
      (ft : FunctionType) (t : ServingRequest A)
      → as_client (return_from ft t) ≡ Client.return_from (kind_of ft) (as_client t)
  unfolding return_from Client.return_from
  return_from-as_client single_function t = refl
  return_from-as_client outgoing_stream t = refl
  return_from-as_client incoming_stream t = refl
  return_from-as_client chat t = refl

  pub handler_step-as_client :
      (e : Event A) (s : Streamer A) (t : ServingRequest A)
      → as_client (handler_step e s t) ≡ Client.handler_step e s (as_client t)
  unfolding handler_step Client.handler_step set_code
  handler_step-as_client (fails c) calling t =
      ap (λ (r : ClientServingRequest A). Client.reply (sent_error c) (ended r))
        (close_request-as_client (set_code c t))
  handler_step-as_client returns calling t = return_from-as_client t.ft t
  handler_step-as_client (polls o) polling t = poll-as_client o t
  handler_step-as_client acquires (holding v) t = send_held-as_client v t.send_credit t
  handler_step-as_client (fails c) polling t = refl
  handler_step-as_client (fails c) over t = refl
  handler_step-as_client (fails c) (holding v) t = refl
  handler_step-as_client returns polling t = refl
  handler_step-as_client returns over t = refl
  handler_step-as_client returns (holding v) t = refl
  handler_step-as_client (polls o) calling t = refl
  handler_step-as_client (polls o) over t = refl
  handler_step-as_client (polls o) (holding v) t = refl
  handler_step-as_client acquires calling t = refl
  handler_step-as_client acquires polling t = refl
  handler_step-as_client acquires over t = refl
  handler_step-as_client (arrives f) s t = refl
  handler_step-as_client session_ends s t = refl
  handler_step-as_client pump_takes s t = refl
  handler_step-as_client pump_delivers s t = refl
