-- ===== src/Exchange.antt =====
-- The life of a request on the client: rpcRequestCtx of valueclient/request.go with the responses and
-- ends that reach it from valueclient/client.go. `ends` counts the ends reported to the metrics and
-- `closes` the closes of a result channel that has no pump, where a second one would panic.
pub mod Life
pub mod Once
use value_rpc.Prelude.{
  ℕ, suc, ◌+◌, Bool, true, false, if◌then◌else◌, ltb, List, [], ◌∷◌, ◌++◌, Option, none, some,
  length,
}
use mathlib.Core.Option
use value_rpc.Flow.CreditGate.{CreditGate, new_credit_gate, grant}
use value_rpc.Flow.CreditGate
use value_rpc.Flow.Meter.{Meter, initiator_meter, grant_recv, pump_hook, message}
use value_rpc.Flow.StreamPump.{StreamPump, new_stream_pump, push, stop, take, deliver}
use value_rpc.Flow.StreamPump

pub data StreamKind : Type 0 where
  unary_kind get_stream_kind put_stream_kind chat_kind : StreamKind

-- `registered`: the client's map has the request. `credits` holds the StreamCredit messages that the hook
-- of the pump has sent; the initial window is sent by the opener. The goroutine of a pump, which
-- NewStreamPump starts, is its runner.
pub record RequestCtx (A E : Type 0) : Type 0 where
  pub kind : StreamKind
  pub capacity : ℕ
  pub results : List A
  pub result_pump : Option (StreamPump A)
  pub send_credit : Option CreditGate
  pub done : Bool
  pub closes : ℕ
  pub ends : ℕ
  pub cancelled : Bool
  pub get_closed : Bool
  pub put_closed : Bool
  pub result_err : Option E
  pub registered : Bool
  pub meter : Meter
  pub credits : List ℕ

unfoldable pub pump_of : {A : Type 0} → StreamKind → ℕ → Option (StreamPump A)
pump_of get_stream_kind max_pending = some (new_stream_pump max_pending)
pump_of chat_kind max_pending = some (new_stream_pump max_pending)
pump_of _ max_pending = none

unfoldable pub gate_of : StreamKind → Option CreditGate
gate_of put_stream_kind = some new_credit_gate
gate_of chat_kind = some new_credit_gate
gate_of _ = none

unfoldable pub new_request_ctx : {A E : Type 0} → StreamKind → ℕ → ℕ → RequestCtx A E
new_request_ctx kind receive_cap max_pending = record {
  kind = kind;
  capacity = receive_cap;
  results = [];
  result_pump = pump_of kind max_pending;
  send_credit = gate_of kind;
  done = false;
  closes = 0;
  ends = 0;
  cancelled = false;
  get_closed = false;
  put_closed = false;
  result_err = none;
  registered = true;
  meter = initiator_meter max_pending;
  credits = [];
}

-- A message for the request. A value is there unless its field is absent or null.
pub data Response (A E : Type 0) : Type 0 where
  function_response : A → Response A E
  error_response : E → Response A E
  stream_ready : Response A E
  stream_value : Option A → Response A E
  stream_end : Option A → Response A E
  cancel_request : Response A E
  stream_credit : Option ℕ → Response A E
  unsupported : Response A E

-- What becomes of a value: it is queued or refused, or the response loop waits for room.
pub data Notified : Type 0 where
  queued dropped waits : Notified

abbrev pub notified_if : Bool → Notified
notified_if true = queued
notified_if false = dropped

unfoldable pub is_chat : StreamKind → Bool
is_chat chat_kind = true
is_chat _ = false

unfoldable pub is_put_stream : StreamKind → Bool
is_put_stream put_stream_kind = true
is_put_stream _ = false

unfoldable pub close_output : {A : Type 0} → Option (StreamPump A) → ℕ → ℕ
close_output none n = suc n
close_output (some p) n = n

abbrev pub rest_of : {A : Type 0} → List A → List A
rest_of [] = []
rest_of (x ∷ xs) = xs

module _ {A E : Type 0} where
  unfoldable pub close_result : RequestCtx A E → RequestCtx A E
  unfolding close_output
  close_result t = if t.done then t else record t {
    done = true;
    send_credit = Option.map CreditGate.close t.send_credit;
    result_pump = Option.map StreamPump.close t.result_pump;
    closes = close_output t.result_pump t.closes;
    ends = suc t.ends;
  }

  unfoldable pub close : RequestCtx A E → RequestCtx A E
  unfolding close_result
  close t = close_result (record t {
    get_closed = true;
    put_closed = true;
    result_pump = Option.map stop t.result_pump;
  })

  unfoldable pub try_get_close : RequestCtx A E → RequestCtx A E × Bool
  unfolding close_result
  try_get_close t =
      (close_result (record t { get_closed = true }), if is_chat t.kind then t.put_closed else true)

  unfoldable pub try_put_close : RequestCtx A E → RequestCtx A E × Bool
  unfolding close_result
  try_put_close t =
      if is_put_stream t.kind
      then (close_result (record t { put_closed = true }), true)
      else (record t { put_closed = true }, t.get_closed)

  -- requestCtxMap.Delete, where the request is finished.
  unfoldable pub deleted_if : RequestCtx A E × Bool → RequestCtx A E
  deleted_if (t, true) = record t { registered = false }
  deleted_if (t, false) = t

  unfoldable pub finish : RequestCtx A E → RequestCtx A E
  unfolding close
  finish t = record (close t) { registered = false }

  -- A response loop that waits has not done what comes after.
  unfoldable pub then_finish : RequestCtx A E × Notified → RequestCtx A E
  unfolding finish
  then_finish (t, waits) = t
  then_finish (t, r) = finish t

  unfoldable pub then_get_close : RequestCtx A E × Notified → RequestCtx A E
  unfolding deleted_if
  then_get_close (t, waits) = t
  then_get_close (t, r) = deleted_if (try_get_close t)

  unfoldable pub fail_request : E → RequestCtx A E → RequestCtx A E
  unfolding finish
  fail_request e t = finish (record t { result_err = some e })

  -- The end of `streamOut`.
  unfoldable pub end_stream_out : RequestCtx A E → RequestCtx A E
  unfolding deleted_if
  end_stream_out t = deleted_if (try_put_close t)

  -- The consumer's channel takes a value of the pump, and the hook runs.
  unfoldable pub deliver_result : RequestCtx A E → RequestCtx A E
  deliver_result t =
      let (m, c) = pump_hook (grant_recv true) t.result_pump t.meter in
      record t {
        result_pump = Option.map deliver t.result_pump;
        meter = m;
        credits = t.credits ++ message c;
      }

  unfoldable pub give_up : Option E → RequestCtx A E → RequestCtx A E
  unfolding close
  give_up none t = close t
  give_up (some e) t = close (record t { result_err = some e })

-- A response for a registered request, the end of its streamOut, a lost connection, a timeout or a
-- cancellation of the caller, a read of a result that has no pump, and the steps of the pump.
pub data Event (A E : Type 0) : Type 0 where
  responds : Response A E → Event A E
  ends_out : Event A E
  fails : E → Event A E
  gives_up : Option E → Event A E
  reads : Event A E
  pump_takes : Event A E
  pump_delivers : Event A E

module _ {A E : Type 0} (nil_value : A) (truncated : E) (grow : ℕ → ℕ → ℕ) where
  unfoldable pub notify_by : Option (StreamPump A) → A → RequestCtx A E → RequestCtx A E × Notified
  notify_by (some p) v t =
      let (q, b) = push grow v p in (record t { result_pump = some q }, notified_if b)
  notify_by none v t =
      if t.done
      then (t, dropped)
      else if ltb (length t.results) t.capacity
      then (record t { results = t.results ++ v ∷ [] }, queued)
      else (t, waits)

  unfoldable pub notify_result : A → RequestCtx A E → RequestCtx A E × Notified
  unfolding notify_by
  notify_result v t = notify_by t.result_pump v t

  -- A value that is refused is surfaced once, with a request to cancel.
  unfoldable pub then_truncate : RequestCtx A E × Notified → RequestCtx A E
  then_truncate (t, dropped) =
      if t.cancelled then t else record t { cancelled = true; result_err = some truncated }
  then_truncate (t, r) = t

  unfoldable pub process_response : Response A E → RequestCtx A E → RequestCtx A E
  unfolding then_finish then_get_close then_truncate finish
  process_response (function_response v) t = then_finish (notify_result v t)
  process_response (error_response e) t = finish (record t { result_err = some e })
  process_response stream_ready t = (notify_result nil_value t).0
  process_response (stream_value none) t = t
  process_response (stream_value (some v)) t = then_truncate (notify_result v t)
  process_response (stream_end none) t = deleted_if (try_get_close t)
  process_response (stream_end (some v)) t = then_get_close (notify_result v t)
  process_response cancel_request t = finish t
  process_response (stream_credit none) t = t
  process_response (stream_credit (some n)) t = record t {
    send_credit = Option.map (λ g. grant g n) t.send_credit;
  }
  process_response unsupported t = t

  unfoldable pub step : Event A E → RequestCtx A E → RequestCtx A E
  unfolding process_response end_stream_out fail_request give_up deliver_result
  step (responds r) t = if t.registered then process_response r t else t
  step ends_out t = end_stream_out t
  step (fails e) t = if t.registered then fail_request e t else t
  step (gives_up e) t = give_up e t
  step reads t = record t { results = rest_of t.results }
  step pump_takes t = record t { result_pump = Option.map (take nil_value) t.result_pump }
  step pump_delivers t = deliver_result t

  unfoldable pub run : List (Event A E) → RequestCtx A E → RequestCtx A E
  unfolding step
  run [] t = t
  run (e ∷ es) t = run es (step e t)
