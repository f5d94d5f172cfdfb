-- ===== src/Responder/Tidy.antt =====
-- What the ends of a request keep in order.
use value_rpc.Prelude.{
  ◌≡◌, ◌≢◌, refl, Bool, true, false, ◌||◌, either, either_by, List, [], ◌∷◌, ◌++◌, subst, Option,
  none, some, arith,
}
use mathlib.Core.Option
use value_rpc.Errors.{code_resource_exhausted}
use value_rpc.Serving.{FunctionType, single_function, outgoing_stream, incoming_stream, chat}
use value_rpc.Flow.CreditGate.{CreditGate, Acquired, blocked, refused, taken, acquire}
use value_rpc.Flow.StreamPump.{
  StreamPump, push, stop, take, take_from, finish, dequeue, deliver, deliver_from, Runner, idle,
  sending, finished, panicked,
}
use value_rpc.Flow.StreamPump
use value_rpc.Exchange.Life.{IsShut, IsShut-close}
use value_rpc.Responder.{
  Sent, ready, sent_value, sent_end, sent_error, Streamer, calling, polling, holding, over,
  overflowed, Event, arrives, fails, returns, acquires, session_ends, pump_takes, pump_delivers,
  polls, ServingRequest, set_code, close, close_inbound_chan, close_request, send, then_truncate,
  retire_input, end_stream, poll, then_send, send_held, return_from, handler_step,
}

-- The pump's goroutine does not wait for input.
abbrev pub IsEnded : {A : Type 0} → Option (StreamPump A) → Type 0
IsEnded none = Unit {0}
IsEnded (some p) = (p.input_end || p.stopped) ≡ true

IsEnded-close : {A : Type 0} (o : Option (StreamPump A)) → IsEnded (Option.map StreamPump.close o)
unfolding StreamPump.close
IsEnded-close none = tt
IsEnded-close (some p) = refl

IsEnded-stop : {A : Type 0} (o : Option (StreamPump A)) → IsEnded (Option.map stop o)
unfolding stop
IsEnded-stop none = tt
IsEnded-stop (some p) = ground arith

acquire-closed : (g : CreditGate) → g.closed ≡ true → (acquire g).0.closed ≡ true
unfolding acquire
acquire-closed g h = ground arith

abbrev is_over : {A : Type 0} → Streamer A → Bool
is_over over = true
is_over _ = false

module _ {A : Type 0} where
  -- A closed request is cancelled, and its gate lets no sender wait.
  abbrev Closes : ServingRequest A → Type 0
  Closes t = t.closed ≡ true → (t.cancelled ≡ true) × (t.in_closed ≡ true) × IsShut t.send_credit

  abbrev Ends : ServingRequest A → Type 0
  Ends t = t.in_closed ≡ true → IsEnded t.in_pump

  -- A request that has left the map is cancelled, and its input has an end.
  abbrev Leaves : ServingRequest A → Type 0
  Leaves t = t.registered ≡ false → (t.cancelled ≡ true) × (t.in_closed ≡ true)

  -- A stream that is sent stays in the map no longer than its streamer runs.
  abbrev Releases : ServingRequest A → Type 0
  Releases t = is_over t.streamer ≡ true → t.ft ≢ incoming_stream → t.registered ≡ false

  abbrev pub IsTidy : ServingRequest A → Type 0
  IsTidy t = Closes t × Ends t × Leaves t × Releases t

  pub close-IsTidy : (t : ServingRequest A) → IsTidy t → IsTidy (close t)
  unfolding close
  close-IsTidy t (c, e, l, r) =
      either IsTidy t.closed (c, e, l, r)
        (
          (λ h. (refl, refl, IsShut-close t.send_credit)),
          (λ h. IsEnded-stop t.in_pump),
          (λ h. (refl, refl)),
          r,
        )

  pub close_request-IsTidy : (t : ServingRequest A) → Closes t → Ends t → IsTidy (close_request t)
  unfolding close_request close
  close_request-IsTidy t c e =
      either_by IsTidy t.closed (λ h. (c, e, (λ n. ((c h).0, (c h).1)), λ o n. refl))
        (λ h. (
          (λ h. (refl, refl, IsShut-close t.send_credit)),
          (λ h. IsEnded-stop t.in_pump),
          (λ h. (refl, refl)),
          λ o n. refl,
        ))

  close_request-registered : (t : ServingRequest A) → (close_request t).registered ≡ false
  unfolding close_request close
  close_request-registered t =
      either (λ (u : ServingRequest A). u.registered ≡ false) t.closed refl refl

  -- A closed request whose streamer ends.
  over-IsTidy :
      (t : ServingRequest A)
      → Closes t
      → Ends t
      → IsTidy (record (close_request t) { streamer = over })
  over-IsTidy t c e =
      let (c', e', l, r) = close_request-IsTidy t c e in
      (c', e', l, λ o n. close_request-registered t)

  -- A streamer that goes on, whatever has been sent.
  busy-IsTidy :
      (t : ServingRequest A) (s : Streamer A) (ms : List (Sent A))
      → is_over s ≡ false
      → IsTidy t
      → IsTidy (record t { streamer = s; sent = ms })
  busy-IsTidy t s ms b (c, e, l, r) = (c, e, l, λ o. absurd (true_not_false o b))
    where
      true_not_false : is_over s ≡ true → is_over s ≡ false → ⊥
      true_not_false o b = cc

  pub close_inbound_chan-IsTidy : (t : ServingRequest A) → IsTidy t → IsTidy (close_inbound_chan t)
  unfolding close_inbound_chan
  close_inbound_chan-IsTidy t (c, e, l, r) =
      either IsTidy t.in_closed (c, e, l, r)
        ((λ h. ((c h).0, refl, (c h).2)), (λ h. IsEnded-close t.in_pump), (λ h. ((l h).0, refl)), r)

  pub close_inbound_chan-in_closed :
      (t : ServingRequest A) → (close_inbound_chan t).in_closed ≡ true
  unfolding close_inbound_chan
  close_inbound_chan-in_closed t =
      either_by (λ (u : ServingRequest A). u.in_closed ≡ true) t.in_closed (λ h. h) (λ h. refl)

  pub retire_input-IsTidy :
      (ft : FunctionType) (t : ServingRequest A)
      → t.in_closed ≡ true
      → IsTidy t
      → IsTidy (retire_input ft t)
  unfolding retire_input
  retire_input-IsTidy single_function t h (c, e, l, r) =
      ((λ k. (refl, h, (c k).2)), e, (λ k. (refl, h)), λ o n. refl)
  retire_input-IsTidy outgoing_stream t h (c, e, l, r) =
      ((λ k. (refl, h, (c k).2)), e, (λ k. (refl, h)), λ o n. refl)
  retire_input-IsTidy incoming_stream t h (c, e, l, r) =
      ((λ k. (refl, h, (c k).2)), e, (λ k. (refl, h)), λ o n. refl)
  retire_input-IsTidy chat t h inv = inv

  pub then_truncate-IsTidy : (t : ServingRequest A) → IsTidy t → IsTidy (then_truncate t)
  unfolding then_truncate set_code
  then_truncate-IsTidy t (c, e, l, r) =
      either IsTidy (overflowed t.in_pump)
        (close_request-IsTidy
          (set_code code_resource_exhausted (send (sent_error code_resource_exhausted) t)) c e)
        (c, e, l, r)

  poll-IsTidy : (o : Option A) (t : ServingRequest A) → IsTidy t → IsTidy (poll o t)
  unfolding poll end_stream
  poll-IsTidy none t (c, e, l, r) = over-IsTidy (send (sent_end none) t) c e
  poll-IsTidy (some v) t (c, e, l, r) =
      either IsTidy t.closed (over-IsTidy (send (sent_end (some v)) t) c e)
        (busy-IsTidy t (holding v) t.sent refl (c, e, l, r))

  then_send-IsTidy :
      (v : A) (t : ServingRequest A) (r : CreditGate × Acquired)
      → (IsShut t.send_credit → IsShut (some r.0))
      → IsTidy t
      → IsTidy (then_send v t r)
  unfolding then_send
  then_send-IsTidy v t (g, blocked) k inv = inv
  then_send-IsTidy v t (g, refused) k (c, e, l, r) = over-IsTidy t c e
  then_send-IsTidy v t (g, taken) k (c, e, l, r) =
      busy-IsTidy (record t { send_credit = some g }) polling (t.sent ++ sent_value v ∷ []) refl
        ((λ h. ((c h).0, (c h).1, k (c h).2)), e, l, r)

  send_held-IsTidy :
      (v : A) (o : Option CreditGate) (t : ServingRequest A)
      → t.send_credit ≡ o
      → IsTidy t
      → IsTidy (send_held v o t)
  unfolding send_held
  send_held-IsTidy v none t h inv = busy-IsTidy t polling (t.sent ++ sent_value v ∷ []) refl inv
  send_held-IsTidy v (some g) t h inv =
      then_send-IsTidy v t (acquire g) (λ k. acquire-closed g (subst IsShut h k)) inv

  return_from-IsTidy :
      (ft : FunctionType) (t : ServingRequest A) → t.ft ≡ ft → IsTidy t → IsTidy (return_from ft t)
  unfolding return_from
  return_from-IsTidy single_function t h inv = busy-IsTidy t polling (t.sent ++ ready ∷ []) refl inv
  return_from-IsTidy outgoing_stream t h inv = busy-IsTidy t polling (t.sent ++ ready ∷ []) refl inv
  return_from-IsTidy incoming_stream t h (c, e, l, r) = (c, e, l, λ o n. absurd (n h))
  return_from-IsTidy chat t h inv = busy-IsTidy t polling (t.sent ++ ready ∷ []) refl inv

  pub handler_step-IsTidy :
      (e : Event A) (s : Streamer A) (t : ServingRequest A) → IsTidy t → IsTidy (handler_step e s t)
  unfolding handler_step set_code
  handler_step-IsTidy (fails c) calling t inv = over-IsTidy (set_code c t) inv.0 inv.1
  handler_step-IsTidy returns calling t inv = return_from-IsTidy t.ft t refl inv
  handler_step-IsTidy (polls o) polling t inv = poll-IsTidy o t inv
  handler_step-IsTidy acquires (holding v) t inv = send_held-IsTidy v t.send_credit t refl inv
  handler_step-IsTidy (fails c) polling t inv = inv
  handler_step-IsTidy (fails c) over t inv = inv
  handler_step-IsTidy (fails c) (holding v) t inv = inv
  handler_step-IsTidy returns polling t inv = inv
  handler_step-IsTidy returns over t inv = inv
  handler_step-IsTidy returns (holding v) t inv = inv
  handler_step-IsTidy (polls o) calling t inv = inv
  handler_step-IsTidy (polls o) over t inv = inv
  handler_step-IsTidy (polls o) (holding v) t inv = inv
  handler_step-IsTidy acquires calling t inv = inv
  handler_step-IsTidy acquires polling t inv = inv
  handler_step-IsTidy acquires over t inv = inv
  handler_step-IsTidy (arrives f) s t inv = inv
  handler_step-IsTidy session_ends s t inv = inv
  handler_step-IsTidy pump_takes s t inv = inv
  handler_step-IsTidy pump_delivers s t inv = inv
