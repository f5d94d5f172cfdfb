-- ===== src/Responder/Retired.antt =====
-- What a retired request leaves behind.
use value_rpc.Prelude.{
  ℕ, ◌≡◌, refl, inl, inr, true, false, ◌||◌, either, List, [], ◌∷◌, Option, none, some, get_elem?,
  Option-cases, arith,
}
use mathlib.Core.Option
use value_rpc.Errors.{code_canceled}
use value_rpc.Serving.{FunctionType}
use value_rpc.Flow.StreamPump.{
  StreamPump, push, take, take_from, finish, dequeue, deliver, deliver_from, Runner, idle, sending,
  finished, panicked,
}
use value_rpc.Exchange.Life.{IsShut-grant}
use value_rpc.Responder.{
  Frame, cancel_request, unsupported, stream_value, stream_end, stream_credit, Event, arrives,
  fails, returns, acquires, session_ends, pump_takes, pump_delivers, polls, ServingRequest,
  new_serving_request, set_code, close_inbound_chan, offer, offer_some, incoming_stream_value,
  incoming_stream_end, serve_running_request, step, run,
}
use value_rpc.Responder.Tidy.{
  IsEnded, IsTidy, close-IsTidy, close_request-IsTidy, close_inbound_chan-IsTidy,
  close_inbound_chan-in_closed, retire_input-IsTidy, then_truncate-IsTidy, handler_step-IsTidy,
}

module _ {A : Type 0} (nil_value : A) (grow : ℕ → ℕ → ℕ) where
  IsEnded-push :
      (v : A) (o : Option (StreamPump A))
      → IsEnded o
      → IsEnded (Option.map (λ p. (push grow v p).0) o)
  unfolding push
  IsEnded-push v none h = tt
  IsEnded-push v (some p) h = simp h refl

  take_from-ended :
      (r : Runner A) (p : StreamPump A)
      → (p.input_end || p.stopped) ≡ true
      → ((take_from nil_value r p).input_end || (take_from nil_value r p).stopped) ≡ true
  unfolding take_from
  take_from-ended idle p h = elim (Option-cases (get_elem? p.queue p.head)) [
    | inl e ↦ rw e (unfold dequeue finish in ground arith)
    | inr (v, e) ↦ rw e (unfold dequeue finish in ground arith)
  ]
  take_from-ended finished p h = h
  take_from-ended panicked p h = h
  take_from-ended (sending v) p h = h

  IsEnded-take : (o : Option (StreamPump A)) → IsEnded o → IsEnded (Option.map (take nil_value) o)
  unfolding take
  IsEnded-take none h = tt
  IsEnded-take (some p) h = take_from-ended p.runner p h

deliver_from-ended :
    {A : Type 0} (r : Runner A) (p : StreamPump A)
    → (p.input_end || p.stopped) ≡ true
    → ((deliver_from r p).input_end || (deliver_from r p).stopped) ≡ true
unfolding deliver_from
deliver_from-ended idle p h = h
deliver_from-ended finished p h = h
deliver_from-ended panicked p h = h
deliver_from-ended (sending v) p h = h

IsEnded-deliver :
    {A : Type 0} (o : Option (StreamPump A)) → IsEnded o → IsEnded (Option.map deliver o)
unfolding deliver
IsEnded-deliver none h = tt
IsEnded-deliver (some p) h = deliver_from-ended p.runner p h

module _ {A : Type 0} (nil_value : A) (grow : ℕ → ℕ → ℕ) where
  offer_some-IsTidy :
      (o : Option A) (t : ServingRequest A) → IsTidy t → IsTidy (offer_some nil_value grow o t)
  unfolding offer_some offer
  offer_some-IsTidy none t inv = inv
  offer_some-IsTidy (some v) t (c, e, l, r) =
      (c, (λ h. IsEnded-push nil_value grow v t.in_pump (e h)), l, r)

  value-IsTidy :
      (o : Option A) (p : Option (StreamPump A)) (t : ServingRequest A)
      → IsTidy t
      → IsTidy (incoming_stream_value nil_value grow o p t)
  unfolding incoming_stream_value
  value-IsTidy o none t inv = inv
  value-IsTidy o (some p) t inv =
      then_truncate-IsTidy (offer_some nil_value grow o t) (offer_some-IsTidy o t inv)

  end-IsTidy :
      (o : Option A) (p : Option (StreamPump A)) (t : ServingRequest A)
      → IsTidy t
      → IsTidy (incoming_stream_end nil_value grow o p t)
  unfolding incoming_stream_end
  end-IsTidy o none t inv = inv
  end-IsTidy o (some p) t inv =
      let u = offer_some nil_value grow o t in
      retire_input-IsTidy t.ft (close_inbound_chan u) (close_inbound_chan-in_closed u)
        (close_inbound_chan-IsTidy u (offer_some-IsTidy o t inv))

  serve-IsTidy :
      (f : Frame A) (t : ServingRequest A)
      → IsTidy t
      → IsTidy (serve_running_request nil_value grow f t)
  unfolding serve_running_request set_code
  serve-IsTidy cancel_request t inv = close_request-IsTidy (set_code code_canceled t) inv.0 inv.1
  serve-IsTidy unsupported t inv = inv
  serve-IsTidy (stream_value o) t inv = value-IsTidy o t.in_pump t inv
  serve-IsTidy (stream_end o) t inv = end-IsTidy o t.in_pump t inv
  serve-IsTidy (stream_credit none) t inv = inv
  serve-IsTidy (stream_credit (some n)) t (c, e, l, r) =
      ((λ h. ((c h).0, (c h).1, IsShut-grant n t.send_credit (c h).2)), e, l, r)

  step-IsTidy : (e : Event A) (t : ServingRequest A) → IsTidy t → IsTidy (step nil_value grow e t)
  unfolding step
  step-IsTidy (arrives f) t inv = either IsTidy t.registered (serve-IsTidy f t inv) inv
  step-IsTidy session_ends t inv = either IsTidy t.registered (close-IsTidy t inv) inv
  step-IsTidy pump_takes t (c, e, l, r) =
      (c, (λ h. IsEnded-take nil_value grow t.in_pump (e h)), l, r)
  step-IsTidy pump_delivers t (c, e, l, r) = (c, (λ h. IsEnded-deliver t.in_pump (e h)), l, r)
  step-IsTidy (fails c) t inv = handler_step-IsTidy (fails c) t.streamer t inv
  step-IsTidy returns t inv = handler_step-IsTidy returns t.streamer t inv
  step-IsTidy (polls o) t inv = handler_step-IsTidy (polls o) t.streamer t inv
  step-IsTidy acquires t inv = handler_step-IsTidy acquires t.streamer t inv

  run-IsTidy :
      (es : List (Event A)) (t : ServingRequest A) → IsTidy t → IsTidy (run nil_value grow es t)
  unfolding run
  run-IsTidy [] t inv = inv
  run-IsTidy (e ∷ es) t inv = run-IsTidy es (step nil_value grow e t) (step-IsTidy e t inv)

  -- However the frames of the peer, the handler, its streamer and the end of the session take turns: a
  -- closed request is cancelled, with a gate that makes no sender wait; a request that has left the map is
  -- cancelled too, and its pump waits for no more input; and a stream that the server sends has left the
  -- map when its streamer is over.
  pub retires_tidily :
      (ft : FunctionType) (max_pending : ℕ) (es : List (Event A))
      → IsTidy (run nil_value grow es (new_serving_request ft max_pending))
  unfolding new_serving_request
  retires_tidily ft max_pending es = run-IsTidy es (new_serving_request ft max_pending) (
    (λ h. absurd (fresh h)),
    (λ h. absurd (fresh h)),
    (λ h. absurd (fresh' h)),
    λ h. absurd (fresh h),
  )
    where
      fresh : false ≡ true → ⊥
      fresh h = cc

      fresh' : true ≡ false → ⊥
      fresh' h = cc
