-- ===== src/Responder/Agreement.antt =====
-- The two ends answer a stream in the same way.
use value_rpc.Prelude.{
  ℕ, ◌<◌, ◌≡◌, two63, sle, arith, refl, sym, ap, ◌∙◌, Bool, true, false, if◌then◌else◌, if-ap, List,
  [], ◌∷◌, Option, none, some,
}
use mathlib.Core.Option
use value_rpc.Errors.{code_canceled}
use value_rpc.Serving.{FunctionType, single_function, outgoing_stream, incoming_stream, chat}
use value_rpc.Flow.StreamPump.{StreamPump, push}
use value_rpc.Responder.{
  Frame, cancel_request, unsupported, stream_value, stream_end, stream_credit, Event, arrives,
  fails, returns, acquires, session_ends, pump_takes, pump_delivers, polls, ServingRequest,
  new_serving_request, set_code, close, close_inbound_chan, offer, offer_some,
  incoming_stream_value, incoming_stream_end, serve_running_request, step, run, gate_of, pump_of,
  initial_window,
}
use value_rpc.Responder.Client.{
  ClientServingRequest, ClientFnKind, cfn_unary, cfn_out, cfn_in, cfn_chat,
}
use value_rpc.Responder.Client
use value_rpc.Responder.View.{
  kind_of, as_client, close-as_client, close_request-as_client, close_inbound_chan-as_client,
  retire_input-as_client, then_truncate-as_client, handler_step-as_client,
}

positive_kept : (n : ℕ) → 0 < n → n < two63 → sle n 0 ≡ false
positive_kept n p h = ground arith

new-as_client :
    {A : Type 0} (ft : FunctionType) (max_pending : ℕ)
    → 0 < max_pending
    → max_pending < two63
    → as_client {A = A} (new_serving_request ft max_pending)
      ≡ Client.new_client_serving_request (kind_of ft) max_pending
unfolding new_serving_request gate_of pump_of initial_window Client.initial_window
    Client.new_client_serving_request Client.gate_of Client.pump_of
new-as_client single_function max_pending p h = simp (positive_kept max_pending p h) refl
new-as_client outgoing_stream max_pending p h = simp (positive_kept max_pending p h) refl
new-as_client incoming_stream max_pending p h = simp (positive_kept max_pending p h) refl
new-as_client chat max_pending p h = simp (positive_kept max_pending p h) refl

abbrev pub has_input : {A : Type 0} → Option (StreamPump A) → Bool
has_input none = false
has_input (some p) = true

module _ {A : Type 0} (nil_value : A) (grow : ℕ → ℕ → ℕ) where
  -- The frame fits the stream: an end of input is for one that has an input.
  abbrev pub IsExpected : Event A → ServingRequest A → Type 0
  IsExpected (arrives (stream_end o)) t = has_input t.in_pump ≡ true
  IsExpected e t = Unit {0}

  abbrev pub AllExpected : List (Event A) → ServingRequest A → Type 0
  AllExpected [] t = Unit {0}
  AllExpected (e ∷ es) t = IsExpected e t × AllExpected es (step nil_value grow e t)

  offer-as_client :
      (o : Option A) (t : ServingRequest A)
      → as_client (offer_some nil_value grow o t) ≡ Client.push_some nil_value grow o (as_client t)
  unfolding offer_some offer Client.push_some
  offer-as_client none t = refl
  offer-as_client (some v) t = refl

  abbrev with_pump : ClientServingRequest A → Option (StreamPump A) → ClientServingRequest A
  with_pump c p = record c { in_pump = p }

  then_truncate-with_pump :
      (c : ClientServingRequest A) (p : Option (StreamPump A))
      → p ≡ none
      → Client.then_truncate (with_pump c p) ≡ with_pump c none
  unfolding Client.then_truncate
  then_truncate-with_pump c none h = refl
  then_truncate-with_pump c (some p) h = cc

  -- Without a pump a value changes nothing.
  push_some-none :
      (o : Option A) (c : ClientServingRequest A)
      → c.in_pump ≡ none
      → Client.then_truncate (Client.push_some nil_value grow o c) ≡ c
  unfolding Client.push_some
  push_some-none none c h = then_truncate-with_pump c c.in_pump h ∙ ap (with_pump c) (sym h)
  push_some-none (some v) c h =
      then_truncate-with_pump c _ (ap (Option.map (λ p. (push grow v p).0)) h)
      ∙ ap (with_pump c) (sym h)

  value-as_client :
      (o : Option A) (p : Option (StreamPump A)) (t : ServingRequest A)
      → t.in_pump ≡ p
      → as_client (incoming_stream_value nil_value grow o p t)
        ≡ Client.then_truncate (Client.push_some nil_value grow o (as_client t))
  unfolding incoming_stream_value
  value-as_client o none t h = sym (push_some-none o (as_client t) h)
  value-as_client o (some p) t h =
      then_truncate-as_client (offer_some nil_value grow o t)
      ∙ ap Client.then_truncate (offer-as_client o t)

  end-as_client :
      (o : Option A) (p : Option (StreamPump A)) (t : ServingRequest A)
      → has_input p ≡ true
      → as_client (incoming_stream_end nil_value grow o p t)
        ≡ Client.retire_input
            (kind_of t.ft)
            (Client.close_inbound_chan (Client.push_some nil_value grow o (as_client t)))
  unfolding incoming_stream_end
  end-as_client o none t h = cc
  end-as_client o (some p) t h =
      retire_input-as_client t.ft (close_inbound_chan (offer_some nil_value grow o t))
      ∙ ap (Client.retire_input (kind_of t.ft)) (
          close_inbound_chan-as_client (offer_some nil_value grow o t)
          ∙ ap Client.close_inbound_chan (offer-as_client o t))

  serve-as_client :
      (f : Frame A) (t : ServingRequest A)
      → IsExpected (arrives f) t
      → as_client (serve_running_request nil_value grow f t)
        ≡ Client.serve_running nil_value grow f (as_client t)
  unfolding serve_running_request Client.serve_running set_code
  serve-as_client cancel_request t h = close_request-as_client (set_code code_canceled t)
  serve-as_client unsupported t h = refl
  serve-as_client (stream_value o) t h = value-as_client o t.in_pump t refl
  serve-as_client (stream_end o) t h = end-as_client o t.in_pump t h
  serve-as_client (stream_credit none) t h = refl
  serve-as_client (stream_credit (some n)) t h = refl

  step-as_client :
      (e : Event A) (t : ServingRequest A)
      → IsExpected e t
      → as_client (step nil_value grow e t) ≡ Client.step nil_value grow e (as_client t)
  unfolding step Client.step
  step-as_client (arrives f) t h =
      sym (if-ap as_client t.registered (serve_running_request nil_value grow f t) t)
      ∙ ap (λ c. if t.registered then c else as_client t) (serve-as_client f t h)
  step-as_client session_ends t h =
      sym (if-ap as_client t.registered (close t) t)
      ∙ ap (λ c. if t.registered then c else as_client t) (close-as_client t)
  step-as_client pump_takes t h = refl
  step-as_client pump_delivers t h = refl
  step-as_client (fails c) t h = handler_step-as_client (fails c) t.streamer t
  step-as_client returns t h = handler_step-as_client returns t.streamer t
  step-as_client (polls o) t h = handler_step-as_client (polls o) t.streamer t
  step-as_client acquires t h = handler_step-as_client acquires t.streamer t

  run-as_client :
      (es : List (Event A)) (t : ServingRequest A)
      → AllExpected es t
      → as_client (run nil_value grow es t) ≡ Client.run nil_value grow es (as_client t)
  unfolding run Client.run
  run-as_client [] t h = refl
  run-as_client (e ∷ es) t (h, hs) =
      run-as_client es (step nil_value grow e t) hs
      ∙ ap (Client.run nil_value grow es) (step-as_client e t h)

  -- With a positive bound below 2 ^ 63, a client and a server that answer a stream of the same kind and
  -- bound come to the same state and send the same frames, credits included, for every sequence of the peer's frames, the handler's returns, its values and the
  -- steps of the pump, if an end of input comes only to a stream that has an input.
  pub responders_agree :
      (ft : FunctionType) (max_pending : ℕ) (es : List (Event A))
      → 0 < max_pending
      → max_pending < two63
      → AllExpected es (new_serving_request ft max_pending)
      → as_client (run nil_value grow es (new_serving_request ft max_pending))
        ≡ Client.run nil_value grow es (Client.new_client_serving_request (kind_of ft) max_pending)
  responders_agree ft max_pending es p b h =
      run-as_client es (new_serving_request ft max_pending) h
      ∙ ap (Client.run nil_value grow es) (new-as_client ft max_pending p b)
