-- ===== src/Reverse/Steps.antt =====
-- Each event of a stream is the same event of the request that shows the same.
use value_rpc.Prelude.{
  ℕ, suc, ◌≡◌, refl, sym, ap, subst, ◌∙◌, inl, inr, Bool, true, false, if◌then◌else◌, if-ap, ltb,
  length, [], ◌∷◌, ◌++◌, Option, none, some, Bool-cases, arith,
}
use value_rpc.Flow.StreamPump.{StreamPump, push}
use value_rpc.Exchange.{RequestCtx}
use value_rpc.Exchange
use value_rpc.Reverse.{
  ClientStream, Frame, stream_ready, stream_value, stream_end, stream_credit, error_response,
  unsupported, Event, arrives, ends_out, cancels, reads, pump_takes, pump_delivers, Notified,
  queued, refused, waits, notified_if, overflowed, close, delete_pending_stream, then_get_close,
  then_tear_down, cancel_client_stream, notify_by, notify_result, handle_inbound, step,
  deliver_result,
}
use value_rpc.Reverse.Answers.{response_of, is_value, Answers, Moves}
use value_rpc.Reverse.Shows.{
  as_request, Shows, close-Shows, finish-Shows, get_close-Shows, put_close-Shows,
}

abbrev client_notified : Notified → Exchange.Notified
client_notified queued = Exchange.queued
client_notified refused = Exchange.dropped
client_notified waits = Exchange.waits

client_notified-if : (b : Bool) → Exchange.notified_if b ≡ client_notified (notified_if b)
client_notified-if true = refl
client_notified-if false = refl

module _ {A E : Type 0} (nil_value : A) (truncated : E) (grow : ℕ → ℕ → ℕ) where
  module _ (n : ℕ) (b : Bool) (r : Option E) where
    abbrev both : ClientStream A E × Notified → RequestCtx A E × Exchange.Notified
    both (t, o) = (as_request n b r t, client_notified o)

    notify_by-as_request :
        (o : Option (StreamPump A)) (v : A) (t : ClientStream A E)
        → Exchange.notify_by nil_value truncated grow o v (as_request n b r t)
          ≡ both (notify_by nil_value grow o v t)
    unfolding notify_by Exchange.notify_by
    notify_by-as_request (some p) v t = rw (client_notified-if (push grow v p).1) refl
    notify_by-as_request none v t =
        ap (λ x. if t.done then both (t, refused) else x)
          (if-ap both (ltb (length t.results) t.capacity)
            (record t { results = t.results ++ v ∷ [] }, queued) (t, waits))
        ∙ if-ap both t.done (t, refused) _

    truncate-Shows :
        (t : ClientStream A E) (o : Notified)
        → Shows
            (Exchange.then_truncate nil_value truncated grow
              (as_request n b r t, client_notified o))
            t
    unfolding Exchange.then_truncate
    truncate-Shows t queued = (n, b, r, refl)
    truncate-Shows t waits = (n, b, r, refl)
    truncate-Shows t refused = elim (Bool-cases b) [
      | inl y ↦ simp y (n, true, r, refl)
      | inr f ↦ simp f (n, true, some truncated, refl)
    ]

    then_get_close-Shows :
        (t : ClientStream A E) (o : Notified)
        → Shows
            (Exchange.then_get_close (as_request n b r t, client_notified o))
            (then_get_close (t, o))
    unfolding then_get_close Exchange.then_get_close
    then_get_close-Shows t queued = get_close-Shows n b r t
    then_get_close-Shows t refused = get_close-Shows n b r t
    then_get_close-Shows t waits = (n, b, r, refl)

  notify_by-registered :
      (o : Option (StreamPump A)) (v : A) (t : ClientStream A E)
      → (notify_by nil_value grow o v t).0.registered ≡ t.registered
  unfolding notify_by
  notify_by-registered (some p) v t = refl
  notify_by-registered none v t = ground arith

  fails-step :
      (e : E) (c : RequestCtx A E)
      → c.registered ≡ true
      → Exchange.step nil_value truncated grow (Exchange.fails e) c ≡ Exchange.fail_request e c
  unfolding Exchange.step
  fails-step e c h = simp h refl

  fails-Shows :
      (x : E) (c : RequestCtx A E) (t : ClientStream A E)
      → t.registered ≡ true
      → Shows c t
      → Shows
          (Exchange.step nil_value truncated grow (Exchange.fails x) c)
          (close (delete_pending_stream t))
  unfolding Exchange.fail_request
  fails-Shows x c t h (n, b, r, e) =
      rw (fails-step x c (ap (λ c. c.registered) e ∙ h)) (rw e (finish-Shows n b (some x) t))

  responds-step :
      (x : Exchange.Response A E) (c : RequestCtx A E)
      → c.registered ≡ true
      → Exchange.step nil_value truncated grow (Exchange.responds x) c
        ≡ Exchange.process_response nil_value truncated grow x c
  unfolding Exchange.step
  responds-step x c h = simp h refl

  unregistered-step :
      (x : Exchange.Response A E) (c : RequestCtx A E)
      → c.registered ≡ false
      → Exchange.step nil_value truncated grow (Exchange.responds x) c ≡ c
  unfolding Exchange.step
  unregistered-step x c h = simp h refl

  module _ (n : ℕ) (b : Bool) (r : Option E) (t : ClientStream A E) where
    -- One response that does what a frame does.
    respond :
        (f : Frame A E) (u : ClientStream A E)
        → t.registered ≡ true
        → Shows
            (Exchange.process_response nil_value truncated grow
              (response_of f)
              (as_request n b r t))
            u
        → Moves nil_value truncated grow
            (Answers nil_value truncated grow (arrives f))
            (as_request n b r t)
            u
    unfolding Exchange.run
    respond f u h s = (
      Exchange.responds (response_of f) ∷ [],
      inl refl,
      subst (λ c. Shows c u) (sym (responds-step (response_of f) (as_request n b r t) h)) s,
    )

    tear_down :
        (f : Frame A E) (u : ClientStream A E) (o : Notified)
        → is_value f ≡ true
        → t.registered ≡ true
        → u.registered ≡ true
        → Shows
            (Exchange.process_response nil_value truncated grow
              (response_of f)
              (as_request n b r t))
            u
        → Moves nil_value truncated grow
            (Answers nil_value truncated grow (arrives f))
            (as_request n b r t)
            (then_tear_down (u, o))
    unfolding then_tear_down Exchange.run
    tear_down f u queued y h k s = respond f u h s
    tear_down f u waits y h k s = respond f u h s
    tear_down f u refused y h k s = elim (Bool-cases (overflowed u.result_pump)) [
      | inr quiet ↦ rw quiet (respond f u h s)
      | inl loud ↦ rw loud (
        Exchange.responds (response_of f) ∷ Exchange.fails truncated ∷ [],
        inr (y, refl),
        fails-Shows truncated _ (record u { truncations = suc u.truncations }) k
            (subst (λ c. Shows c u) (sym (responds-step (response_of f) (as_request n b r t) h)) s),
      )
    ]

    value-Moves :
        (v : A)
        → t.registered ≡ true
        → Moves nil_value truncated grow
            (Answers nil_value truncated grow (arrives (stream_value (some v))))
            (as_request n b r t)
            (then_tear_down (notify_result nil_value grow v t))
    unfolding notify_result Exchange.process_response Exchange.notify_result
    value-Moves v h =
        let (u, o) = notify_by nil_value grow t.result_pump v t in
        tear_down (stream_value (some v)) u o refl h (notify_by-registered t.result_pump v t ∙ h)
          (rw (notify_by-as_request n b r t.result_pump v t) (truncate-Shows n b r u o))

    frame-Moves :
        (f : Frame A E)
        → t.registered ≡ true
        → Moves nil_value truncated grow
            (Answers nil_value truncated grow (arrives f))
            (as_request n b r t)
            (handle_inbound nil_value grow f t)
    unfolding handle_inbound notify_result Exchange.process_response Exchange.notify_result
    frame-Moves stream_ready h =
        respond stream_ready (notify_by nil_value grow t.result_pump nil_value t).0 h (
          rw (notify_by-as_request n b r t.result_pump nil_value t, Exchange.process_response)
            (n, b, r, refl))
    frame-Moves (stream_value none) h = respond (stream_value none) t h (n, b, r, refl)
    frame-Moves (stream_value (some v)) h = value-Moves v h
    frame-Moves (stream_end none) h =
        respond (stream_end none) (handle_inbound nil_value grow (stream_end none) t) h
          (get_close-Shows n b r t)
    frame-Moves (stream_end (some v)) h =
        respond (stream_end (some v)) (then_get_close (notify_by nil_value grow t.result_pump v t))
          h
          (rw (notify_by-as_request n b r t.result_pump v t, Exchange.process_response)
            (then_get_close-Shows n b r (notify_by nil_value grow t.result_pump v t).0
              (notify_by nil_value grow t.result_pump v t).1))
    frame-Moves (stream_credit none) h = respond (stream_credit none) t h (n, b, r, refl)
    frame-Moves (stream_credit (some k)) h =
        respond (stream_credit (some k)) (handle_inbound nil_value grow (stream_credit (some k)) t)
          h (n, b, r, refl)
    frame-Moves (error_response e) h =
        respond (error_response e) (handle_inbound nil_value grow (error_response e) t) h
          (finish-Shows n b (some e) (record t { result_err = some e }))
    frame-Moves unsupported h = respond unsupported t h (n, b, r, refl)

    abbrev with_registered : Bool → ClientStream A E
    with_registered x = record t { registered = x }

    cancel-Moves :
        Moves nil_value truncated grow
          (Answers nil_value truncated grow cancels)
          (as_request n b r t)
          (cancel_client_stream t)
    unfolding cancel_client_stream Exchange.run Exchange.step Exchange.give_up delete_pending_stream
    cancel-Moves = elim (Bool-cases t.registered) [
      | inl y ↦ (
        Exchange.fails truncated ∷ [],
        inl refl,
        fails-Shows truncated (as_request n b r t) t y (n, b, r, refl),
      )
      | inr f ↦ (
        Exchange.gives_up none ∷ [],
        inr refl,
        subst (λ x. Shows (Exchange.close (as_request n b r t)) (close (with_registered x))) f
            (close-Shows n b r t),
      )
    ]

    arrives-Moves :
        (f : Frame A E) (registered : Bool)
        → t.registered ≡ registered
        → Moves nil_value truncated grow
            (Answers nil_value truncated grow (arrives f))
            (as_request n b r t)
            (if registered then handle_inbound nil_value grow f t else t)
    unfolding Exchange.run
    arrives-Moves f true h = frame-Moves f h
    arrives-Moves f false h = (
      Exchange.responds (response_of f) ∷ [],
      inl refl,
      (n, b, r, unregistered-step (response_of f) (as_request n b r t) h),
    )

    pub step-Moves :
        (e : Event A E)
        → Moves nil_value truncated grow
            (Answers nil_value truncated grow e)
            (as_request n b r t)
            (step nil_value grow e t)
    unfolding step Exchange.step Exchange.run deliver_result Exchange.deliver_result
    step-Moves (arrives f) = arrives-Moves f t.registered refl
    step-Moves ends_out = (Exchange.ends_out ∷ [], refl, put_close-Shows n b r t)
    step-Moves cancels = cancel-Moves
    step-Moves reads = (Exchange.reads ∷ [], refl, (n, b, r, refl))
    step-Moves pump_takes = (Exchange.pump_takes ∷ [], refl, (n, b, r, refl))
    step-Moves pump_delivers = (Exchange.pump_delivers ∷ [], refl, (n, b, r, refl))
