-- ===== src/Flow/StreamPump/Order.antt =====
-- What holds of a pump under every interleaving of its callers, its goroutine and its consumer.
use value_rpc.Prelude.{
  ℕ, ◌≤◌, ◌≡◌, ◌≢◌, refl, sym, true, false, List, [], ◌∷◌, ◌++◌, append-nil, arith,
}
use value_rpc.Flow.StreamPump.{
  Runner, idle, finished, panicked, sending, StreamPump, new_stream_pump, backlog, Event, pushes,
  closes, stops, takes, delivers, interrupts, step, run,
}
use value_rpc.Flow.StreamPump.Pending.{pending}
use value_rpc.Flow.StreamPump.Steps.{
  Owes, Inv, push-Inv, take-Inv, deliver-Inv, interrupt-Inv, close-Inv, stop-Inv,
}

module _ {A : Type 0} (nil_value : A) (grow : ℕ → ℕ → ℕ) where
  step-Inv :
      (p : StreamPump A) (accepted : List A) (e : Event A)
      → Inv accepted p
      → let (q, now) = step nil_value grow (p, accepted) e in Inv now q
  unfolding step
  step-Inv p accepted (pushes v) h = push-Inv grow v accepted p h
  step-Inv p accepted closes h = close-Inv accepted p h
  step-Inv p accepted stops h = stop-Inv accepted p h
  step-Inv p accepted takes h = take-Inv nil_value accepted p p.runner refl h
  step-Inv p accepted delivers h = deliver-Inv accepted p p.runner refl h
  step-Inv p accepted interrupts h = interrupt-Inv accepted p p.runner refl h

  pub run-Inv :
      (p : StreamPump A) (accepted : List A) (es : List (Event A))
      → Inv accepted p
      → let (q, now) = run nil_value grow (p, accepted) es in Inv now q
  unfolding run
  run-Inv p accepted [] h = h
  run-Inv p accepted (e ∷ es) h =
      let (q, now) = step nil_value grow (p, accepted) e in
      run-Inv q now es (step-Inv p accepted e h)

  pub new-Inv : (m : ℕ) → Inv {A = A} [] (new_stream_pump m)
  unfolding new_stream_pump
  new-Inv m = record { in_range = omega arith; bounded = omega arith; owes = refl }

  -- Under every interleaving the goroutine never panics, the backlog stays within the bound, and what
  -- the consumer has got is the accepted values in order, from the first one on.
  pub run-in_order :
      (m : ℕ) (es : List (Event A))
      → let (q, accepted) = run nil_value grow (new_stream_pump m, []) es in
        ((rest : List A) × (accepted ≡ q.out ++ rest))
        × (backlog q ≤ q.max_pending)
        × (q.runner ≢ panicked)
  run-in_order m es =
      let (q, accepted) = run nil_value grow (new_stream_pump m, []) es in
      let h : Inv accepted q = run-Inv (new_stream_pump m) [] es (new-Inv m) in
      (prefix accepted q q.runner h.owes, h.bounded, λ e. never accepted q q.runner e h.owes)
    where
      prefix :
          (accepted : List A) (q : StreamPump A) (r : Runner A)
          → Owes accepted q r
          → (rest : List A) × (accepted ≡ q.out ++ rest)
      prefix accepted q idle o = (pending q, o)
      prefix accepted q (sending v) o = (v ∷ pending q, o)
      prefix accepted q finished o = (o.0, o.1)
      prefix accepted q panicked o = absurd o

      never :
          (accepted : List A) (q : StreamPump A) (r : Runner A)
          → r ≡ panicked
          → Owes accepted q r
          → ⊥
      never accepted q panicked e o = o
      never accepted q _ e o = cc

  -- A pump that has finished without a stop has handed over every accepted value, in order, and has
  -- closed the channel.
  pub run-drained :
      (m : ℕ) (es : List (Event A))
      → let (q, accepted) = run nil_value grow (new_stream_pump m, []) es in
        q.runner ≡ finished → q.stopped ≡ false → (q.out ≡ accepted) × (q.out_closed ≡ true)
  run-drained m es e s =
      let (q, accepted) = run nil_value grow (new_stream_pump m, []) es in
      let h : Inv accepted q = run-Inv (new_stream_pump m) [] es (new-Inv m) in
      all accepted q q.runner e s h.owes
    where
      all :
          (accepted : List A) (q : StreamPump A) (r : Runner A)
          → r ≡ finished
          → q.stopped ≡ false
          → Owes accepted q r
          → (q.out ≡ accepted) × (q.out_closed ≡ true)
      all accepted q finished e s (rest, f, d, n, c) = (sym (rw (f, n s) (append-nil q.out)), c)
      all accepted q _ e s o = cc
