-- ===== src/Serving/Caps.antt =====
-- The two caps of a session, over every interleaving of its handlers.
use value_rpc.Prelude.{
  ◌+◌, ◌≤◌, ◌<◌, ◌≡◌, refl, ◌∙◌, inl, inr, ◌||◌, ◌==◌, List, [], ◌∷◌, Option, none, some, length,
  get_elem?, Bool-cases, Option-cases, arith,
}
use value_rpc.Serving.Totals.{total}
use value_rpc.Wire.Values.{Values}
use value_rpc.Wire.Protocol.{function_response, error_response, cancel_request}
use value_rpc.Serving.{
  FunctionType, Function, Limits, Message, Handler, Serving, new_serving, has, function_type_of,
  reserve_type, serve_new_request, process_request, proceed_at, Event, receive, advance, retire,
  step, run,
}
use value_rpc.Serving.Handlers.{Inv, one, reserve-Inv, delete_request-Inv, proceed-Inv}

module _ (v : Values) (limits : Limits) (find : v.Text → Option (Function v)) where
  process_request-Inv :
      (s : Serving v) (m : Message v)
      → Inv v limits find s
      → Inv v limits find (process_request v limits find s m)
  unfolding process_request serve_new_request
  process_request-Inv s m inv =
      elim (Bool-cases (m.message_type == function_response || m.message_type == error_response)) [
        | inl e ↦ rw e inv
        | inr e ↦ rw e (elim (Bool-cases (has m.id s.requests)) [
          | inl f ↦ rw f inv
          | inr f ↦ rw f (elim (Bool-cases (m.message_type == cancel_request)) [
            | inl g ↦ rw g inv
            | inr g ↦ rw g (typed (function_type_of m.message_type))
          ])
        ])
      ]
    where
      typed : (t : Option FunctionType) → Inv v limits find (reserve_type v limits find s m t)
      typed none = inv
      typed (some ft) = reserve-Inv v limits find s m ft inv

  step-Inv :
      (e : Event v limits find) (s : Serving v)
      → Inv v limits find s
      → Inv v limits find (step v limits find e s)
  unfolding step proceed_at
  step-Inv (receive m) s inv = process_request-Inv s m inv
  step-Inv (advance i failure) s inv = elim (Option-cases (get_elem? s.handlers i)) [
    | inl e ↦ rw e inv
    | inr (h, e) ↦ rw e (proceed-Inv v limits find s i failure h h.phase e refl inv)
  ]
  step-Inv (retire id) s inv = delete_request-Inv v limits find s id inv

  run-Inv :
      (es : List (Event v limits find)) (s : Serving v)
      → Inv v limits find s
      → Inv v limits find (run v limits find es s)
  unfolding run
  run-Inv [] s inv = inv
  run-Inv (e ∷ es) s inv = run-Inv es _ (step-Inv e s inv)

  total-one : (hs : List (Handler v)) → total (one v) hs ≡ length hs
  total-one [] = refl
  total-one (h ∷ hs) = let e = total-one hs in omega arith

  -- With both caps set, and however the handlers of a session interleave: the handlers that run are as
  -- many as are counted and at most the request cap, the registered streams are at most as many as are
  -- counted, and the streams counted are fewer than the two caps together.
  pub caps_hold :
      (es : List (Event v limits find))
      → 0 < limits.max_concurrent_requests
      → 0 < limits.max_concurrent_streams
      → let s = run v limits find es (new_serving v) in
        (s.in_flight ≡ length s.handlers)
        × (length s.handlers ≤ limits.max_concurrent_requests)
        × (length s.requests ≤ s.live_streams)
        × (s.live_streams < limits.max_concurrent_streams + limits.max_concurrent_requests)
  unfolding new_serving
  caps_hold es r q =
      let s = run v limits find es (new_serving v) in
      let inv = run-Inv es (new_serving v) (record {
        counted = refl;
        capped = inr (omega arith);
        registered = omega arith;
        streams = inr (inr (omega arith));
      }) in
      (
        inv.counted ∙ total-one s.handlers,
        omega (arith, total-one s.handlers, inv.counted, inv.capped),
        inv.registered,
        omega (arith, inv.streams),
      )
