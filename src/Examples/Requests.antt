-- ===== src/Examples/Requests.antt =====
-- A session that serves one stream function, with room for two handlers and one stream.
use value_rpc.Prelude.{
  ℕ, ◌+◌, ◌≤◌, ◌<◌, ◌≡◌, refl, List, [], ◌∷◌, Option, none, some, length, arith,
}
use value_rpc.Wire.Verify.{verify, any_def}
use value_rpc.Serving.{
  Function, Limits, Message, Event, outgoing_stream, receive, advance, new_serving, run, step,
  process_request, serve_new_request, reserve_type, reserve, function_type_of, proceed_at, proceed,
  checked, refusal, refusal_named, refusal_of, same_type, new_serving_request, store_key, has,
}
use value_rpc.Serving.Caps.{caps_hold}
use value_rpc.Examples.Messages.{items}

abbrev pub small : Limits
small = record { max_concurrent_requests = 2; max_concurrent_streams = 1 }

abbrev pub streams_only : ℕ → Option (Function items)
streams_only name = some (record { args = any_def; ft = outgoing_stream })

abbrev get_stream : ℕ → Message items
get_stream id = record { message_type = 4; id = id; name = some 1; args = none }

-- Both handlers pass the check before either of them registers its stream.
abbrev overlapping : List (Event items small streams_only)
overlapping =
    receive (get_stream 1)
    ∷ receive (get_stream 2)
    ∷ receive (get_stream 3)
    ∷ advance 0 none
    ∷ advance 1 none
    ∷ advance 0 none
    ∷ advance 1 none
    ∷ []

caps_hold_example :
    let s = run items small streams_only overlapping (new_serving items) in
    (s.in_flight ≡ length s.handlers)
    × (length s.handlers ≤ 2)
    × (length s.requests ≤ s.live_streams)
    × (s.live_streams < 1 + 2)
caps_hold_example = caps_hold items small streams_only overlapping (omega arith) (omega arith)

-- The cap on streams is passed by one, and the third request was refused.
two_streams :
    let s = run items small streams_only overlapping (new_serving items) in
    (s.live_streams ≡ 2) × (s.replies ≡ 6 ∷ [])
unfolding run step process_request serve_new_request reserve_type reserve function_type_of
    proceed_at proceed checked refusal refusal_named refusal_of same_type new_serving_request
    store_key has verify new_serving
two_streams = (refl, refl)
