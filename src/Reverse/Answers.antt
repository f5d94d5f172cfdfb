-- ===== src/Reverse/Answers.antt =====
-- Which events of a request answer to an event of a stream.
use value_rpc.Prelude.{ℕ, ◌⊎◌, ◌≡◌, Bool, true, false, List, [], ◌∷◌, none, some}
use value_rpc.Exchange.{RequestCtx}
use value_rpc.Exchange
use value_rpc.Reverse.{
  ClientStream, Frame, stream_ready, stream_value, stream_end, stream_credit, error_response,
  unsupported, Event, arrives, ends_out, cancels, reads, pump_takes, pump_delivers,
}
use value_rpc.Reverse.Shows.{Shows}

-- The response of a server that says the same as a frame of a client.
abbrev pub response_of : {A E : Type 0} → Frame A E → Exchange.Response A E
response_of stream_ready = Exchange.stream_ready
response_of (stream_value o) = Exchange.stream_value o
response_of (stream_end o) = Exchange.stream_end o
response_of (stream_credit o) = Exchange.stream_credit o
response_of (error_response e) = Exchange.error_response e
response_of unsupported = Exchange.unsupported

abbrev pub is_value : {A E : Type 0} → Frame A E → Bool
is_value (stream_value (some v)) = true
is_value _ = false

module _ {A E : Type 0} (nil_value : A) (truncated : E) (grow : ℕ → ℕ → ℕ) where
  -- The events of a request that answer to one of a stream: a frame is the same response, which only for
  -- a value may be followed by the failure of the request, and a cancellation is the failure, or the
  -- caller's giving up.
  abbrev pub Answers : Event A E → List (Exchange.Event A E) → Type 0
  Answers (arrives f) fs =
      (fs ≡ Exchange.responds (response_of f) ∷ [])
      ⊎ ((is_value f ≡ true)
          × (fs ≡ Exchange.responds (response_of f) ∷ Exchange.fails truncated ∷ []))
  Answers ends_out fs = fs ≡ Exchange.ends_out ∷ []
  Answers cancels fs = (fs ≡ Exchange.fails truncated ∷ []) ⊎ (fs ≡ Exchange.gives_up none ∷ [])
  Answers reads fs = fs ≡ Exchange.reads ∷ []
  Answers pump_takes fs = fs ≡ Exchange.pump_takes ∷ []
  Answers pump_delivers fs = fs ≡ Exchange.pump_delivers ∷ []

  -- The request can take events of the given kind, after which it shows the same as the stream.
  abbrev pub Moves :
      (List (Exchange.Event A E) → Type 0) → RequestCtx A E → ClientStream A E → Type 0
  Moves Allowed c t =
      (fs : List (Exchange.Event A E)) × Allowed fs
      × Shows (Exchange.run nil_value truncated grow fs c) t
