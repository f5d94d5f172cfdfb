-- ===== src/Serving.antt =====
-- How valueserver/serving_client.go takes new requests on one session: processRequest, serveNewRequest,
-- serveFunctionRequest, doServeFunctionRequest, newServingRequest and deleteRequest, with the functions
-- of valueserver/function.go. Each handler runs in its own goroutine, so its phases are separate
-- steps: it is started by the read loop, checks the request, opens the stream, and ends. The two caps
-- are natural numbers, 0 for a value that is not positive.
pub mod Handlers
pub mod Caps
pub mod Totals
use value_rpc.Prelude.{
  ℕ, zero, suc, ◌+◌, ◌-◌, Bool, true, false, not, ◌&&◌, ◌||◌, ◌==◌, ltb, leb, if◌then◌else◌, List,
  [], ◌∷◌, ◌++◌, Option, none, some, length, get_elem?, set,
}
use value_rpc.Errors.{code_invalid_argument, code_not_found, code_resource_exhausted}
use value_rpc.Wire.Values.{Values}
use value_rpc.Wire.Verify.{TypeDef, verify}
use value_rpc.Wire.Protocol.{
  function_request, get_stream_request, put_stream_request, chat_request, function_response,
  error_response, cancel_request,
}

pub data FunctionType : Type 0 where
  single_function : FunctionType
  outgoing_stream : FunctionType
  incoming_stream : FunctionType
  chat : FunctionType

unfoldable pub same_type : FunctionType → FunctionType → Bool
same_type single_function single_function = true
same_type outgoing_stream outgoing_stream = true
same_type incoming_stream incoming_stream = true
same_type chat chat = true
same_type a b = false

pub record Function (v : Values) : Type 0 where
  pub args : TypeDef v
  pub ft : FunctionType

pub record Limits : Type 0 where
  pub max_concurrent_requests : ℕ
  pub max_concurrent_streams : ℕ

pub record Message (v : Values) : Type 0 where
  pub message_type : ℕ
  pub id : ℕ
  pub name : Option v.Text
  pub args : Option v.Value

-- Where the goroutine of a handler stands: before the checks, after them with its stream still to be
-- registered, and at the user's function or after it.
pub data Phase : Type 0 where
  started : Phase
  admitted : Phase
  serving : Phase

pub record Handler (v : Values) : Type 0 where
  pub ft : FunctionType
  pub request : Message v
  pub phase : Phase

-- The keys of requestMap are `requests`; `replies` holds the codes of the error responses sent.
pub record Serving (v : Values) : Type 0 where
  pub in_flight : ℕ
  pub live_streams : ℕ
  pub requests : List ℕ
  pub handlers : List (Handler v)
  pub replies : List ℕ

unfoldable pub new_serving : (v : Values) → Serving v
new_serving v = record {
  in_flight = 0;
  live_streams = 0;
  requests = [];
  handlers = [];
  replies = [];
}

unfoldable pub has : ℕ → List ℕ → Bool
has id [] = false
has id (x ∷ xs) = x == id || has id xs

-- requestMap.Store and LoadAndDelete, on the keys.
unfoldable pub store_key : ℕ → List ℕ → List ℕ
unfolding has
store_key id ids = if has id ids then ids else id ∷ ids

unfoldable pub delete_key : ℕ → List ℕ → List ℕ
delete_key id [] = []
delete_key id (x ∷ xs) = let rest = delete_key id xs in if x == id then xs else x ∷ rest

unfoldable pub remove_at {ℓ} : {A : Type ℓ} → List A → ℕ → List A
remove_at [] i = []
remove_at (x ∷ xs) zero = xs
remove_at (x ∷ xs) (suc i) = x ∷ remove_at xs i

unfoldable pub function_type_of : ℕ → Option FunctionType
function_type_of m =
    if m == function_request
    then some single_function
    else if m == get_stream_request
    then some outgoing_stream
    else if m == put_stream_request
    then some incoming_stream
    else if m == chat_request
    then some chat
    else none

module _ (v : Values) (limits : Limits) (find : v.Text → Option (Function v)) where
  unfoldable pub reserve : Serving v → Message v → FunctionType → Serving v
  reserve s m ft =
      let n = s.in_flight + 1 in
      let max = limits.max_concurrent_requests in
      if ltb 0 max && ltb max n
      then record s { in_flight = n - 1; replies = s.replies ++ code_resource_exhausted ∷ [] }
      else record s {
        in_flight = n;
        handlers = s.handlers ++ record { ft = ft; request = m; phase = started } ∷ [];
      }

  unfoldable pub reserve_type : Serving v → Message v → Option FunctionType → Serving v
  reserve_type s m none = s
  reserve_type s m (some ft) = reserve s m ft

  unfoldable pub serve_new_request : Serving v → Message v → Serving v
  unfolding reserve_type
  serve_new_request s m = reserve_type s m (function_type_of m.message_type)

  -- A message that is for a running request, a pending call or a cancellation starts no handler.
  unfoldable pub process_request : Serving v → Message v → Serving v
  unfolding serve_new_request
  process_request s m =
      if m.message_type == function_response || m.message_type == error_response
      then s
      else if has m.id s.requests
      then s
      else if m.message_type == cancel_request
      then s
      else serve_new_request s m

  unfoldable pub refusal_of : Serving v → Message v → FunctionType → Option (Function v) → Option ℕ
  refusal_of s m ft none = some code_not_found
  refusal_of s m ft (some fn) =
      let max = limits.max_concurrent_streams in
      if not (verify v m.args fn.args)
      then some code_invalid_argument
      else if not (same_type fn.ft ft)
      then some code_invalid_argument
      else if not (same_type ft single_function) && (ltb 0 max && leb max s.live_streams)
      then some code_resource_exhausted
      else none

  unfoldable pub refusal_named : Serving v → Message v → FunctionType → Option v.Text → Option ℕ
  refusal_named s m ft none = some code_invalid_argument
  refusal_named s m ft (some name) = refusal_of s m ft (find name)

  -- The code with which the checks of doServeFunctionRequest refuse the request.
  unfoldable pub refusal : Serving v → Message v → FunctionType → Option ℕ
  unfolding refusal_named
  refusal s m ft = refusal_named s m ft m.name

  -- The end of serveFunctionRequest.
  unfoldable pub end_handler : ℕ → Serving v → Serving v
  end_handler i s = record s { in_flight = s.in_flight - 1; handlers = remove_at s.handlers i }

  unfoldable pub checked : ℕ → Serving v → Handler v → Option ℕ → Serving v
  unfolding end_handler
  checked i s h (some code) = end_handler i (record s { replies = s.replies ++ code ∷ [] })
  checked i s h none =
      let next = if same_type h.ft single_function then serving else admitted in
      record s { handlers = set s.handlers i (record h { phase = next }) }

  unfoldable pub new_serving_request : ℕ → Serving v → Serving v
  new_serving_request id s = record s {
    requests = store_key id s.requests;
    live_streams = s.live_streams + 1;
  }

  unfoldable pub delete_request : ℕ → Serving v → Serving v
  delete_request id s =
      if has id s.requests
      then record s { requests = delete_key id s.requests; live_streams = s.live_streams - 1 }
      else s

  -- The user's function is done; `failure` is the code of the error that it returned.
  unfoldable pub answered : ℕ → Option ℕ → Serving v → Handler v → Serving v
  unfolding delete_request end_handler
  answered i none s h = end_handler i s
  answered i (some code) s h =
      let closed = if same_type h.ft single_function then s else delete_request h.request.id s in
      end_handler i (record closed { replies = closed.replies ++ code ∷ [] })

  -- What the goroutine of the handler `h`, the i-th, does next.
  unfoldable pub proceed : ℕ → Option ℕ → Serving v → Handler v → Phase → Serving v
  unfolding refusal checked new_serving_request answered
  proceed i failure s h started = checked i s h (refusal s h.request h.ft)
  proceed i failure s h admitted =
      let opened = new_serving_request h.request.id s in
      record opened { handlers = set s.handlers i (record h { phase = serving }) }
  proceed i failure s h serving = answered i failure s h

  unfoldable pub proceed_at : ℕ → Option ℕ → Serving v → Option (Handler v) → Serving v
  unfolding proceed
  proceed_at i failure s none = s
  proceed_at i failure s (some h) = proceed i failure s h h.phase

  -- The read loop gets a message, the i-th handler goes on, or a stream is retired.
  pub data Event : Type 0 where
    receive : Message v → Event
    advance : ℕ → Option ℕ → Event
    retire : ℕ → Event

  unfoldable pub step : Event → Serving v → Serving v
  unfolding process_request proceed_at delete_request
  step (receive m) s = process_request s m
  step (advance i failure) s = proceed_at i failure s (get_elem? s.handlers i)
  step (retire id) s = delete_request id s

  unfoldable pub run : List Event → Serving v → Serving v
  unfolding step
  run [] s = s
  run (e ∷ es) s = run es (step e s)
