-- ===== src/Opening/Client.antt =====
-- SingleResp of valueclient/request.go, with sendRequest, invokeUnary, GetStream, PutStream and Chat of
-- valueclient/client.go.
use value_rpc.Prelude.{ℕ, ◌+◌, Bool, List, [], ◌∷◌, ◌++◌, Option, none, some}
use value_rpc.Exchange.{
  RequestCtx, StreamKind, unary_kind, get_stream_kind, put_stream_kind, chat_kind, new_request_ctx,
  give_up, run, Event, rest_of,
}
use value_rpc.Opening.{
  Action, sends_request, sends_cancel, streams_out, Opened, watch, initial_credit,
}

-- Which case of SingleResp's select is taken; a timeout finds the context's error or none.
pub data Wake (E : Type 0) : Type 0 where
  answered closed : Wake E
  cancelled : E → Wake E
  timed_out : Option E → Wake E

-- The request, what was sent, and the error.
pub record Answer (A E : Type 0) : Type 0 where
  pub ctx : RequestCtx A E
  pub sent : List Action
  pub error : Option E

-- t.Error(e)
unfoldable pub error_or : {E : Type 0} → Option E → E → E
error_or none e = e
error_or (some x) e = x

module _ {A E : Type 0} where
  unfoldable pub single_resp : E → E → Wake E → RequestCtx A E → Answer A E
  unfolding error_or
  single_resp no_response timeout answered t = record {
    ctx = record t { results = rest_of t.results };
    sent = [];
    error = none;
  }
  single_resp no_response timeout closed t = record {
    ctx = t;
    sent = [];
    error = some (error_or t.result_err no_response);
  }
  single_resp no_response timeout (cancelled e) t = record {
    ctx = t;
    sent = sends_cancel ∷ [];
    error = some e;
  }
  single_resp no_response timeout (timed_out (some e)) t = record {
    ctx = t;
    sent = sends_cancel ∷ [];
    error = some e;
  }
  single_resp no_response timeout (timed_out none) t = record {
    ctx = t;
    sent = sends_cancel ∷ [];
    error = some (error_or t.result_err timeout);
  }

  -- What an opener does with the error, or without one.
  unfoldable pub concluded :
      (RequestCtx A E → List Action)
      → RequestCtx A E
      → List Action
      → Option E
      → Opened (RequestCtx A E) E
  unfolding give_up
  concluded after t sent (some e) = record {
    stream = some (give_up (some e) t);
    actions = sends_request ∷ sent;
    failure = some e;
  }
  concluded after t sent none = record {
    stream = some t;
    actions = sends_request ∷ sent ++ after t;
    failure = none;
  }

  unfoldable pub conclude : (RequestCtx A E → List Action) → Answer A E → Opened (RequestCtx A E) E
  unfolding concluded
  conclude after r = concluded after r.ctx r.sent r.error

  -- What each of the four does with a request that was answered.
  unfoldable pub after_unary : RequestCtx A E → List Action
  after_unary t = []

  unfoldable pub after_get : Bool → RequestCtx A E → List Action
  after_get cancellable t = initial_credit t.result_pump ++ watch cancellable

  unfoldable pub after_put : Bool → RequestCtx A E → List Action
  after_put cancellable t = watch cancellable ++ streams_out ∷ []

  unfoldable pub after_chat : Bool → RequestCtx A E → List Action
  after_chat cancellable t = initial_credit t.result_pump ++ watch cancellable ++ streams_out ∷ []

  module _ (no_response timeout : E) (nil_value : A) (truncated : E) (grow : ℕ → ℕ → ℕ)
      (max_pending : ℕ) where
    -- sendRequest, which fails without a connection, the events until the wake, and SingleResp.
    unfoldable pub open_with :
        (RequestCtx A E → List Action)
        → StreamKind
        → ℕ
        → Option E
        → List (Event A E)
        → Wake E
        → Opened (RequestCtx A E) E
    unfolding conclude single_resp
    open_with after kind receive_cap (some e) es w = record {
      stream = none;
      actions = [];
      failure = some e;
    }
    open_with after kind receive_cap none es w = conclude after (
        single_resp no_response timeout w
          (run nil_value truncated grow es (new_request_ctx kind receive_cap max_pending)))

    unfoldable pub invoke_unary : Option E → List (Event A E) → Wake E → Opened (RequestCtx A E) E
    unfolding open_with
    invoke_unary unconnected es w = open_with after_unary unary_kind 1 unconnected es w

    module _ (cancellable : Bool) where
      unfoldable pub get_stream :
          ℕ → Option E → List (Event A E) → Wake E → Opened (RequestCtx A E) E
      unfolding open_with
      get_stream receive_cap unconnected es w =
          open_with (after_get cancellable) get_stream_kind receive_cap unconnected es w

      unfoldable pub put_stream : Option E → List (Event A E) → Wake E → Opened (RequestCtx A E) E
      unfolding open_with
      put_stream unconnected es w =
          open_with (after_put cancellable) put_stream_kind 1 unconnected es w

      unfoldable pub chat : ℕ → Option E → List (Event A E) → Wake E → Opened (RequestCtx A E) E
      unfolding open_with
      chat receive_cap unconnected es w =
          open_with (after_chat cancellable) chat_kind (receive_cap + 1) unconnected es w
