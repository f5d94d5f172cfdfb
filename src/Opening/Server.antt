-- ===== src/Opening/Server.antt =====
-- awaitReady, openStream, GetStream, PutStream and Chat of valueserver/serving_stream.go.
use value_rpc.Prelude.{ℕ, ◌+◌, Bool, true, false, List, [], ◌∷◌, ◌++◌, Option, none, some}
use value_rpc.Reverse.{
  ClientStream, StreamKind, get_stream_kind, put_stream_kind, chat_kind, new_client_stream,
  cancel_client_stream, run, Event, rest_of,
}
use value_rpc.Opening.{
  Action, sends_request, sends_cancel, streams_out, Opened, watch, initial_credit,
}
use value_rpc.Opening.Client.{error_or}

-- Which case of awaitReady's select is taken; a timeout finds the context's error or none.
pub data Wake (E : Type 0) : Type 0 where
  ready closed session_done : Wake E
  cancelled : E → Wake E
  timed_out : Option E → Wake E

pub record Waited (A E : Type 0) : Type 0 where
  pub stream : ClientStream A E
  pub sent : List Action
  pub error : Option E

-- The errors of a stream closed too early, of a closed session and of a missing acknowledgement.
pub record Failures (E : Type 0) : Type 0 where
  pub closed_before_ready : E
  pub client_closed : E
  pub did_not_ack : E

module _ {A E : Type 0} (f : Failures E) where
  unfoldable pub cancelled_with : E → ClientStream A E → Waited A E
  unfolding cancel_client_stream
  cancelled_with e t = record {
    stream = cancel_client_stream t;
    sent = sends_cancel ∷ [];
    error = some e;
  }

  unfoldable pub await_ready : Wake E → ClientStream A E → Waited A E
  unfolding cancelled_with error_or
  await_ready ready t = record {
    stream = record t { results = rest_of t.results };
    sent = [];
    error = none;
  }
  await_ready closed t = record {
    stream = t;
    sent = [];
    error = some (error_or t.result_err f.closed_before_ready);
  }
  await_ready (cancelled e) t = cancelled_with e t
  await_ready session_done t = cancelled_with f.client_closed t
  await_ready (timed_out (some e)) t = cancelled_with e t
  await_ready (timed_out none) t = cancelled_with f.did_not_ack t

  unfoldable pub concluded :
      (ClientStream A E → List Action)
      → ClientStream A E
      → List Action
      → Option E
      → Opened (ClientStream A E) E
  concluded after t sent (some e) = record {
    stream = some t;
    actions = sends_request ∷ sent;
    failure = some e;
  }
  concluded after t sent none = record {
    stream = some t;
    actions = sends_request ∷ sent ++ after t;
    failure = none;
  }

  unfoldable pub conclude :
      (ClientStream A E → List Action) → Waited A E → Opened (ClientStream A E) E
  unfolding concluded
  conclude after r = concluded after r.stream r.sent r.error

  unfoldable pub after_get : Bool → ClientStream A E → List Action
  after_get cancellable t = initial_credit t.result_pump ++ watch cancellable

  unfoldable pub after_put : Bool → ClientStream A E → List Action
  after_put cancellable t = watch cancellable ++ streams_out ∷ []

  unfoldable pub after_chat : Bool → ClientStream A E → List Action
  after_chat cancellable t = initial_credit t.result_pump ++ watch cancellable ++ streams_out ∷ []

  module _ (nil_value : A) (grow : ℕ → ℕ → ℕ) (max_pending : ℕ) where
    -- `sendable`: the request is queued, as it is unless the session is closed.
    unfoldable pub open_stream :
        (ClientStream A E → List Action)
        → StreamKind
        → ℕ
        → Bool
        → List (Event A E)
        → Wake E
        → Opened (ClientStream A E) E
    unfolding conclude await_ready cancel_client_stream
    open_stream after kind receive_cap false es w = record {
      stream = some (cancel_client_stream (new_client_stream kind receive_cap max_pending));
      actions = [];
      failure = some f.client_closed;
    }
    open_stream after kind receive_cap true es w =
        conclude after
          (await_ready w (run nil_value grow es (new_client_stream kind receive_cap max_pending)))

    module _ (cancellable : Bool) where
      unfoldable pub get_stream : ℕ → Bool → List (Event A E) → Wake E → Opened (ClientStream A E) E
      unfolding open_stream
      get_stream receive_cap sendable es w =
          open_stream (after_get cancellable) get_stream_kind receive_cap sendable es w

      unfoldable pub put_stream : Bool → List (Event A E) → Wake E → Opened (ClientStream A E) E
      unfolding open_stream
      put_stream sendable es w = open_stream (after_put cancellable) put_stream_kind 1 sendable es w

      unfoldable pub chat : ℕ → Bool → List (Event A E) → Wake E → Opened (ClientStream A E) E
      unfolding open_stream
      chat receive_cap sendable es w =
          open_stream (after_chat cancellable) chat_kind (receive_cap + 1) sendable es w
