-- ===== src/Reverse/Shows.antt =====
-- What a request and a stream show of themselves, and the ends of both.
use value_rpc.Prelude.{
  ℕ, suc, ◌≡◌, refl, ap, inl, inr, Bool, true, false, if◌then◌else◌, Option, none, some, Bool-cases,
}
use value_rpc.Flow.StreamPump.{StreamPump}
use value_rpc.Exchange.{RequestCtx, new_request_ctx}
use value_rpc.Exchange
use value_rpc.Reverse.{
  StreamKind, get_stream_kind, put_stream_kind, chat_kind, ClientStream, close_output, close_result,
  close, get_finished, try_get_close, put_finished, try_put_close, delete_pending_stream,
  deleted_if, end_stream_out,
}

abbrev pub client_kind : StreamKind → Exchange.StreamKind
client_kind get_stream_kind = Exchange.get_stream_kind
client_kind put_stream_kind = Exchange.put_stream_kind
client_kind chat_kind = Exchange.chat_kind

close_output_lem :
    {A : Type 0} (o : Option (StreamPump A)) (n : ℕ) → Exchange.close_output o n ≡ close_output o n
unfolding close_output Exchange.close_output
close_output_lem none n = refl
close_output_lem (some p) n = refl

get_finished_lem :
    (k : StreamKind) (p : Bool)
    → (if Exchange.is_chat (client_kind k) then p else true) ≡ get_finished k p
unfolding get_finished Exchange.is_chat
get_finished_lem get_stream_kind p = refl
get_finished_lem put_stream_kind p = refl
get_finished_lem chat_kind p = refl

module _ {A E : Type 0} where
  -- The request that shows the same as a stream. The stream has no counterpart of the ends that are
  -- reported and of the mark that a cancellation was asked for, and its error may be another. The request
  -- has none of the error messages of a stream that was overrun.
  abbrev pub as_request : ℕ → Bool → Option E → ClientStream A E → RequestCtx A E
  as_request ends cancelled err t = record {
    kind = client_kind t.kind;
    capacity = t.capacity;
    results = t.results;
    result_pump = t.result_pump;
    send_credit = t.send_credit;
    done = t.done;
    closes = t.closes;
    ends = ends;
    cancelled = cancelled;
    get_closed = t.get_closed;
    put_closed = t.put_closed;
    result_err = err;
    registered = t.registered;
    meter = t.meter;
    credits = t.credits;
  }

  -- The request shows the same as the stream.
  abbrev pub Shows : RequestCtx A E → ClientStream A E → Type 0
  Shows c t =
      (ends : ℕ) × (cancelled : Bool) × (err : Option E) × (c ≡ as_request ends cancelled err t)

  abbrev unregistered : RequestCtx A E → RequestCtx A E
  unregistered c = record c { registered = false }

  deleted-Shows :
      (c : RequestCtx A E) (t : ClientStream A E) (finished : Bool)
      → Shows c t
      → Shows (Exchange.deleted_if (c, finished)) (deleted_if (t, finished))
  unfolding deleted_if delete_pending_stream Exchange.deleted_if
  deleted-Shows c t true (n, b, r, e) = (n, b, r, ap unregistered e)
  deleted-Shows c t false s = s

  module _ (n : ℕ) (b : Bool) (r : Option E) where
    close_result-Shows :
        (t : ClientStream A E) → Shows (Exchange.close_result (as_request n b r t)) (close_result t)
    unfolding close_result Exchange.close_result
    close_result-Shows t = elim (Bool-cases t.done) [
      | inl y ↦ simp y (n, b, r, refl)
      | inr f ↦ simp (f, close_output_lem) (suc n, b, r, refl)
    ]

    pub close-Shows : (t : ClientStream A E) → Shows (Exchange.close (as_request n b r t)) (close t)
    unfolding close Exchange.close
    close-Shows t = close_result-Shows _

    delete-Shows :
        (t : ClientStream A E)
        → Shows (record (as_request n b r t) { registered = false }) (delete_pending_stream t)
    unfolding delete_pending_stream
    delete-Shows t = (n, b, r, refl)

    pub finish-Shows :
        (t : ClientStream A E)
        → Shows (Exchange.finish (as_request n b r t)) (close (delete_pending_stream t))
    unfolding Exchange.finish Exchange.close Exchange.close_result close close_result
        delete_pending_stream
    finish-Shows t = elim (Bool-cases t.done) [
      | inl y ↦ simp y (n, b, r, refl)
      | inr f ↦ simp (f, close_output_lem) (suc n, b, r, refl)
    ]

    pub get_close-Shows :
        (t : ClientStream A E)
        → Shows
            (Exchange.deleted_if (Exchange.try_get_close (as_request n b r t)))
            (deleted_if (try_get_close t))
    unfolding try_get_close Exchange.try_get_close
    get_close-Shows t =
        rw (get_finished_lem t.kind t.put_closed)
          (deleted-Shows _ _ _ (close_result-Shows (record t { get_closed = true })))

    put_close_of :
        (k : StreamKind) (t : ClientStream A E)
        → Shows
            (Exchange.deleted_if (
              if Exchange.is_put_stream (client_kind k)
              then (Exchange.close_result (as_request n b r t), true)
              else (as_request n b r t, t.get_closed)))
            (deleted_if (put_finished k t))
    unfolding put_finished Exchange.is_put_stream
    put_close_of get_stream_kind t = deleted-Shows _ t t.get_closed (n, b, r, refl)
    put_close_of put_stream_kind t = deleted-Shows _ _ true (close_result-Shows t)
    put_close_of chat_kind t = deleted-Shows _ t t.get_closed (n, b, r, refl)

    pub put_close-Shows :
        (t : ClientStream A E)
        → Shows (Exchange.end_stream_out (as_request n b r t)) (end_stream_out t)
    unfolding end_stream_out try_put_close Exchange.end_stream_out Exchange.try_put_close
    put_close-Shows t = put_close_of t.kind (record t { put_closed = true })
