-- ===== src/Exchange/Once.antt =====
-- Every run of a request's events: it ends once, and leaves the map only when it is over.
use value_rpc.Prelude.{
  ℕ, ◌≡◌, refl, sym, subst, inl, inr, true, false, ltb, List, [], ◌∷◌, Option, none, some, length,
  Option-cases, get_elem?, either, arith,
}
use mathlib.Core.Option
use value_rpc.Flow.CreditGate.{grant}
use value_rpc.Flow.StreamPump.{
  StreamPump, push, take, take_from, finish as finish_pump, dequeue, deliver, deliver_from, idle,
  sending, finished, panicked, Runner,
}
use value_rpc.Exchange.{
  RequestCtx, StreamKind, chat_kind, queued, dropped, waits, Notified, close_result, is_chat,
  is_put_stream, try_get_close, try_put_close, deleted_if, notify_by, notify_result, then_finish,
  then_get_close, then_truncate, process_response, fail_request, end_stream_out, give_up, step, run,
  Event, responds, ends_out, fails, gives_up, reads, pump_takes, pump_delivers, Response,
  function_response, error_response, stream_ready, stream_value, stream_end, cancel_request,
  stream_credit, unsupported, new_request_ctx,
}
use value_rpc.Exchange.Life.{
  HasEnd, Life, IsShut-grant, close-Life, finish-Life, try_get_close-Life, end_stream_out-Life,
}

module _ {A : Type 0} (nil_value : A) (grow : ℕ → ℕ → ℕ) where
  push-HasEnd : (v : A) (p : StreamPump A) → p.input_end ≡ true → (push grow v p).0.input_end ≡ true
  unfolding push
  push-HasEnd v p h = simp h refl

  take_from-HasEnd :
      (r : Runner A) (p : StreamPump A)
      → p.input_end ≡ true
      → (take_from nil_value r p).input_end ≡ true
  unfolding take_from
  take_from-HasEnd idle p h = elim (Option-cases (get_elem? p.queue p.head)) [
    | inl e ↦ rw e (unfold dequeue finish_pump in ground arith)
    | inr (v, e) ↦ rw e (unfold dequeue finish_pump in ground arith)
  ]
  take_from-HasEnd finished p h = h
  take_from-HasEnd panicked p h = h
  take_from-HasEnd (sending v) p h = h

  take-HasEnd : (o : Option (StreamPump A)) → HasEnd o → HasEnd (Option.map (take nil_value) o)
  unfolding take
  take-HasEnd none h = h
  take-HasEnd (some p) h = take_from-HasEnd p.runner p h

  deliver_from-HasEnd :
      (r : Runner A) (p : StreamPump A) → p.input_end ≡ true → (deliver_from r p).input_end ≡ true
  unfolding deliver_from
  deliver_from-HasEnd idle p h = h
  deliver_from-HasEnd finished p h = h
  deliver_from-HasEnd panicked p h = h
  deliver_from-HasEnd (sending v) p h = h

  deliver-HasEnd : (o : Option (StreamPump A)) → HasEnd o → HasEnd (Option.map deliver o)
  unfolding deliver
  deliver-HasEnd none h = h
  deliver-HasEnd (some p) h = deliver_from-HasEnd p.runner p h

module _ {A E : Type 0} (nil_value : A) (truncated : E) (grow : ℕ → ℕ → ℕ) where
  with_pump-Life :
      (t : RequestCtx A E) (o : Option (StreamPump A))
      → (HasEnd t.result_pump → HasEnd o)
      → Life t
      → Life (record t { result_pump = o })
  with_pump-Life t o f (inl h, r) = (inl h, r)
  with_pump-Life t o f (inr (d, e, c, h, g), r) = (inr (d, e, c, f h, g), r)

  notify_by-Life :
      (o : Option (StreamPump A)) (v : A) (t : RequestCtx A E)
      → o ≡ t.result_pump
      → Life t
      → Life (notify_by nil_value truncated grow o v t).0
  unfolding notify_by
  notify_by-Life none v t e h =
      either (λ (r : RequestCtx A E × Notified). Life r.0) t.done h
        (either (λ (r : RequestCtx A E × Notified). Life r.0) (ltb (length t.results) t.capacity) h
          h)
  notify_by-Life (some q) v t e h =
      with_pump-Life t (some (push grow v q).0)
        (λ end. push-HasEnd nil_value grow v q (subst HasEnd (sym e) end)) h

  notify_result-Life :
      (v : A) (t : RequestCtx A E) → Life t → Life (notify_result nil_value truncated grow v t).0
  unfolding notify_result
  notify_result-Life v t h = notify_by-Life t.result_pump v t refl h

  then_finish-Life : (r : RequestCtx A E × Notified) → Life r.0 → Life (then_finish r)
  unfolding then_finish
  then_finish-Life (t, queued) h = finish-Life t h.0
  then_finish-Life (t, dropped) h = finish-Life t h.0
  then_finish-Life (t, waits) h = h

  then_get_close-Life : (r : RequestCtx A E × Notified) → Life r.0 → Life (then_get_close r)
  unfolding then_get_close
  then_get_close-Life (t, queued) h = try_get_close-Life t h
  then_get_close-Life (t, dropped) h = try_get_close-Life t h
  then_get_close-Life (t, waits) h = h

  then_truncate-Life :
      (r : RequestCtx A E × Notified) → Life r.0 → Life (then_truncate nil_value truncated grow r)
  unfolding then_truncate
  then_truncate-Life (t, queued) h = h
  then_truncate-Life (t, dropped) h = either Life t.cancelled h h
  then_truncate-Life (t, waits) h = h

  with_gate-Life :
      (n : ℕ) (t : RequestCtx A E)
      → Life t
      → Life (record t { send_credit = Option.map (λ g. grant g n) t.send_credit })
  with_gate-Life n t (inl h, r) = (inl h, r)
  with_gate-Life n t (inr (d, e, c, h, g), r) =
      (inr (d, e, c, h, IsShut-grant n t.send_credit g), r)

  process_response-Life :
      (m : Response A E) (t : RequestCtx A E)
      → Life t
      → Life (process_response nil_value truncated grow m t)
  unfolding process_response
  process_response-Life (function_response v) t h = then_finish-Life _ (notify_result-Life v t h)
  process_response-Life (error_response e) t h = finish-Life (record t { result_err = some e }) h.0
  process_response-Life stream_ready t h = notify_result-Life nil_value t h
  process_response-Life (stream_value none) t h = h
  process_response-Life (stream_value (some v)) t h =
      then_truncate-Life _ (notify_result-Life v t h)
  process_response-Life (stream_end none) t h = try_get_close-Life t h
  process_response-Life (stream_end (some v)) t h = then_get_close-Life _ (notify_result-Life v t h)
  process_response-Life cancel_request t h = finish-Life t h.0
  process_response-Life (stream_credit none) t h = h
  process_response-Life (stream_credit (some n)) t h = with_gate-Life n t h
  process_response-Life unsupported t h = h

  give_up-Life : (e : Option E) (t : RequestCtx A E) → Life t → Life (give_up e t)
  unfolding give_up
  give_up-Life none t h = close-Life t h
  give_up-Life (some e) t h = close-Life (record t { result_err = some e }) h

  step-Life :
      (e : Event A E) (t : RequestCtx A E) → Life t → Life (step nil_value truncated grow e t)
  unfolding step fail_request
  step-Life (responds m) t h = either Life t.registered (process_response-Life m t h) h
  step-Life ends_out t h = end_stream_out-Life t h
  step-Life (fails x) t h =
      either Life t.registered (finish-Life (record t { result_err = some x }) h.0) h
  step-Life (gives_up e) t h = give_up-Life e t h
  step-Life reads t h = h
  step-Life pump_takes t h = with_pump-Life t _ (take-HasEnd nil_value grow t.result_pump) h
  step-Life pump_delivers t h = with_pump-Life t _ (deliver-HasEnd nil_value grow t.result_pump) h

  run-Life_of :
      (es : List (Event A E)) (t : RequestCtx A E)
      → Life t
      → Life (run nil_value truncated grow es t)
  unfolding run
  run-Life_of [] t h = h
  run-Life_of (e ∷ es) t h = run-Life_of es (step nil_value truncated grow e t) (step-Life e t h)

  -- Whatever happens to a request, and in any order, its end is reported at most once and its result
  -- channel is closed at most once. With the end the receiving pump gets its end of input and the sender's
  -- gate is closed. A request that has left the map is over, and a chat then in both directions.
  pub run-Life :
      (kind : StreamKind) (receive_cap max_pending : ℕ) (es : List (Event A E))
      → Life (run nil_value truncated grow es (new_request_ctx kind receive_cap max_pending))
  unfolding new_request_ctx
  run-Life kind receive_cap max_pending es =
      run-Life_of es _ (inl (refl, refl, refl, refl), inl refl)

  -- A chat closes in two halves. When its sender is done first, it goes on receiving and the server's end
  -- of stream then retires it; when the server's end of stream comes first, it stays until its sender is
  -- done.
  pub chat_closes_by_halves :
      (t : RequestCtx A E)
      → t.kind ≡ chat_kind
      → t.registered ≡ true
      → t.done ≡ false
      → t.get_closed ≡ false
      → t.put_closed ≡ false
      → let sent = end_stream_out t in
        let received = process_response nil_value truncated grow (stream_end none) t in
        (sent ≡ record t { put_closed = true })
        × ((process_response nil_value truncated grow (stream_end none) sent).registered ≡ false)
        × (received.registered ≡ true)
        × (received.done ≡ true)
        × ((end_stream_out received).registered ≡ false)
  unfolding process_response end_stream_out try_put_close try_get_close close_result deleted_if
      is_chat is_put_stream
  chat_closes_by_halves t k r d g p = ground arith
