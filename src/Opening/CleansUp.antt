-- ===== src/Opening/CleansUp.antt =====
-- What a failed opening of the client leaves behind.
use value_rpc.Prelude.{
  ℕ, ◌+◌, ◌≡◌, refl, inl, inr, Bool-cases, Bool, true, false, List, Option, none, some, arith,
}
use value_rpc.Exchange.{
  RequestCtx, StreamKind, unary_kind, get_stream_kind, put_stream_kind, chat_kind, new_request_ctx,
  give_up, close, close_result, run, Event,
}
use value_rpc.Exchange.Life.{IsShut, Life, Progress, close-Life}
use value_rpc.Exchange.Once.{run-Life}
use value_rpc.Opening.{Action, Opened, IsStopped, IsStopped-stop, IsStopped-close, lingers}
use value_rpc.Opening.Client.{
  Wake, answered, closed, cancelled, timed_out, single_resp, concluded, conclude, open_with,
  after_unary, after_get, after_put, after_chat, invoke_unary, get_stream, put_stream, chat,
}

module _ {A E : Type 0} where
  -- The request, if it was made, is over in both directions and has ended once, with the error; its pump
  -- is stopped, and its gate is shut.
  abbrev pub Over : E → Option (RequestCtx A E) → Type 0
  Over e none = Unit {0}
  Over e (some t) =
      (t.done ≡ true)
      × (t.ends ≡ 1)
      × (t.get_closed ≡ true)
      × (t.put_closed ≡ true)
      × (t.result_err ≡ some e)
      × IsStopped t.result_pump
      × IsShut t.send_credit

  abbrev pub CleansUp : Opened (RequestCtx A E) E → Type 0
  CleansUp o = (e : E) → o.failure ≡ some e → (lingers o.actions ≡ false) × Over e o.stream

  close_shuts :
      (t : RequestCtx A E)
      → ((close t).done ≡ true)
        × ((close t).get_closed ≡ true)
        × ((close t).put_closed ≡ true)
        × ((close t).result_err ≡ t.result_err)
  unfolding close close_result
  close_shuts t = ground arith

  close_stops : (t : RequestCtx A E) → IsStopped (close t).result_pump
  unfolding close close_result
  close_stops t = elim (Bool-cases t.done) [
    | inl y ↦ simp y (IsStopped-stop t.result_pump)
    | inr f ↦ simp f (IsStopped-close _ (IsStopped-stop t.result_pump))
  ]

  over_IsShut : (t : RequestCtx A E) → Progress t → t.done ≡ true → IsShut t.send_credit
  over_IsShut t (inl (d, n, c, g)) h = absurd cc
  over_IsShut t (inr (d, n, c, e, shut)) h = shut

  ended_once : (t : RequestCtx A E) → Progress t → t.done ≡ true → t.ends ≡ 1
  ended_once t p h = ground arith

  give_up-Over : (e : E) (t : RequestCtx A E) → Life t → Over e (some (give_up (some e) t))
  unfolding give_up
  give_up-Over e t l =
      let s : RequestCtx A E = record t { result_err = some e } in
      let (over, got, put, err) = close_shuts s in
      let p = (close-Life s l).0 in
      (
        over,
        ended_once (close s) p over,
        got,
        put,
        err,
        close_stops s,
        over_IsShut (close s) p over,
      )

  concluded-CleansUp :
      (after : RequestCtx A E → List Action) (t : RequestCtx A E) (sent : List Action)
      (x : Option E)
      → lingers sent ≡ false
      → Life t
      → CleansUp (concluded after t sent x)
  unfolding concluded lingers
  concluded-CleansUp after t sent none quiet l e h = absurd cc
  concluded-CleansUp after t sent (some x) quiet l e h =
      let same : x ≡ e = cc in rw (← same) (quiet, give_up-Over x t l)

  answer-Life :
      (no_response timeout : E) (w : Wake E) (t : RequestCtx A E)
      → Life t
      → Life (single_resp no_response timeout w t).ctx
        × (lingers (single_resp no_response timeout w t).sent ≡ false)
  unfolding single_resp lingers
  answer-Life x y answered t l = (l, refl)
  answer-Life x y closed t l = (l, refl)
  answer-Life x y (cancelled e) t l = (l, refl)
  answer-Life x y (timed_out none) t l = (l, refl)
  answer-Life x y (timed_out (some e)) t l = (l, refl)

  module _ (no_response timeout : E) (nil_value : A) (truncated : E) (grow : ℕ → ℕ → ℕ)
      (max_pending : ℕ) where
    open_with-CleansUp :
        (after : RequestCtx A E → List Action) (kind : StreamKind) (receive_cap : ℕ)
        (unconnected : Option E) (es : List (Event A E)) (w : Wake E)
        → CleansUp (
            open_with no_response timeout nil_value truncated grow max_pending after kind
              receive_cap unconnected es w)
    unfolding open_with conclude lingers
    open_with-CleansUp after kind receive_cap (some x) es w = λ e h. (refl, tt)
    open_with-CleansUp after kind receive_cap none es w =
        let t = run nil_value truncated grow es (new_request_ctx kind receive_cap max_pending) in
        let a = single_resp no_response timeout w t in
        let (l, quiet) =
          answer-Life no_response timeout w t
            (run-Life nil_value truncated grow kind receive_cap max_pending es) in
        concluded-CleansUp after a.ctx a.sent a.error quiet l

    -- When a unary call, a get-stream, a put-stream or a chat of the client fails, whatever responses and steps
    -- of the pump came before and whichever of the answer, the end, the timeout and the context it was that
    -- the caller saw, then the caller itself has sent nothing but the request and its cancellation, has
    -- granted no window and started neither a watcher nor a streamOut; and the request, if there was a
    -- connection to make it on, is closed in both directions and has ended exactly once, with the error
    -- that the caller gets, its pump told to stop and its credit gate shut.
    pub failed_opening-CleansUp :
        (cancellable : Bool) (receive_cap : ℕ) (unconnected : Option E) (es : List (Event A E))
        (w : Wake E)
        → CleansUp
            (invoke_unary no_response timeout nil_value truncated grow max_pending unconnected es w)
          × CleansUp (
              get_stream no_response timeout nil_value truncated grow max_pending cancellable
                receive_cap unconnected es w)
          × CleansUp (
              put_stream no_response timeout nil_value truncated grow max_pending cancellable
                unconnected es w)
          × CleansUp (
              chat no_response timeout nil_value truncated grow max_pending cancellable receive_cap
                unconnected es w)
    unfolding invoke_unary get_stream put_stream chat
    failed_opening-CleansUp cancellable receive_cap unconnected es w = (
      open_with-CleansUp after_unary unary_kind 1 unconnected es w,
      open_with-CleansUp (after_get cancellable) get_stream_kind receive_cap unconnected es w,
      open_with-CleansUp (after_put cancellable) put_stream_kind 1 unconnected es w,
      open_with-CleansUp (after_chat cancellable) chat_kind (receive_cap + 1) unconnected es w,
    )
