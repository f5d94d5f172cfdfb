-- ===== src/Opening/TearsDown.antt =====
-- What a failed opening of the server leaves behind.
use value_rpc.Prelude.{ℕ, ◌+◌, ◌≡◌, ◌≢◌, refl, Bool, true, false, List, Option, none, some, arith}
use value_rpc.Reverse.{
  ClientStream, StreamKind, get_stream_kind, put_stream_kind, chat_kind, new_client_stream,
  cancel_client_stream, close, close_result, delete_pending_stream, run, Event,
}
use mathlib.Core.Option
use value_rpc.Flow.StreamPump.{stop}
use value_rpc.Opening.{Action, Opened, IsStopped, IsStopped-stop, IsStopped-close, lingers}
use value_rpc.Opening.Server.{
  Wake, ready, closed, session_done, cancelled, timed_out, Failures, cancelled_with, await_ready,
  concluded, conclude, open_stream, after_get, after_put, after_chat, get_stream, put_stream, chat,
}

module _ {A E : Type 0} where
  -- The stream is closed in both directions, frames for it are no longer routed to it, and its pump is
  -- stopped.
  abbrev pub TornDown : ClientStream A E → Type 0
  TornDown t =
      (t.done ≡ true)
      × (t.get_closed ≡ true)
      × (t.put_closed ≡ true)
      × (t.registered ≡ false)
      × IsStopped t.result_pump

  abbrev pub StreamTornDown : Option (ClientStream A E) → Type 0
  StreamTornDown none = ⊥
  StreamTornDown (some t) = TornDown t

  abbrev pub TearsDown : Opened (ClientStream A E) E → Type 0
  TearsDown o = (e : E) → o.failure ≡ some e → (lingers o.actions ≡ false) × StreamTornDown o.stream

  cancel-TornDown : (t : ClientStream A E) → TornDown (cancel_client_stream t)
  unfolding cancel_client_stream close close_result delete_pending_stream
  cancel-TornDown t =
      ground (arith, IsStopped-stop t.result_pump, IsStopped-close (Option.map stop t.result_pump))

  module _ (f : Failures E) where
    cancelled-TearsDown :
        (after : ClientStream A E → List Action) (e : E) (t : ClientStream A E)
        → TearsDown (conclude f after (cancelled_with f e t))
    unfolding conclude concluded cancelled_with lingers
    cancelled-TearsDown after e t x h = (refl, cancel-TornDown t)

    await_ready-TearsDown :
        (after : ClientStream A E → List Action) (w : Wake E) (t : ClientStream A E)
        → w ≢ closed
        → TearsDown (conclude f after (await_ready f w t))
    unfolding await_ready conclude concluded
    await_ready-TearsDown after ready t ne = λ e h. absurd cc
    await_ready-TearsDown after closed t ne = absurd (ne refl)
    await_ready-TearsDown after session_done t ne = cancelled-TearsDown after f.client_closed t
    await_ready-TearsDown after (cancelled e) t ne = cancelled-TearsDown after e t
    await_ready-TearsDown after (timed_out none) t ne = cancelled-TearsDown after f.did_not_ack t
    await_ready-TearsDown after (timed_out (some e)) t ne = cancelled-TearsDown after e t

    module _ (nil_value : A) (grow : ℕ → ℕ → ℕ) (max_pending : ℕ) where
      open_stream-TearsDown :
          (after : ClientStream A E → List Action) (kind : StreamKind) (receive_cap : ℕ)
          (sendable : Bool) (es : List (Event A E)) (w : Wake E)
          → w ≢ closed
          → TearsDown
              (open_stream f nil_value grow max_pending after kind receive_cap sendable es w)
      unfolding open_stream lingers
      open_stream-TearsDown after kind receive_cap false es w ne =
          λ e h. (refl, cancel-TornDown (new_client_stream kind receive_cap max_pending))
      open_stream-TearsDown after kind receive_cap true es w ne =
          await_ready-TearsDown after w
            (run nil_value grow es (new_client_stream kind receive_cap max_pending)) ne

      -- When a get-stream, a put-stream or a chat that the server opens fails, other than by its channel
      -- being closed, whatever frames and steps of the pump came before, then the opener itself has sent
      -- nothing but the request and its cancellation, has granted no window and started neither a watcher
      -- nor a streamOut; and the stream is closed in both directions and no longer registered, and its
      -- pump is told to stop.
      pub failed_opening-TearsDown :
          (cancellable : Bool) (receive_cap : ℕ) (sendable : Bool) (es : List (Event A E))
          (w : Wake E)
          → w ≢ closed
          → TearsDown
              (get_stream f nil_value grow max_pending cancellable receive_cap sendable es w)
            × TearsDown (put_stream f nil_value grow max_pending cancellable sendable es w)
            × TearsDown (chat f nil_value grow max_pending cancellable receive_cap sendable es w)
      unfolding get_stream put_stream chat
      failed_opening-TearsDown cancellable receive_cap sendable es w ne = (
        open_stream-TearsDown (after_get f cancellable) get_stream_kind receive_cap sendable es w
            ne,
        open_stream-TearsDown (after_put f cancellable) put_stream_kind 1 sendable es w ne,
        open_stream-TearsDown (after_chat f cancellable) chat_kind (receive_cap + 1) sendable es w
            ne,
      )
