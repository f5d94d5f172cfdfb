-- ===== src/Exchange/Life.antt =====
-- What stays true of a request from its start on, whatever happens to it.
use value_rpc.Prelude.{
  ℕ, suc, ◌≤◌, ◌≡◌, refl, ap, ◌∙◌, ◌⊎◌, inl, inr, Bool, true, false, if◌then◌else◌, Option, none,
  some, Bool-cases, arith,
}
use mathlib.Core.Option
use value_rpc.Flow.CreditGate.{CreditGate, grant}
use value_rpc.Flow.CreditGate
use value_rpc.Flow.StreamPump.{
  StreamPump, push, stop, take, take_from, finish as finish_pump, dequeue, deliver, deliver_from,
}
use value_rpc.Flow.StreamPump
use value_rpc.Exchange.{
  RequestCtx, StreamKind, unary_kind, get_stream_kind, put_stream_kind, chat_kind, close_output,
  close_result, close, is_chat, is_put_stream, try_get_close, try_put_close, deleted_if, finish,
  end_stream_out,
}

abbrev pub HasEnd {ℓ} : {A : Type ℓ} → Option (StreamPump A) → Type 0
HasEnd none = Unit {0}
HasEnd (some p) = p.input_end ≡ true

abbrev pub IsShut : Option CreditGate → Type 0
IsShut none = Unit {0}
IsShut (some g) = g.closed ≡ true

HasEnd-close : {A : Type 0} (o : Option (StreamPump A)) → HasEnd (Option.map StreamPump.close o)
unfolding StreamPump.close
HasEnd-close none = tt
HasEnd-close (some p) = refl

pub IsShut-close : (o : Option CreditGate) → IsShut (Option.map CreditGate.close o)
unfolding CreditGate.close
IsShut-close none = tt
IsShut-close (some g) = refl

pub IsShut-grant :
    (n : ℕ) (o : Option CreditGate) → IsShut o → IsShut (Option.map (λ g. grant g n) o)
unfolding grant
IsShut-grant n none h = tt
IsShut-grant n (some g) h = ground arith

pub HasEnd-stop : {A : Type 0} (o : Option (StreamPump A)) → HasEnd o → HasEnd (Option.map stop o)
unfolding stop
HasEnd-stop none h = tt
HasEnd-stop (some p) h = h

close_output_le : {A : Type 0} (o : Option (StreamPump A)) → close_output o 0 ≤ 1
unfolding close_output
close_output_le none = omega arith
close_output_le (some p) = omega arith

chat_not_put : (k : StreamKind) → is_put_stream k ≡ true → is_chat k ≡ false
unfolding is_chat is_put_stream
chat_not_put unary_kind e = refl
chat_not_put get_stream_kind e = refl
chat_not_put put_stream_kind e = refl
chat_not_put chat_kind e = ground arith

module _ {A E : Type 0} where
  -- Before the end nothing was closed or reported; after it everything was, once.
  abbrev pub Progress : RequestCtx A E → Type 0
  Progress t =
      ((t.done ≡ false) × (t.ends ≡ 0) × (t.closes ≡ 0) × (t.get_closed ≡ false))
      ⊎ ((t.done ≡ true)
          × (t.ends ≡ 1)
          × (t.closes ≤ 1)
          × HasEnd t.result_pump
          × IsShut t.send_credit)

  -- A request that has left the map is over, a chat in both directions.
  abbrev pub Departed : RequestCtx A E → Type 0
  Departed t =
      (t.registered ≡ true)
      ⊎ ((t.done ≡ true)
          × ((is_chat t.kind ≡ false) ⊎ ((t.get_closed ≡ true) × (t.put_closed ≡ true))))

  abbrev pub Life : RequestCtx A E → Type 0
  Life t = Progress t × Departed t

  -- The same, whether or not the get side is closed already.
  abbrev Counted : RequestCtx A E → Type 0
  Counted t =
      ((t.done ≡ false) × (t.ends ≡ 0) × (t.closes ≡ 0))
      ⊎ ((t.done ≡ true)
          × (t.ends ≡ 1)
          × (t.closes ≤ 1)
          × HasEnd t.result_pump
          × IsShut t.send_credit)

  Progress-Counted : (t : RequestCtx A E) → Progress t → Counted t
  Progress-Counted t (inl (d, e, c, g)) = inl (d, e, c)
  Progress-Counted t (inr h) = inr h

  close_result-Progress :
      (t : RequestCtx A E) → Counted t → Progress (close_result t) × ((close_result t).done ≡ true)
  unfolding close_result
  close_result-Progress t (inl (d, e, c)) = simp d (
    inr (
      refl,
      ap suc e,
      simp c (close_output_le t.result_pump),
      HasEnd-close t.result_pump,
      IsShut-close t.send_credit,
    ),
    refl,
  )
  close_result-Progress t (inr (d, e, c, h, g)) = simp d (inr (refl, e, c, h, g), refl)

  close_result_kept :
      (t : RequestCtx A E)
      → ((close_result t).kind ≡ t.kind)
        × ((close_result t).get_closed ≡ t.get_closed)
        × ((close_result t).put_closed ≡ t.put_closed)
        × ((close_result t).registered ≡ t.registered)
  unfolding close_result
  close_result_kept t = ground arith

  close-Counted :
      (t : RequestCtx A E)
      → Progress t
      → Counted (record t {
        get_closed = true;
        put_closed = true;
        result_pump = Option.map stop t.result_pump;
      })
  close-Counted t (inl (d, e, c, g)) = inl (d, e, c)
  close-Counted t (inr (d, e, c, h, g)) = inr (d, e, c, HasEnd-stop t.result_pump h, g)

  pub close-Life : (t : RequestCtx A E) → Life t → Life (close t)
  unfolding close
  close-Life t (p, r) =
      let t' : RequestCtx A E = record t {
        get_closed = true;
        put_closed = true;
        result_pump = Option.map stop t.result_pump;
      } in
      let q = close_result-Progress t' (close-Counted t p) in
      let k = close_result_kept t' in (q.0, ground (arith, q.1, k.0, k.1, k.2, k.3, r))

  pub finish-Life : (t : RequestCtx A E) → Progress t → Life (finish t)
  unfolding finish close
  finish-Life t p =
      let t' : RequestCtx A E = record t {
        get_closed = true;
        put_closed = true;
        result_pump = Option.map stop t.result_pump;
      } in
      let q = close_result-Progress t' (close-Counted t p) in
      let k = close_result_kept t' in (q.0, inr (q.1, inr (k.1, k.2)))

  -- What a request needs to leave the map.
  abbrev IsOver : RequestCtx A E → Type 0
  IsOver t =
      (t.done ≡ true) × ((is_chat t.kind ≡ false) ⊎ ((t.get_closed ≡ true) × (t.put_closed ≡ true)))

  deleted_if-Life :
      (t : RequestCtx A E) (b : Bool) → Life t → (b ≡ true → IsOver t) → Life (deleted_if (t, b))
  unfolding deleted_if
  deleted_if-Life t true (p, r) f = (p, inr (f refl))
  deleted_if-Life t false h f = h

  pub try_get_close-Life : (t : RequestCtx A E) → Life t → Life (deleted_if (try_get_close t))
  unfolding try_get_close
  try_get_close-Life t (p, r) =
      let t' : RequestCtx A E = record t { get_closed = true } in
      let q = close_result-Progress t' (Progress-Counted t p) in
      let k = close_result_kept t' in
      deleted_if-Life (close_result t') (if is_chat t.kind then t.put_closed else true)
        (q.0, ground (arith, q.1, k.0, k.1, k.2, k.3, r))
        (λ b. (q.1, ground (arith, b, k.0, k.1, k.2)))

  pub end_stream_out-Life : (t : RequestCtx A E) → Life t → Life (end_stream_out t)
  unfolding end_stream_out try_put_close
  end_stream_out-Life t (p, r) = elim (Bool-cases (is_put_stream t.kind)) [
    | inl e ↦ rw e (
        let t' : RequestCtx A E = record t { put_closed = true } in
        let q = close_result-Progress t' (Progress-Counted t p) in
        let k = close_result_kept t' in
        let o : IsOver (close_result t') = (q.1, inl (ap is_chat k.0 ∙ chat_not_put t.kind e)) in
        deleted_if-Life (close_result t') true (q.0, inr o) (λ b. o))
    | inr e ↦ rw e (
        deleted_if-Life (record t { put_closed = true }) t.get_closed (p, ground (arith, r))
          (λ b. ground (arith, b, p)))
  ]
