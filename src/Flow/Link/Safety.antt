-- ===== src/Flow/Link/Safety.antt =====
-- What the credits guarantee of a stream direction, in every state that it can reach.
use value_rpc.Prelude.{
  ℕ, ◌≤◌, ◌<◌, ◌≡◌, refl, sym, subst, ◌⊎◌, inl, inr, Bool, true, false, List, [], ◌∷◌, Option, none,
  some, two63, arith,
}
use value_rpc.Flow.CreditGate.{acquire, taken, new_credit_gate}
use value_rpc.Flow.StreamPump.{push, backlog, new_stream_pump}
use value_rpc.Flow.Meter.{batch_bounds, inbound_meter, initiator_meter}
use value_rpc.Flow.Link.{
  Link, inbound_link, initiated_link, send, end_with, arrive, fetch, hand_over, open_window, refill,
  Step, sends, ends_with, arrives, fetches, delivers, opens, refills, closes, closes_gate,
  ends_input, stops, gives_up, Reach, here, next,
}
use value_rpc.Flow.Link.Account.{nulls, travelling, IsSettled, Phase, Inv}
use value_rpc.Flow.Link.Steps.{
  send-Inv, arrive-Inv, fetch-Inv, hand_over-Inv, open_window-Inv, refill-Inv, close_flag-Inv,
  close_gate-Inv, room_of_Phase,
}
use value_rpc.Flow.Link.Teardown.{teardown-Inv, close-Releases, stop-Releases, interrupt-Releases}

module _ {A : Type 0} (nil_value : A) (grow : ℕ → ℕ → ℕ) where
  -- Until a value is sent in a StreamEnd.
  abbrev InvUntilEnd : ℕ → Link A → Type 0
  InvUntilEnd w s = s.ended ≡ false → Inv w s

  Step-Inv : (w : ℕ) {s t : Link A} → Step nil_value grow s t → InvUntilEnd w s → InvUntilEnd w t
  unfolding send arrive fetch hand_over open_window refill end_with
  Step-Inv w {s} (sends v n a e) i = subst (InvUntilEnd w) (sym e) (λ h. send-Inv w s v a (i h))
  Step-Inv w {s} (ends_with v o c n e) i = λ h. cc
  Step-Inv w {s} (arrives none rest q e) i =
      subst (InvUntilEnd w) (sym e) (λ h. arrive-Inv grow w s none rest q (i h))
  Step-Inv w {s} (arrives (some v) rest q e) i =
      subst (InvUntilEnd w) (sym e) (λ h. arrive-Inv grow w s (some v) rest q (i h))
  Step-Inv w {s} (fetches e) i = subst (InvUntilEnd w) (sym e) (λ h. fetch-Inv nil_value w s (i h))
  Step-Inv w {s} (delivers v q e) i =
      subst (InvUntilEnd w) (sym e) (λ h. hand_over-Inv w s v q (i h))
  Step-Inv w {s} (opens v rest o q e) i =
      subst (InvUntilEnd w) (sym e) (λ h. open_window-Inv w s v rest o q (i h))
  Step-Inv w {s} (refills n rest q e) i =
      subst (InvUntilEnd w) (sym e) (λ h. refill-Inv w s n rest q (i h))
  Step-Inv w {s} (closes e) i = subst (InvUntilEnd w) (sym e) (λ h. close_flag-Inv w s (i h))
  Step-Inv w {s} (closes_gate e) i = subst (InvUntilEnd w) (sym e) (λ h. close_gate-Inv w s (i h))
  Step-Inv w {s} (ends_input e) i =
      subst (InvUntilEnd w) (sym e) (λ h. teardown-Inv w s _ (close-Releases s.pump) (i h))
  Step-Inv w {s} (stops e) i =
      subst (InvUntilEnd w) (sym e) (λ h. teardown-Inv w s _ (stop-Releases s.pump) (i h))
  Step-Inv w {s} (gives_up e) i =
      subst (InvUntilEnd w) (sym e) (λ h. teardown-Inv w s _ (interrupt-Releases s.pump) (i h))

  Reach-Inv : (w : ℕ) {s t : Link A} → Inv w s → Reach nil_value grow s t → InvUntilEnd w t
  Reach-Inv w i here = λ h. i
  Reach-Inv w i (next r st) = Step-Inv w st (Reach-Inv w i r)

  -- Only an outgoingStreamer sends a value in its StreamEnd.
  abbrev EndsAsked : Link A → Type 0
  EndsAsked s = s.ended ≡ true → s.initiated ≡ true

  Step-EndsAsked : {s t : Link A} → Step nil_value grow s t → EndsAsked s → EndsAsked t
  unfolding send arrive fetch hand_over open_window refill end_with
  Step-EndsAsked (sends v n a e) i = subst EndsAsked (sym e) i
  Step-EndsAsked (ends_with v o c n e) i = subst EndsAsked (sym e) (λ h. o)
  Step-EndsAsked (arrives none rest q e) i = subst EndsAsked (sym e) i
  Step-EndsAsked (arrives (some v) rest q e) i = subst EndsAsked (sym e) i
  Step-EndsAsked (fetches e) i = subst EndsAsked (sym e) i
  Step-EndsAsked (delivers v q e) i = subst EndsAsked (sym e) i
  Step-EndsAsked (opens v rest o q e) i = subst EndsAsked (sym e) i
  Step-EndsAsked (refills n rest q e) i = subst EndsAsked (sym e) i
  Step-EndsAsked (closes e) i = subst EndsAsked (sym e) i
  Step-EndsAsked (closes_gate e) i = subst EndsAsked (sym e) i
  Step-EndsAsked (ends_input e) i = subst EndsAsked (sym e) i
  Step-EndsAsked (stops e) i = subst EndsAsked (sym e) i
  Step-EndsAsked (gives_up e) i = subst EndsAsked (sym e) i

  Reach-EndsAsked : {s t : Link A} → EndsAsked s → Reach nil_value grow s t → EndsAsked t
  Reach-EndsAsked i here = i
  Reach-EndsAsked i (next r st) = Step-EndsAsked st (Reach-EndsAsked i r)

  inbound-Inv : (w : ℕ) → 0 < w → w < two63 → Inv w (inbound_link {A = A} w)
  unfolding inbound_link new_credit_gate new_stream_pump inbound_meter nulls
  inbound-Inv w p h = ground (arith, batch_bounds w)

  initiated-Inv : (w : ℕ) → 0 < w → w < two63 → Inv w (initiated_link nil_value w)
  unfolding initiated_link new_credit_gate new_stream_pump initiator_meter nulls
  initiated-Inv w p h = ground arith

  bounded_of_Phase : (w : ℕ) (s : Link A) (b : Bool) → 0 < w → Phase w s b → backlog s.pump ≤ w
  bounded_of_Phase w s true p f = ground arith
  bounded_of_Phase w s false p f = ground arith

  going_of : (x : Bool) → (x ≡ true → x ≡ false) → x ≡ false
  going_of true h = h refl
  going_of false h = refl

  -- The two ways in which a stream direction begins.
  abbrev pub Begins : ℕ → Link A → Type 0
  Begins w s = (s ≡ inbound_link w) ⊎ (s ≡ initiated_link nil_value w)

  begin-Inv : (w : ℕ) (s : Link A) → 0 < w → w < two63 → Begins w s → Inv w s
  begin-Inv w s p h (inl e) = subst (Inv w) (sym e) (inbound-Inv w p h)
  begin-Inv w s p h (inr e) = subst (Inv w) (sym e) (initiated-Inv w p h)

  begin-EndsAsked : (w : ℕ) (s : Link A) → Begins w s → EndsAsked s
  unfolding inbound_link initiated_link
  begin-EndsAsked w s (inl e) = subst EndsAsked (sym e) (λ h. cc)
  begin-EndsAsked w s (inr e) = subst EndsAsked (sym e) (λ h. refl)

  reached-Inv :
      (w : ℕ) (s t : Link A)
      → 0 < w
      → w < two63
      → Begins w s
      → Reach nil_value grow s t
      → (t.initiated ≡ true → t.ended ≡ false)
      → Inv w t
  reached-Inv w s t p h b r u =
      Reach-Inv w (begin-Inv w s p h b) r
        (going_of t.ended (λ e. u (Reach-EndsAsked (begin-EndsAsked w s b) r e)))

  -- With a positive bound below 2 ^ 63, in every reachable state of a stream direction, whichever side
  -- opened it, the pump has not overflowed and the values that wait do not exceed the bound. A stream that
  -- its receiver asked for must not yet have sent a value in its StreamEnd, which takes no credit.
  pub never_overflows :
      (w : ℕ) (s t : Link A)
      → 0 < w
      → w < two63
      → Begins w s
      → Reach nil_value grow s t
      → (t.initiated ≡ true → t.ended ≡ false)
      → (t.pump.overflow ≡ false) × (backlog t.pump ≤ w)
  never_overflows w s t p h b r u =
      let i = reached-Inv w s t p h b r u in
      (i.calm, bounded_of_Phase w t t.opened i.positive i.phase)

  -- No value is dropped: with a positive bound, as long as the receiver has not ended or stopped the
  -- stream, and an outgoingStreamer has sent no value in its StreamEnd, the pump accepts each one that arrives.
  pub arrival_accepted :
      (w : ℕ) (s t : Link A) (v : A) (rest : List (Option A))
      → 0 < w
      → w < two63
      → Begins w s
      → Reach nil_value grow s t
      → (t.initiated ≡ true → t.ended ≡ false)
      → t.wire ≡ some v ∷ rest
      → t.pump.input_end ≡ false
      → t.pump.stopped ≡ false
      → (push grow v t.pump).1 ≡ true
  unfolding push
  arrival_accepted w s t v rest p h b r u e n d =
      let i = reached-Inv w s t p h b r u in
      let room = room_of_Phase w t (some v) rest t.opened p e i.phase in ground (arith, i.bound)

  -- No credit is lost but those of null values: with a positive bound, where no value and no grant is on
  -- the way or waits, no null value was passed over, and an outgoingStreamer has sent no value in its
  -- StreamEnd, a stream that is open and not ended or torn down lets the sender go on.
  pub idle_sender_proceeds :
      (w : ℕ) (s t : Link A)
      → 0 < w
      → w < two63
      → Begins w s
      → Reach nil_value grow s t
      → (t.initiated ≡ true → t.ended ≡ false)
      → t.nulls_lost ≡ 0
      → t.opened ≡ true
      → t.gate.closed ≡ false
      → t.pump.input_end ≡ false
      → t.pump.stopped ≡ false
      → travelling t ≡ 0
      → t.grants ≡ []
      → (acquire t.gate).1 ≡ taken
  unfolding acquire
  idle_sender_proceeds w s t p h b r u l o c n d z g =
      let i = reached-Inv w s t p h b r u in
      let f : IsSettled w t = subst (Phase w t) o i.phase in
      let q = f.2 n d in ground (arith, batch_bounds w)
