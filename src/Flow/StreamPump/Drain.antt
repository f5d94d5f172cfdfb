-- ===== src/Flow/StreamPump/Drain.antt =====
-- A pump whose input has ended comes to its end.
use value_rpc.Prelude.{
  ℕ, suc, zero, ◌<◌, ◌≡◌, refl, sym, ap, subst, ◌∙◌, ◌⊎◌, inl, inr, true, false, List, [], ◌∷◌,
  length, get_elem?, get_elem?-lt, length-set, arith, ◌++◌,
}
use value_rpc.Flow.StreamPump.{
  Runner, idle, finished, panicked, sending, StreamPump, new_stream_pump, backlog, dequeue,
  take_from, take, deliver_from, deliver, finish, Event, takes, delivers, step, run,
}
use value_rpc.Flow.StreamPump.Steps.{Owes, Inv, take-Inv, deliver-Inv}
use value_rpc.Flow.StreamPump.Order.{run-Inv, new-Inv, run-drained}

-- The consumer and the goroutine take turns.
abbrev pub rounds {ℓ} : {A : Type ℓ} → ℕ → List (Event A)
rounds zero = []
rounds (suc n) = delivers ∷ takes ∷ rounds n

abbrev pub IsEnding {ℓ} : {A : Type ℓ} → StreamPump A → Type 0
IsEnding p = (p.input_end ≡ true) × (p.stopped ≡ false)

module _ {A : Type 0} (nil_value : A) where
  -- One turn of the goroutine on a pump that is not sending: it ends, or one value fewer waits.
  abbrev Progress : StreamPump A → StreamPump A → Type 0
  Progress p q =
      (q.input_end ≡ true)
      × (q.stopped ≡ false)
      × ((q.runner ≡ finished) ⊎ (suc (backlog q) ≡ backlog p))

  dequeue-Progress :
      (p : StreamPump A)
      → p.input_end ≡ true
      → p.stopped ≡ false
      → p.head < length p.queue
      → Progress p (dequeue nil_value (get_elem? p.queue p.head) p)
  unfolding dequeue
  dequeue-Progress p i s lt =
      let (v, at) = get_elem?-lt p.head p.queue lt in
      rw (at, dequeue) (ground (arith, length-set p.queue p.head nil_value))

  take-Progress :
      (p : StreamPump A)
      → p.input_end ≡ true
      → p.stopped ≡ false
      → Progress p (take_from nil_value idle p)
  unfolding take_from finish
  take-Progress p i s = ground (arith, dequeue-Progress p i s)

  turn-Progress :
      (accepted : List A) (p : StreamPump A) (r : Runner A)
      → p.runner ≡ r
      → Inv accepted p
      → IsEnding p
      → Progress p (take nil_value (deliver_from r p))
  unfolding take deliver_from
  turn-Progress accepted p idle e h n =
      subst (λ r. Progress p (take_from nil_value r p)) (sym e) (take-Progress p n.0 n.1)
  turn-Progress accepted p (sending v) e h n = take-Progress _ n.0 n.1
  turn-Progress accepted p finished e h n =
      subst (λ r. Progress p (take_from nil_value r p)) (sym e) (n.0, n.1, inl e)
  turn-Progress accepted p panicked e h n = absurd (subst (Owes accepted p) e h.owes)

  stays_finished : (p : StreamPump A) → p.runner ≡ finished → take nil_value (deliver p) ≡ p
  unfolding take deliver
  stays_finished p e =
      ap (take nil_value) (subst (λ r. deliver_from r p ≡ p) (sym e) refl)
      ∙ subst (λ r. take_from nil_value r p ≡ p) (sym e) refl

  turn-Inv :
      (accepted : List A) (p : StreamPump A)
      → Inv accepted p
      → Inv accepted (take nil_value (deliver p))
  unfolding take deliver
  turn-Inv accepted p h =
      take-Inv nil_value accepted (deliver p) (deliver p).runner refl
        (deliver-Inv accepted p p.runner refl h)

  turn-ends :
      (accepted : List A) (p : StreamPump A)
      → Inv accepted p
      → IsEnding p
      → Progress p (take nil_value (deliver p))
  unfolding deliver
  turn-ends accepted p h n = turn-Progress accepted p p.runner refl h n

  rounds-finish :
      (grow : ℕ → ℕ → ℕ) (k : ℕ) (accepted : List A) (p : StreamPump A)
      → Inv accepted p
      → IsEnding p
      → (backlog p < k) ⊎ (p.runner ≡ finished)
      → let (q, now) = run nil_value grow (p, accepted) (rounds k) in
        (q.runner ≡ finished) × (q.stopped ≡ false) × (now ≡ accepted)
  unfolding run step
  rounds-finish grow zero accepted p h n (inl lt) = absurd (omega arith)
  rounds-finish grow zero accepted p h n (inr e) = (e, n.1, refl)
  rounds-finish grow (suc k) accepted p h n (inr e) =
      rounds-finish grow k accepted (take nil_value (deliver p)) (turn-Inv accepted p h)
        (rw (stays_finished p e) n) (inr (rw (stays_finished p e) e))
  rounds-finish grow (suc k) accepted p h n (inl lt) =
      let (i, s, c) = turn-ends accepted p h n in
      rounds-finish grow k accepted (take nil_value (deliver p)) (turn-Inv accepted p h) (i, s)
        (fewer (take nil_value (deliver p)) c)
    where
      fewer :
          (q : StreamPump A)
          → (q.runner ≡ finished) ⊎ (suc (backlog q) ≡ backlog p)
          → (backlog q < k) ⊎ (q.runner ≡ finished)
      fewer q (inl e) = inr e
      fewer q (inr e) = inl (omega arith)

  run-append :
      (grow : ℕ → ℕ → ℕ) (s : StreamPump A × List A) (es fs : List (Event A))
      → run nil_value grow s (es ++ fs) ≡ run nil_value grow (run nil_value grow s es) fs
  unfolding run
  run-append grow s [] fs = refl
  run-append grow s (e ∷ es) fs = run-append grow (step nil_value grow s e) es fs

  -- A pump whose input has ended and that nobody stops comes to its end: once the consumer and the
  -- goroutine have taken one turn more than values wait, it has finished, with every accepted value
  -- handed over in order and the channel closed.
  pub run-finishes :
      (grow : ℕ → ℕ → ℕ) (m k : ℕ) (es : List (Event A))
      → let (p, accepted) = run nil_value grow (new_stream_pump m, []) es in
        let (q, now) = run nil_value grow (new_stream_pump m, []) (es ++ rounds k) in
        IsEnding p
        → backlog p < k
        → (q.runner ≡ finished) × (q.out ≡ accepted) × (q.out_closed ≡ true)
  run-finishes grow m k es n lt =
      let (p, accepted) = run nil_value grow (new_stream_pump m, []) es in
      let ends =
        rounds-finish grow k accepted p
          (run-Inv nil_value grow (new_stream_pump m) [] es (new-Inv nil_value grow m)) n
          (inl lt) in
      let f =
        subst
          (λ (t : StreamPump A × List A).
            (t.0.runner ≡ finished) × (t.0.stopped ≡ false) × (t.1 ≡ accepted))
          (sym (run-append grow (new_stream_pump m, []) es (rounds k))) ends in
      let d = run-drained nil_value grow m (es ++ rounds k) f.0 f.1 in (f.0, d.0 ∙ f.2, d.1)
