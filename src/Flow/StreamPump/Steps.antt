-- ===== src/Flow/StreamPump/Steps.antt =====
-- Every event of a pump keeps the account of the values that its goroutine owes the consumer.
use value_rpc.Prelude.{
  ℕ, ◌≤◌, ◌<◌, ◌≡◌, refl, true, false, ◌||◌, List, [], ◌∷◌, ◌++◌, append_assoc, length, get_elem?,
  length-set, get_elem?-lt, if◌then◌else◌, arith,
}
use value_rpc.Flow.StreamPump.{
  Runner, idle, finished, panicked, sending, StreamPump, backlog, push, close, stop, finish,
  dequeue, take_from, deliver_from, interrupt_from,
}
use value_rpc.Flow.StreamPump.Pending.{
  pending, IsInRange, push-bounded, push-out, push-runner, push_refused, push-pending, pending_nil,
  dequeue-pending, dequeue-IsInRange,
}

module _ {A : Type 0} where
  -- What the goroutine still owes the consumer, for each point that it may have reached. Values are
  -- left over at its end only if the pump was stopped.
  abbrev pub Owes : List A → StreamPump A → Runner A → Type 0
  Owes accepted p idle = accepted ≡ p.out ++ pending p
  Owes accepted p (sending v) = accepted ≡ p.out ++ v ∷ pending p
  Owes accepted p finished =
      (rest : List A) × (accepted ≡ p.out ++ rest)
      × ((p.input_end || p.stopped) ≡ true)
      × (p.stopped ≡ false → rest ≡ [])
      × (p.out_closed ≡ true)
  Owes accepted p panicked = ⊥

  pub record Inv (accepted : List A) (p : StreamPump A) : Type 0 where
    pub in_range : IsInRange p
    pub bounded : backlog p ≤ p.max_pending
    pub owes : Owes accepted p p.runner

  push-Owes :
      (grow : ℕ → ℕ → ℕ) (v : A) (accepted : List A) (p : StreamPump A) (r : Runner A)
      → IsInRange p
      → Owes accepted p r
      → Owes (if (push grow v p).1 then accepted ++ v ∷ [] else accepted) (push grow v p).0 r
  push-Owes grow v accepted p idle h f =
      ground
        (arith, push-pending grow v p h, push-out grow v p, append_assoc p.out (pending p) (v ∷ []))
  push-Owes grow v accepted p (sending w) h f = ground (
    arith,
    push-pending grow v p h,
    push-out grow v p,
    append_assoc p.out (w ∷ pending p) (v ∷ []),
  )
  push-Owes grow v accepted p finished h f = rw (push_refused grow v p f.2) f
  push-Owes grow v accepted p panicked h f = f

  pub push-Inv :
      (grow : ℕ → ℕ → ℕ) (v : A) (accepted : List A) (p : StreamPump A)
      → Inv accepted p
      → Inv (if (push grow v p).1 then accepted ++ v ∷ [] else accepted) (push grow v p).0
  push-Inv grow v accepted p h =
      let (i, b) = push-bounded grow v p h.in_range h.bounded in
      record {
        in_range = i;
        bounded = b;
        owes = rw (push-runner grow v p) (push-Owes grow v accepted p p.runner h.in_range h.owes);
      }

  dequeue-Inv :
      (nil_value : A) (accepted : List A) (p : StreamPump A)
      → p.runner ≡ idle
      → p.head < length p.queue
      → Inv accepted p
      → Inv accepted (dequeue nil_value (get_elem? p.queue p.head) p)
  unfolding dequeue
  dequeue-Inv nil_value accepted p e lt h =
      let (v, at) = get_elem?-lt p.head p.queue lt in
      rw (at, dequeue)
        (ground (
          arith,
          dequeue-pending nil_value v p at,
          dequeue-IsInRange nil_value v p at lt,
          length-set p.queue p.head nil_value,
        ))

  finish-Inv :
      (accepted rest : List A) (p : StreamPump A)
      → Inv accepted p
      → accepted ≡ p.out ++ rest
      → (p.input_end || p.stopped) ≡ true
      → (p.stopped ≡ false → rest ≡ [])
      → Inv accepted (finish p)
  unfolding finish
  finish-Inv accepted rest p h e d n = record {
    in_range = h.in_range;
    bounded = h.bounded;
    owes = (rest, e, d, n, refl);
  }

  pub take-Inv :
      (nil_value : A) (accepted : List A) (p : StreamPump A) (r : Runner A)
      → p.runner ≡ r
      → Inv accepted p
      → Inv accepted (take_from nil_value r p)
  unfolding take_from
  take-Inv nil_value accepted p idle e h = ground (
    arith,
    pending_nil p,
    finish-Inv accepted (pending p) p h,
    dequeue-Inv nil_value accepted p e,
  )
  take-Inv nil_value accepted p _ e h = h

  pub deliver-Inv :
      (accepted : List A) (p : StreamPump A) (r : Runner A)
      → p.runner ≡ r
      → Inv accepted p
      → Inv accepted (deliver_from r p)
  unfolding deliver_from
  deliver-Inv accepted p (sending v) e h = ground (arith, append_assoc p.out (v ∷ []) (pending p))
  deliver-Inv accepted p _ e h = h

  pub interrupt-Inv :
      (accepted : List A) (p : StreamPump A) (r : Runner A)
      → p.runner ≡ r
      → Inv accepted p
      → Inv accepted (interrupt_from r p)
  unfolding interrupt_from
  interrupt-Inv accepted p (sending v) e h = ground (arith, finish-Inv accepted (v ∷ pending p) p h)
  interrupt-Inv accepted p _ e h = h

  pub close-Inv : (accepted : List A) (p : StreamPump A) → Inv accepted p → Inv accepted (close p)
  unfolding close
  close-Inv accepted p h = record {
    in_range = h.in_range;
    bounded = h.bounded;
    owes = ended p.runner h.owes;
  }
    where
      ended : (r : Runner A) → Owes accepted p r → Owes accepted (record p { input_end = true }) r
      ended idle o = o
      ended (sending v) o = o
      ended finished (rest, e, d, n, c) = (rest, e, refl, n, c)
      ended panicked o = o

  pub stop-Inv : (accepted : List A) (p : StreamPump A) → Inv accepted p → Inv accepted (stop p)
  unfolding stop
  stop-Inv accepted p h = record {
    in_range = h.in_range;
    bounded = h.bounded;
    owes = ended p.runner h.owes;
  }
    where
      ended : (r : Runner A) → Owes accepted p r → Owes accepted (record p { stopped = true }) r
      ended idle o = o
      ended (sending v) o = o
      ended finished (rest, e, d, n, c) = (rest, e, ground arith, (λ q. cc), c)
      ended panicked o = o
