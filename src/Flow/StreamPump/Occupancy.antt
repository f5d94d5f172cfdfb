-- ===== src/Flow/StreamPump/Occupancy.antt =====
-- How many values a pump holds, and what each operation does to that number.
use value_rpc.Prelude.{
  ℕ, suc, ◌+◌, ◌≤◌, ◌<◌, ◌≡◌, refl, false, ◌∷◌, ◌++◌, [], length, get_elem?, get_elem?-lt,
  length-set, length-append, length-drop, drop, arith,
}
use value_rpc.Flow.StreamPump.{
  Runner, idle, sending, StreamPump, backlog, compact, append, push, dequeue, take_from, take,
  deliver_from, deliver, interrupt_from, interrupt,
}
use value_rpc.Flow.StreamPump.Pending.{IsInRange}

module _ {A : Type 0} where
  -- The value that the goroutine offers to the channel.
  abbrev pub hold : Runner A → ℕ
  hold (sending v) = 1
  hold _ = 0

  abbrev pub occupancy : StreamPump A → ℕ
  occupancy p = backlog p + hold p.runner

  -- What an operation of the goroutine leaves alone.
  pub record Keeps (p q : StreamPump A) : Type 0 where
    pub overflow_kept : q.overflow ≡ p.overflow
    pub max_kept : q.max_pending ≡ p.max_pending
    pub end_kept : q.input_end ≡ p.input_end
    pub stop_kept : q.stopped ≡ p.stopped

  -- A push below the bound is accepted unless the input has ended.
  pub push-occupancy :
      (grow : ℕ → ℕ → ℕ) (v : A) (p : StreamPump A)
      → IsInRange p
      → backlog p < p.max_pending
      → Keeps p (push grow v p).0
        × (occupancy (push grow v p).0 ≤ suc (occupancy p))
        × (p.input_end ≡ false
            → p.stopped ≡ false
            → occupancy (push grow v p).0 ≡ suc (occupancy p))
        × ((push grow v p).0.out ≡ p.out)
  unfolding push compact append
  push-occupancy grow v p h b = ground (
    arith,
    length-append p.queue (v ∷ []),
    length-append (drop p.head p.queue) (v ∷ []),
    length-drop p.head p.queue,
  )

  abbrev pub Same : StreamPump A → StreamPump A → Type 0
  Same p q = Keeps p q × (occupancy q ≡ occupancy p) × (q.out ≡ p.out) × IsInRange q

  dequeue-Same :
      (nil_value : A) (p : StreamPump A)
      → p.runner ≡ idle
      → p.head < length p.queue
      → Same p (dequeue nil_value (get_elem? p.queue p.head) p)
  unfolding dequeue
  dequeue-Same nil_value p e lt =
      let (v, at) = get_elem?-lt p.head p.queue lt in
      rw (at, dequeue) (ground (arith, length-set p.queue p.head nil_value))

  take_from-Same :
      (nil_value : A) (p : StreamPump A) (r : Runner A)
      → p.runner ≡ r
      → IsInRange p
      → Same p (take_from nil_value r p)
  unfolding take_from
  take_from-Same nil_value p idle e h = ground (arith, dequeue-Same nil_value p e)
  take_from-Same nil_value p _ e h = ground arith

  -- Taking a value moves it from the queue to the goroutine.
  pub take-Same : (nil_value : A) (p : StreamPump A) → IsInRange p → Same p (take nil_value p)
  unfolding take
  take-Same nil_value p h = take_from-Same nil_value p p.runner refl h

  -- The channel takes the value that the goroutine offers.
  pub deliver-occupancy :
      (p : StreamPump A) (v : A)
      → p.runner ≡ sending v
      → Keeps p (deliver p)
        × (suc (occupancy (deliver p)) ≡ occupancy p)
        × ((deliver p).out ≡ p.out ++ v ∷ [])
        × ((deliver p).head ≡ p.head)
        × ((deliver p).queue ≡ p.queue)
  unfolding deliver deliver_from
  deliver-occupancy p v e = ground arith

  interrupt_from-occupancy :
      (p : StreamPump A) (r : Runner A)
      → p.runner ≡ r
      → Keeps p (interrupt_from r p)
        × (occupancy (interrupt_from r p) ≤ occupancy p)
        × (p.stopped ≡ false → occupancy (interrupt_from r p) ≡ occupancy p)
        × ((interrupt_from r p).out ≡ p.out)
        × ((interrupt_from r p).head ≡ p.head)
        × ((interrupt_from r p).queue ≡ p.queue)
  unfolding interrupt_from
  interrupt_from-occupancy p (sending v) e = ground arith
  interrupt_from-occupancy p _ e = ground arith

  -- Only a stopped pump drops the value that its goroutine offers.
  pub interrupt-occupancy :
      (p : StreamPump A)
      → Keeps p (interrupt p)
        × (occupancy (interrupt p) ≤ occupancy p)
        × (p.stopped ≡ false → occupancy (interrupt p) ≡ occupancy p)
        × ((interrupt p).out ≡ p.out)
        × ((interrupt p).head ≡ p.head)
        × ((interrupt p).queue ≡ p.queue)
  unfolding interrupt
  interrupt-occupancy p = interrupt_from-occupancy p p.runner refl
