-- ===== src/Flow/StreamPump/Pending.antt =====
-- The waiting values of a pump, and what the operations on the queue do to them.
use value_rpc.Prelude.{
  ℕ, suc, ◌≤◌, ◌<◌, ◌≡◌, true, false, ◌||◌, List, [], ◌∷◌, ◌++◌, some, length, get_elem?, drop,
  length-append, length-drop, length-set, drop-get, drop-set, drop-append, drop-length,
  if◌then◌else◌, arith,
}
use value_rpc.Flow.StreamPump.{StreamPump, backlog, compact, append, push, dequeue}

module _ {A : Type 0} where
  -- The values that wait in the pump, the next one first.
  abbrev pub pending : StreamPump A → List A
  pending p = drop p.head p.queue

  pub length-pending : (p : StreamPump A) → length (pending p) ≡ backlog p
  length-pending p = length-drop p.head p.queue

  abbrev pub IsInRange : StreamPump A → Type 0
  IsInRange p = p.head ≤ length p.queue

  compact-IsInRange : (p : StreamPump A) → IsInRange p → IsInRange (compact p)
  unfolding compact
  compact-IsInRange p h = ground arith

  pending-compact : (p : StreamPump A) → pending (compact p) ≡ pending p
  unfolding compact
  pending-compact p = ground arith

  pending-append :
      (grow : ℕ → ℕ → ℕ) (v : A) (p : StreamPump A)
      → IsInRange p
      → pending (append grow v p) ≡ pending p ++ v ∷ []
  unfolding append
  pending-append grow v p h = drop-append p.head p.queue (v ∷ []) h

  pub push-pending :
      (grow : ℕ → ℕ → ℕ) (v : A) (p : StreamPump A)
      → IsInRange p
      → pending (push grow v p).0 ≡ (if (push grow v p).1 then pending p ++ v ∷ [] else pending p)
  unfolding push
  push-pending grow v p h =
      ground (arith, pending-append grow v (compact p) (compact-IsInRange p h), pending-compact p)

  -- Where the slice has an element at `head`, the goroutine takes the first pending value.
  pub dequeue-pending :
      (nil_value v : A) (p : StreamPump A)
      → get_elem? p.queue p.head ≡ some v
      → pending p ≡ v ∷ pending (dequeue nil_value (some v) p)
  unfolding dequeue
  dequeue-pending nil_value v p e = ground (
    arith,
    drop-get p.head p.queue v e,
    drop-length (suc p.head) p.queue,
    drop-set p.head p.queue nil_value,
  )

  pub dequeue-IsInRange :
      (nil_value v : A) (p : StreamPump A)
      → get_elem? p.queue p.head ≡ some v
      → p.head < length p.queue
      → IsInRange (dequeue nil_value (some v) p)
  unfolding dequeue
  dequeue-IsInRange nil_value v p e h = ground (arith, length-set p.queue p.head nil_value)

  pub push-bounded :
      (grow : ℕ → ℕ → ℕ) (v : A) (p : StreamPump A)
      → IsInRange p
      → backlog p ≤ p.max_pending
      → IsInRange (push grow v p).0 × (backlog (push grow v p).0 ≤ (push grow v p).0.max_pending)
  unfolding push compact append
  push-bounded grow v p h b = ground (
    arith,
    length-append p.queue (v ∷ []),
    length-append (drop p.head p.queue) (v ∷ []),
    length-drop p.head p.queue,
  )

  pub push-out : (grow : ℕ → ℕ → ℕ) (v : A) (p : StreamPump A) → (push grow v p).0.out ≡ p.out
  unfolding push compact append
  push-out grow v p = ground arith

  pub push-runner :
      (grow : ℕ → ℕ → ℕ) (v : A) (p : StreamPump A) → (push grow v p).0.runner ≡ p.runner
  unfolding push compact append
  push-runner grow v p = ground arith

  -- A finished pump refuses the push and stays as it is.
  pub push_refused :
      (grow : ℕ → ℕ → ℕ) (v : A) (p : StreamPump A)
      → (p.input_end || p.stopped) ≡ true
      → push grow v p ≡ (p, false)
  unfolding push
  push_refused grow v p h = rw h

  pub pending_nil : (p : StreamPump A) → backlog p ≡ 0 → pending p ≡ []
  pending_nil p h = drop-length p.head p.queue (omega arith)
