-- ===== src/Outbox/Sequence.antt =====
-- Messages leave in the order in which they were accepted.
use value_rpc.Prelude.{
  ℕ, ◌+◌, ◌≤◌, ◌≡◌, refl, sym, ap, ◌∙◌, true, Bool-cases, inl, inr, ltb, List, [], ◌∷◌, ◌++◌,
  append_assoc, length, length-append, either, arith,
}
use value_rpc.Outbox.{
  Outbox, new_outbox, Event, sends, sender_takes, sender_stops, conn_replaced, closes, enqueue,
  take_from, sender_take, sender_stop, step, run,
}

module _ {M : Type 0} where
  abbrev pub messages : List (ℕ × M) → List M
  messages [] = []
  messages ((c, x) ∷ xs) = x ∷ messages xs

  abbrev pub From : ℕ → List (ℕ × M) → Type 0
  From c [] = Unit {0}
  From c ((k, x) ∷ xs) = (c ≤ k) × From c xs

  abbrev pub UpTo : ℕ → List (ℕ × M) → Type 0
  UpTo c [] = Unit {0}
  UpTo c ((k, x) ∷ xs) = (k ≤ c) × UpTo c xs

  -- No connection is written to after a later one.
  abbrev pub Ascends : List (ℕ × M) → Type 0
  Ascends [] = Unit {0}
  Ascends ((k, x) ∷ xs) = From k xs × Ascends xs

  messages-append :
      (xs : List (ℕ × M)) (c : ℕ) (x : M) → messages (xs ++ (c, x) ∷ []) ≡ messages xs ++ x ∷ []
  messages-append [] c x = refl
  messages-append ((k, y) ∷ xs) c x = ap (λ ys. y ∷ ys) (messages-append xs c x)

  From-append :
      (xs : List (ℕ × M)) (a c : ℕ) (x : M) → a ≤ c → From a xs → From a (xs ++ (c, x) ∷ [])
  From-append [] a c x le h = (le, tt)
  From-append ((k, y) ∷ xs) a c x le h = (h.0, From-append xs a c x le h.1)

  UpTo-append : (xs : List (ℕ × M)) (c : ℕ) (x : M) → UpTo c xs → UpTo c (xs ++ (c, x) ∷ [])
  UpTo-append [] c x h = (omega arith, tt)
  UpTo-append ((k, y) ∷ xs) c x h = (h.0, UpTo-append xs c x h.1)

  Ascends-append :
      (xs : List (ℕ × M)) (c : ℕ) (x : M) → UpTo c xs → Ascends xs → Ascends (xs ++ (c, x) ∷ [])
  Ascends-append [] c x u h = (tt, tt)
  Ascends-append ((k, y) ∷ xs) c x u h =
      (From-append xs k c x u.0 h.0, Ascends-append xs c x u.1 h.1)

  UpTo-suc : (xs : List (ℕ × M)) (c : ℕ) → UpTo c xs → UpTo (c + 1) xs
  UpTo-suc [] c h = tt
  UpTo-suc ((k, y) ∷ xs) c h = (omega (arith, h.0), UpTo-suc xs c h.1)

  pub record InSequence (capacity : ℕ) (o : Outbox M) : Type 0 where
    pub sized : o.capacity ≡ capacity
    pub in_order : o.accepted ≡ messages o.attempts ++ o.outgoing_queue
    pub fits : length o.outgoing_queue ≤ capacity
    pub current : UpTo o.active_conn o.attempts
    pub ascends : Ascends o.attempts

  module _ (capacity : ℕ) where
    enqueue-InSequence :
        (x : M) (o : Outbox M) → InSequence capacity o → InSequence capacity (enqueue x o)
    unfolding enqueue
    enqueue-InSequence x o inv = elim (Bool-cases (ltb (length o.outgoing_queue) o.capacity)) [
      | inl h ↦ rw h (record {
        sized = inv.sized;
        in_order =
            ap (λ xs. xs ++ x ∷ []) inv.in_order
            ∙ append_assoc (messages o.attempts) o.outgoing_queue (x ∷ []);
        fits = ground (arith, length-append o.outgoing_queue (x ∷ []), h, inv.sized);
        current = inv.current;
        ascends = inv.ascends;
      })
      | inr h ↦ rw h inv
    ]

    take_from-InSequence :
        (o : Outbox M) (q : List M)
        → o.outgoing_queue ≡ q
        → InSequence capacity o
        → InSequence capacity (take_from o q)
    unfolding take_from
    take_from-InSequence o [] e inv = inv
    take_from-InSequence o (x ∷ rest) e inv = record {
      sized = inv.sized;
      in_order =
          inv.in_order
          ∙ ap (λ xs. messages o.attempts ++ xs) e
          ∙ sym (append_assoc (messages o.attempts) (x ∷ []) rest)
          ∙ ap (λ xs. xs ++ rest) (sym (messages-append o.attempts o.active_conn x));
      fits = let same = ap length e in omega (arith, inv.fits, same);
      current = UpTo-append o.attempts o.active_conn x inv.current;
      ascends = Ascends-append o.attempts o.active_conn x inv.current inv.ascends;
    }

    stopped-InSequence :
        (o : Outbox M)
        → InSequence capacity o
        → InSequence capacity (record o { sender_stopped = true })
    stopped-InSequence o inv = record {
      sized = inv.sized;
      in_order = inv.in_order;
      fits = inv.fits;
      current = inv.current;
      ascends = inv.ascends;
    }

    step-InSequence :
        (e : Event M) (o : Outbox M) → InSequence capacity o → InSequence capacity (step e o)
    unfolding step sender_take sender_stop
    step-InSequence (sends x) o inv = enqueue-InSequence x o inv
    step-InSequence sender_takes o inv =
        either (InSequence capacity) o.sender_stopped inv
          (take_from-InSequence o o.outgoing_queue refl inv)
    step-InSequence sender_stops o inv =
        either (InSequence capacity) o.done (stopped-InSequence o inv) inv
    step-InSequence conn_replaced o inv = record {
      sized = inv.sized;
      in_order = inv.in_order;
      fits = inv.fits;
      current = UpTo-suc o.attempts o.active_conn inv.current;
      ascends = inv.ascends;
    }
    step-InSequence closes o inv = record {
      sized = inv.sized;
      in_order = inv.in_order;
      fits = inv.fits;
      current = inv.current;
      ascends = inv.ascends;
    }

    run-InSequence_of :
        (es : List (Event M)) (o : Outbox M)
        → InSequence capacity o
        → InSequence capacity (run es o)
    unfolding run
    run-InSequence_of [] o inv = inv
    run-InSequence_of (e ∷ es) o inv = run-InSequence_of es (step e o) (step-InSequence e o inv)

    -- However sends, the sender, reconnects and the close of a session interleave, the messages that send
    -- accepted are those that the sender took, in the same order, and after them those in the queue,
    -- which never holds more than its capacity; and no message is written to a connection after
    -- one was written to a later connection.
    pub run-InSequence : (es : List (Event M)) → InSequence capacity (run es (new_outbox capacity))
    unfolding new_outbox
    run-InSequence es =
        run-InSequence_of es (new_outbox capacity)
          (record { sized = refl; in_order = refl; fits = omega arith; current = tt; ascends = tt })
