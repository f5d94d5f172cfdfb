-- ===== src/Resilience/Bulkhead/Bounded.antt =====
-- The slots in use are the calls that run.
use value_rpc.Prelude.{
  ℕ, ◌≤◌, ◌<◌, ◌≡◌, refl, Bool-cases, inl, inr, true, ltb, List, [], ◌∷◌, Option, none, some,
  get_elem?, get_elem?-set_self, arith,
}
use value_rpc.Serving.Totals.{total, total-append, total-set}
use value_rpc.Resilience.Bulkhead.{
  at_least_one, CallState, waiting, running, returned, refused, Bulkhead, new_bulkhead, enter,
  enter_from, leave_from, give_up_from, Event, calls_in, enters, leaves, gives_up, step, run,
}

-- A call that is in next counts one.
abbrev pub in_next : CallState → ℕ
in_next running = 1
in_next _ = 0

pub record Inv (max_concurrent : ℕ) (b : Bulkhead) : Type 0 where
  pub sized : b.capacity ≡ at_least_one max_concurrent
  pub counted : b.sem ≡ total in_next b.calls
  pub capped : b.sem ≤ b.capacity

module _ (max_concurrent : ℕ) where
  enter-Inv :
      (b : Bulkhead) (i : ℕ)
      → get_elem? b.calls i ≡ some waiting
      → Inv max_concurrent b
      → Inv max_concurrent (enter i b)
  unfolding enter
  enter-Inv b i at inv = elim (Bool-cases (ltb b.sem b.capacity)) [
    | inl h ↦ rw h (record {
      sized = inv.sized;
      counted = omega (arith, total-set in_next b.calls i waiting running at, inv.counted);
      capped = ground (arith, h);
    })
    | inr h ↦ rw h inv
  ]

  enter_from-Inv :
      (b : Bulkhead) (i : ℕ) (o : Option CallState)
      → get_elem? b.calls i ≡ o
      → Inv max_concurrent b
      → Inv max_concurrent (enter_from i b o)
  unfolding enter_from
  enter_from-Inv b i none at inv = inv
  enter_from-Inv b i (some waiting) at inv = enter-Inv b i at inv
  enter_from-Inv b i (some running) at inv = inv
  enter_from-Inv b i (some returned) at inv = inv
  enter_from-Inv b i (some refused) at inv = inv

  leave_from-Inv :
      (b : Bulkhead) (i : ℕ) (o : Option CallState)
      → get_elem? b.calls i ≡ o
      → Inv max_concurrent b
      → Inv max_concurrent (leave_from i b o)
  unfolding leave_from
  leave_from-Inv b i none at inv = inv
  leave_from-Inv b i (some waiting) at inv = inv
  leave_from-Inv b i (some running) at inv = record {
    sized = inv.sized;
    counted = omega (arith, total-set in_next b.calls i running returned at, inv.counted);
    capped = omega (arith, inv.capped);
  }
  leave_from-Inv b i (some returned) at inv = inv
  leave_from-Inv b i (some refused) at inv = inv

  give_up_from-Inv :
      (b : Bulkhead) (i : ℕ) (o : Option CallState)
      → get_elem? b.calls i ≡ o
      → Inv max_concurrent b
      → Inv max_concurrent (give_up_from i b o)
  unfolding give_up_from
  give_up_from-Inv b i none at inv = inv
  give_up_from-Inv b i (some waiting) at inv = record {
    sized = inv.sized;
    counted = omega (arith, total-set in_next b.calls i waiting refused at, inv.counted);
    capped = inv.capped;
  }
  give_up_from-Inv b i (some running) at inv = inv
  give_up_from-Inv b i (some returned) at inv = inv
  give_up_from-Inv b i (some refused) at inv = inv

  step-Inv : (e : Event) (b : Bulkhead) → Inv max_concurrent b → Inv max_concurrent (step e b)
  unfolding step
  step-Inv calls_in b inv = record {
    sized = inv.sized;
    counted = omega (arith, total-append in_next b.calls (waiting ∷ []), inv.counted);
    capped = inv.capped;
  }
  step-Inv (enters i) b inv = enter_from-Inv b i _ refl inv
  step-Inv (leaves i) b inv = leave_from-Inv b i _ refl inv
  step-Inv (gives_up i) b inv = give_up_from-Inv b i _ refl inv

  run-Inv : (es : List Event) (b : Bulkhead) → Inv max_concurrent b → Inv max_concurrent (run es b)
  unfolding run
  run-Inv [] b inv = inv
  run-Inv (e ∷ es) b inv = run-Inv es (step e b) (step-Inv e b inv)

  new_bulkhead-Inv : Inv max_concurrent (new_bulkhead max_concurrent)
  unfolding new_bulkhead
  new_bulkhead-Inv = record { sized = refl; counted = refl; capped = omega arith }

  enter_free :
      (b : Bulkhead) (i : ℕ)
      → Inv max_concurrent b
      → get_elem? b.calls i ≡ some waiting
      → total in_next b.calls < at_least_one max_concurrent
      → get_elem? (step (enters i) b).calls i ≡ some running
  unfolding step enter_from enter
  enter_free b i inv at free =
      let room : ltb b.sem b.capacity ≡ true = ground (arith, inv.sized, inv.counted, free) in
      rw at (rw room (get_elem?-set_self b.calls i waiting running at))

  -- However calls arrive, enter, return and give up, no more of them are in next at once than the limit, or
  -- than one if the limit is below one; and whenever fewer are, a call that waits can enter.
  pub in_next-run :
      (es : List Event)
      → let b = run es (new_bulkhead max_concurrent) in
        (total in_next b.calls ≤ at_least_one max_concurrent)
        × ((i : ℕ)
            → get_elem? b.calls i ≡ some waiting
            → total in_next b.calls < at_least_one max_concurrent
            → get_elem? (step (enters i) b).calls i ≡ some running)
  in_next-run es =
      let inv = run-Inv es (new_bulkhead max_concurrent) new_bulkhead-Inv in
      (omega (arith, inv.counted, inv.capped, inv.sized), λ i. enter_free _ i inv)
