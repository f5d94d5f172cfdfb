-- ===== src/Resilience/Bulkhead.antt =====
-- Bulkhead of resilience/policies.go: calls that wait for one of a number of slots. The channel `sem` holds
-- an element for each slot in use. A call that panics leaves as one that returns, by the deferred receive.
pub mod Bounded
use value_rpc.Prelude.{
  ℕ, ◌+◌, ◌-◌, Bool, ltb, slt, if◌then◌else◌, List, [], ◌∷◌, ◌++◌, Option, none, some, get_elem?,
  set,
}

-- maxConcurrent < 1 is treated as 1.
unfoldable pub at_least_one : ℕ → ℕ
at_least_one max_concurrent = if slt max_concurrent 1 then 1 else max_concurrent

-- Before the select, in next, after it, and turned away by the end of the context.
pub data CallState : Type 0 where
  waiting running returned refused : CallState

pub record Bulkhead : Type 0 where
  pub capacity : ℕ
  pub sem : ℕ
  pub calls : List CallState

unfoldable pub new_bulkhead : ℕ → Bulkhead
unfolding at_least_one
new_bulkhead max_concurrent = record { capacity = at_least_one max_concurrent; sem = 0; calls = [] }

-- case sem <- struct{}{}, which blocks while the channel is full.
unfoldable pub enter : ℕ → Bulkhead → Bulkhead
enter i b =
    if ltb b.sem b.capacity then record b { sem = b.sem + 1; calls = set b.calls i running } else b

-- The call at `i` in a state goes on by `f`, and another does nothing.
unfoldable pub enter_from : ℕ → Bulkhead → Option CallState → Bulkhead
unfolding enter
enter_from i b (some waiting) = enter i b
enter_from i b _ = b

unfoldable pub leave_from : ℕ → Bulkhead → Option CallState → Bulkhead
leave_from i b (some running) = record b { sem = b.sem - 1; calls = set b.calls i returned }
leave_from i b _ = b

unfoldable pub give_up_from : ℕ → Bulkhead → Option CallState → Bulkhead
give_up_from i b (some waiting) = record b { calls = set b.calls i refused }
give_up_from i b _ = b

pub data Event : Type 0 where
  calls_in : Event
  enters leaves gives_up : ℕ → Event

unfoldable pub step : Event → Bulkhead → Bulkhead
unfolding enter_from leave_from give_up_from
step calls_in b = record b { calls = b.calls ++ waiting ∷ [] }
step (enters i) b = enter_from i b (get_elem? b.calls i)
step (leaves i) b = leave_from i b (get_elem? b.calls i)
step (gives_up i) b = give_up_from i b (get_elem? b.calls i)

unfoldable pub run : List Event → Bulkhead → Bulkhead
unfolding step
run [] b = b
run (e ∷ es) b = run es (step e b)
