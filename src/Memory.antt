-- ===== src/Memory.antt =====
-- The in-memory transport's registry of listeners: valuerpc/transport_mem.go. NewMemListener, the two steps
-- of Close and the lookup of Dial are steps that interleave. A listener is its position in the list of all
-- that were made, and a name is a number.
pub mod Open
use value_rpc.Prelude.{
  ℕ, ◌+◌, ◌==◌, if◌then◌else◌, List, [], ◌∷◌, ◌++◌, Option, none, some, length, get_elem?, set,
}
use value_rpc.Prelude.Maps.{load, delete, store}

-- Close unregisters the listener and then closes `done`; closeOnce lets it do so once.
pub data Phase : Type 0 where
  listening unregistered closed : Phase

pub record MemListener : Type 0 where
  pub name : ℕ
  pub phase : Phase

-- `refused` counts the NewMemListener that failed; `dialed` has the listener that each Dial found, or none.
pub record Memory : Type 0 where
  pub registry : List (ℕ × ℕ)
  pub listeners : List MemListener
  pub refused : ℕ
  pub dialed : List (Option ℕ)

unfoldable pub new_memory : Memory
new_memory = record { registry = []; listeners = []; refused = 0; dialed = [] }

unfoldable pub new_mem_listener_at : ℕ → Memory → Option ℕ → Memory
new_mem_listener_at name m (some i) = record m { refused = m.refused + 1 }
new_mem_listener_at name m none = record m {
  registry = store name (length m.listeners) m.registry;
  listeners = m.listeners ++ record { name = name; phase = listening } ∷ [];
}

unfoldable pub new_mem_listener : ℕ → Memory → Memory
unfolding new_mem_listener_at
new_mem_listener name m = new_mem_listener_at name m (load name m.registry)

-- delete(memRegistry.m, l.name), if the listener there is the i-th.
unfoldable pub unregister : ℕ → ℕ → List (ℕ × ℕ) → Option ℕ → List (ℕ × ℕ)
unregister i name registry none = registry
unregister i name registry (some j) = if j == i then delete name registry else registry

unfoldable pub begin_close_from : ℕ → Memory → MemListener → Phase → Memory
unfolding unregister
begin_close_from i m l listening = record m {
  registry = unregister i l.name m.registry (load l.name m.registry);
  listeners = set m.listeners i (record l { phase = unregistered });
}
begin_close_from i m l _ = m

unfoldable pub end_close_from : ℕ → Memory → MemListener → Phase → Memory
end_close_from i m l unregistered = record m {
  listeners = set m.listeners i (record l { phase = closed });
}
end_close_from i m l _ = m

-- The lookup of Dial.
unfoldable pub dial : ℕ → Memory → Memory
dial name m = record m { dialed = load name m.registry ∷ m.dialed }

unfoldable pub at_listener : (Memory → MemListener → Memory) → Memory → Option MemListener → Memory
at_listener f m none = m
at_listener f m (some l) = f m l

pub data Event : Type 0 where
  listens begins_close ends_close dials : ℕ → Event

unfoldable pub step : Event → Memory → Memory
unfolding new_mem_listener begin_close_from end_close_from at_listener dial
step (listens name) m = new_mem_listener name m
step (begins_close i) m =
    at_listener (λ n l. begin_close_from i n l l.phase) m (get_elem? m.listeners i)
step (ends_close i) m =
    at_listener (λ n l. end_close_from i n l l.phase) m (get_elem? m.listeners i)
step (dials name) m = dial name m

unfoldable pub run : List Event → Memory → Memory
unfolding step
run [] m = m
run (e ∷ es) m = run es (step e m)
