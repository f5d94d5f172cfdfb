-- ===== src/Memory/Open.antt =====
-- Who is registered is who listens.
use value_rpc.Prelude.{
  ℕ, ◌==◌, ◌≡◌, refl, sym, ap, ◌∙◌, ◌↔◌, true, inl, inr, List, [], ◌∷◌, Option, none, some,
  get_elem?, get_elem?-set, get_elem?-set_ne, get_elem?-append_at, get_elem?-append_old,
  get_elem?-append_new, arith,
}
use mathlib.Core.Option.{none-ne-some}
use value_rpc.Prelude.Maps.{
  load, load-delete, load-delete_other, load-store, load-store_self, load-store_other,
}
use value_rpc.Memory.{
  Phase, listening, unregistered, closed, MemListener, Memory, new_memory, new_mem_listener_at,
  new_mem_listener, unregister, begin_close_from, end_close_from, at_listener, Event, listens,
  begins_close, ends_close, dials, step, run,
}

-- The i-th listener has the name and listens.
abbrev pub Listens : Memory → ℕ → ℕ → Type 0
Listens m name i =
    (l : MemListener) × (get_elem? m.listeners i ≡ some l) × (l.name ≡ name) × (l.phase ≡ listening)

record Inv (m : Memory) : Type 0 where
  found : (name i : ℕ) → load name m.registry ≡ some i → Listens m name i
  kept :
      (i : ℕ) (l : MemListener)
      → get_elem? m.listeners i ≡ some l
      → l.phase ≡ listening
      → load l.name m.registry ≡ some i

one_listener :
    (xs : List MemListener) (i j : ℕ) (l w : MemListener)
    → get_elem? xs i ≡ some l
    → get_elem? xs j ≡ some w
    → j ≡ i
    → w ≡ l
one_listener xs i j l w at there e = cc

new_mem_listener_at-Inv :
    (name : ℕ) (m : Memory) (o : Option ℕ)
    → load name m.registry ≡ o
    → Inv m
    → Inv (new_mem_listener_at name m o)
unfolding new_mem_listener_at
new_mem_listener_at-Inv name m (some i) e inv = record { found = inv.found; kept = inv.kept }
new_mem_listener_at-Inv name m none e inv = record {
  found = λ k i h. elim (load-store name k _ i m.registry h) [
    | inl (ek, ei) ↦ rw (ei, ek) (_, get_elem?-append_new m.listeners _, refl, refl)
    | inr old ↦
        let (l, at, is, open_) = inv.found k i old in
        (l, get_elem?-append_old m.listeners i _ l at, is, open_)
  ];
  kept = λ i l at open_. elim (get_elem?-append_at m.listeners i _ l at) [
    | inl (ei, el) ↦ rw (ei, el) (load-store_self name _ m.registry)
    | inr old ↦
        let there = inv.kept i l old open_ in
        load-store_other name l.name _ m.registry
          (λ same. none-ne-some _ (sym e ∙ ap (λ k. load k m.registry) (sym same) ∙ there))
        ∙ there
  ];
}

begin_close_from-Inv :
    (i : ℕ) (m : Memory) (l : MemListener) (p : Phase)
    → get_elem? m.listeners i ≡ some l
    → l.phase ≡ p
    → Inv m
    → Inv (begin_close_from i m l p)
unfolding begin_close_from unregister
begin_close_from-Inv i m l unregistered at e inv = inv
begin_close_from-Inv i m l closed at e inv = inv
begin_close_from-Inv i m l listening at e inv =
    let here = inv.kept i l at e in
    let same : (i == i) ≡ true = ground arith in
    rw here (
      rw same (record {
        found = λ k j h.
            let (ne, old) = load-delete l.name k j m.registry h in
            let (w, there, is, open_) = inv.found k j old in
            let apart : ¬ (j ≡ i) =
              λ q. ne (sym is ∙ ap (λ x. x.name) (one_listener m.listeners i j l w at there q)) in
            (w, get_elem?-set_ne m.listeners i j _ apart ∙ there, is, open_);
        kept = λ j w there open_. elim (get_elem?-set m.listeners i j _ w there) [
          | inl (ej, ew) ↦ absurd (cc (ew, open_))
          | inr (ne, old) ↦
              let its = inv.kept j w old open_ in
              let apart : ¬ (w.name ≡ l.name) = λ q. ne (cc (its, here, q)) in
              load-delete_other l.name w.name m.registry apart ∙ its
        ];
      }))

end_close_from-Inv :
    (i : ℕ) (m : Memory) (l : MemListener) (p : Phase)
    → get_elem? m.listeners i ≡ some l
    → l.phase ≡ p
    → Inv m
    → Inv (end_close_from i m l p)
unfolding end_close_from
end_close_from-Inv i m l listening at e inv = inv
end_close_from-Inv i m l closed at e inv = inv
end_close_from-Inv i m l unregistered at e inv = record {
  found = λ k j h.
      let (w, there, is, open_) = inv.found k j h in
      let apart : ¬ (j ≡ i) = λ q.
        absurd (cc (ap (λ x. x.phase) (one_listener m.listeners i j l w at there q), open_, e)) in
      (w, get_elem?-set_ne m.listeners i j _ apart ∙ there, is, open_);
  kept = λ j w there open_. elim (get_elem?-set m.listeners i j _ w there) [
    | inl (ej, ew) ↦ absurd (cc (ew, open_))
    | inr (ne, old) ↦ inv.kept j w old open_
  ];
}

at_listener-Inv :
    (f : Memory → MemListener → Memory) (m : Memory) (i : ℕ) (o : Option MemListener)
    → ((l : MemListener) → get_elem? m.listeners i ≡ some l → Inv (f m l))
    → get_elem? m.listeners i ≡ o
    → Inv m
    → Inv (at_listener f m o)
unfolding at_listener
at_listener-Inv f m i none keep e inv = inv
at_listener-Inv f m i (some l) keep e inv = keep l e

step-Inv : (e : Event) (m : Memory) → Inv m → Inv (step e m)
unfolding step new_mem_listener
step-Inv (listens name) m inv = new_mem_listener_at-Inv name m _ refl inv
step-Inv (begins_close i) m inv =
    at_listener-Inv (λ n l. begin_close_from i n l l.phase) m i _
      (λ l at. begin_close_from-Inv i m l l.phase at refl inv) refl inv
step-Inv (ends_close i) m inv =
    at_listener-Inv (λ n l. end_close_from i n l l.phase) m i _
      (λ l at. end_close_from-Inv i m l l.phase at refl inv) refl inv
step-Inv (dials name) m inv = record { found = inv.found; kept = inv.kept }

run-Inv : (es : List Event) (m : Memory) → Inv m → Inv (run es m)
unfolding run
run-Inv [] m inv = inv
run-Inv (e ∷ es) m inv = run-Inv es (step e m) (step-Inv e m inv)

new_memory-Inv : Inv new_memory
unfolding new_memory load
new_memory-Inv = record {
  found = λ name i h. absurd (none-ne-some _ h);
  kept = λ i l at h. absurd (none-ne-some _ at);
}

-- However listeners are made and closed, with the two steps of Close apart, what Dial finds under a name is
-- a listener exactly when that listener was made with the name and its Close has not begun; so no two
-- listeners of a name listen, and a name is free again once its listener is unregistered.
pub registered_iff :
    (es : List Event) (name i : ℕ)
    → (load name (run es new_memory).registry ≡ some i) ↔ Listens (run es new_memory) name i
registered_iff es name i =
    let inv = run-Inv es new_memory new_memory-Inv in
    (inv.found name i, λ (l, at, is, open_). ap (λ k. load k _) (sym is) ∙ inv.kept i l at open_)
