-- ===== src/Pending/Once.antt =====
-- Every call gets at most one result, that of a reply to it.
use value_rpc.Prelude.{
  ℕ, ◌≡◌, ◌≤◌, refl, sym, subst, ◌∙◌, ap, ◌⊎◌, inl, inr, List, [], ◌∷◌, ◌++◌, Option, none, some,
  length, get_elem?, set, get_elem?-set, get_elem?-set_ne, get_elem?-append, get_elem?-append_old,
  get_elem?-append_new, arith,
}
use mathlib.Core.Option.{none-ne-some}
use value_rpc.Prelude.Maps.{load, delete, load-delete, load-store}
use value_rpc.Pending.{
  CallEnd, got, gave_up, Waiting, Pending, new_pending, begin_call, deliver_to, complete_loaded,
  complete_pending_call, return_call, receive_from, receive_call, give_up_call, at_call, Event,
  begins, draws, replied, receives, gives_up, step, run,
}

module _ {A : Type 0} where
  -- No reply came, or one came that carried the call's id, and its result waits or was returned.
  pub data Settles (c : Waiting A) : Type 0 where
    unanswered :
        c.answers ≡ [] → c.channel ≡ [] → ((x : A) → ¬ (c.returned ≡ some (got x))) → Settles c
    answered :
        (a : A)
        → c.answers ≡ (c.id, a) ∷ []
        → (c.channel ≡ []) ⊎ (c.channel ≡ a ∷ [])
        → ((x : A) → c.returned ≡ some (got x) → x ≡ a)
        → Settles c

  pub record Inv (p : Pending A) : Type 0 where
    pub settled : (i : ℕ) (c : Waiting A) → get_elem? p.calls i ≡ some c → Settles c
    pub expected :
        (k i : ℕ)
        → load k p.pending ≡ some i
        → (c : Waiting A) × (get_elem? p.calls i ≡ some c) × (c.id ≡ k) × (c.answers ≡ [])

  begin_call-Inv : (p : Pending A) → Inv p → Inv (begin_call p)
  unfolding begin_call
  begin_call-Inv p inv = record {
    settled = λ i c at. elim (get_elem?-append p.calls i _ c at) [
      | inl e ↦ rw e (unanswered refl refl (λ x q. none-ne-some _ q))
      | inr e ↦ inv.settled i c e
    ];
    expected = λ k i at. elim (load-store _ k _ i p.pending at) [
      | inl (ek, ei) ↦ rw (ei, ek) (_, get_elem?-append_new p.calls _, refl, refl)
      | inr e ↦
          let (c, here, is, fresh) = inv.expected k i e in
          (c, get_elem?-append_old p.calls i _ c here, is, fresh)
    ];
  }

  one_call :
      (xs : List (Waiting A)) (i j : ℕ) (c w : Waiting A)
      → get_elem? xs i ≡ some c
      → get_elem? xs j ≡ some w
      → j ≡ i
      → w ≡ c
  one_call xs i j c w at there e = cc

  -- Writing to the call at `i`, whose id is not expected any more.
  set-Inv :
      (p : Pending A) (i : ℕ) (c c' : Waiting A)
      → get_elem? p.calls i ≡ some c
      → Settles c'
      → Inv p
      → Inv (record p { calls = set p.calls i c'; pending = delete c.id p.pending })
  set-Inv p i c c' at s inv = record {
    settled = λ j w there. elim (get_elem?-set p.calls i j c' w there) [
      | inl (ej, ew) ↦ rw ew s
      | inr (ne, e) ↦ inv.settled j w e
    ];
    expected = λ k j there.
        let (ne, old) = load-delete c.id k j p.pending there in
        let (w, here, is, fresh) = inv.expected k j old in
        (
          w,
          get_elem?-set_ne p.calls i j c'
                (λ e. ne (sym is ∙ ap (λ x. x.id) (one_call p.calls i j c w at here e)))
              ∙ here,
          is,
          fresh,
        );
  }

  sent-Settles :
      (id : ℕ) (a : A) (c : Waiting A)
      → c.id ≡ id
      → c.answers ≡ []
      → Settles c
      → Settles (record c { channel = c.channel ++ a ∷ []; answers = (id, a) ∷ c.answers })
  sent-Settles id a c is fresh (unanswered e f g) =
      answered a (rw (e, is) refl) (inr (ap (λ xs. xs ++ a ∷ []) f)) (λ x h. absurd (g x h))
  sent-Settles id a c is fresh (answered b e f g) = absurd cc

  complete_loaded-Inv :
      (id : ℕ) (a : A) (p : Pending A) (o : Option ℕ)
      → load id p.pending ≡ o
      → Inv p
      → Inv (complete_loaded id a p o)
  unfolding complete_loaded deliver_to
  complete_loaded-Inv id a p none e inv = inv
  complete_loaded-Inv id a p (some i) e inv =
      let (c, here, is, fresh) = inv.expected id i e in
      let c' : Waiting A = record c {
        channel = c.channel ++ a ∷ [];
        answers = (id, a) ∷ c.answers;
      } in
      rw here (
        subst (λ k. Inv (record p { calls = set p.calls i c'; pending = delete k p.pending })) is
          (set-Inv p i c c' here (sent-Settles id a c is fresh (inv.settled i c here)) inv))

  took-Settles :
      (c : Waiting A) (a : A) (rest : List A)
      → c.channel ≡ a ∷ rest
      → Settles c
      → Settles (record c { channel = rest; returned = some (got a) })
  took-Settles c a rest h (unanswered e f g) = absurd cc
  took-Settles c a rest h (answered b e (inl f) g) = absurd cc
  took-Settles c a rest h (answered b e (inr f) g) = answered b e (inl cc) (λ x q. cc)

  left-Settles : (c : Waiting A) → Settles c → Settles (record c { returned = some gave_up })
  left-Settles c (unanswered e f g) = unanswered e f (λ x q. cc)
  left-Settles c (answered b e f g) = answered b e f (λ x q. absurd cc)

  receive_from-Inv :
      (p : Pending A) (i : ℕ) (c : Waiting A) (xs : List A)
      → get_elem? p.calls i ≡ some c
      → c.channel ≡ xs
      → Inv p
      → Inv (receive_from i c p xs)
  unfolding receive_from return_call
  receive_from-Inv p i c [] at e inv = inv
  receive_from-Inv p i c (a ∷ rest) at e inv =
      set-Inv p i c _ at (took-Settles c a rest e (inv.settled i c at)) inv

  receive_call-Inv :
      (p : Pending A) (i : ℕ) (c : Waiting A) (o : Option (CallEnd A))
      → get_elem? p.calls i ≡ some c
      → Inv p
      → Inv (receive_call i p c o)
  unfolding receive_call
  receive_call-Inv p i c none at inv = receive_from-Inv p i c c.channel at refl inv
  receive_call-Inv p i c (some x) at inv = inv

  give_up_call-Inv :
      (p : Pending A) (i : ℕ) (c : Waiting A) (o : Option (CallEnd A))
      → get_elem? p.calls i ≡ some c
      → Inv p
      → Inv (give_up_call i p c o)
  unfolding give_up_call return_call
  give_up_call-Inv p i c none at inv = set-Inv p i c _ at (left-Settles c (inv.settled i c at)) inv
  give_up_call-Inv p i c (some x) at inv = inv

  at_call-Inv :
      (f : Pending A → Waiting A → Pending A) (p : Pending A) (i : ℕ) (o : Option (Waiting A))
      → ((c : Waiting A) → get_elem? p.calls i ≡ some c → Inv (f p c))
      → get_elem? p.calls i ≡ o
      → Inv p
      → Inv (at_call f p o)
  unfolding at_call
  at_call-Inv f p i none keep e inv = inv
  at_call-Inv f p i (some c) keep e inv = keep c e

  step-Inv : (e : Event A) (p : Pending A) → Inv p → Inv (step e p)
  unfolding step complete_pending_call
  step-Inv begins p inv = begin_call-Inv p inv
  step-Inv draws p inv = record { settled = inv.settled; expected = inv.expected }
  step-Inv (replied id a) p inv = complete_loaded-Inv id a p _ refl inv
  step-Inv (receives i) p inv =
      at_call-Inv (λ q c. receive_call i q c c.returned) p i _
        (λ c at. receive_call-Inv p i c c.returned at inv) refl inv
  step-Inv (gives_up i) p inv =
      at_call-Inv (λ q c. give_up_call i q c c.returned) p i _
        (λ c at. give_up_call-Inv p i c c.returned at inv) refl inv

  run-Inv : (es : List (Event A)) (p : Pending A) → Inv p → Inv (run es p)
  unfolding run
  run-Inv [] p inv = inv
  run-Inv (e ∷ es) p inv = run-Inv es (step e p) (step-Inv e p inv)

  new_pending-Inv : Inv (new_pending {A = A})
  unfolding new_pending load
  new_pending-Inv = record {
    settled = λ i c at. absurd (none-ne-some _ at);
    expected = λ k i at. absurd (none-ne-some _ at);
  }

  -- What a call returned and what its channel holds came from the one reply that carried its id.
  settles_lem :
      (c : Waiting A)
      → Settles c
      → (length c.channel ≤ 1) × ((a : A) → c.returned ≡ some (got a) → c.answers ≡ (c.id, a) ∷ [])
  settles_lem c (unanswered e f g) = (rw f (omega arith), λ a h. absurd (g a h))
  settles_lem c (answered b e (inl f) g) = (rw f (omega arith), λ a h. rw (g a h) e)
  settles_lem c (answered b e (inr f) g) = (rw f (omega arith), λ a h. rw (g a h) e)

  -- However the calls of a session, the replies and the callers' leaving interleave, the channel of a call,
  -- which has room for one result, never holds more than one, so completePendingCall never waits for
  -- room; and a call that returned a result got only one reply, which carried the call's id and that result.
  pub run-AtMostOne :
      (es : List (Event A)) (i : ℕ) (c : Waiting A)
      → get_elem? (run es new_pending).calls i ≡ some c
      → (length c.channel ≤ 1) × ((a : A) → c.returned ≡ some (got a) → c.answers ≡ (c.id, a) ∷ [])
  run-AtMostOne es i c at = settles_lem c ((run-Inv es new_pending new_pending-Inv).settled i c at)
