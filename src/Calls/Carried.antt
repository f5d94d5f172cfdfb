-- ===== src/Calls/Carried.antt =====
-- No request is left on a connection that is gone.
use value_rpc.Prelude.{
  ℕ, ◌≤◌, ◌<◌, ◌≡◌, refl, ◌⊎◌, inl, inr, Bool, true, ◌&&◌, ◌||◌, ◌==◌, either, either_by, subst,
  List, [], ◌∷◌, Option, none, some, Bool-cases, arith,
}
use value_rpc.Serving.{has}
use value_rpc.Calls.{
  Call, Phase, idle, resetting, cutting, replaying, Calls, find_call, has_call, ids, draw, register,
  send, connect, respond, give_up, begin_reconnect, take_cutoff, sweep, end_reconnect, Event, draws,
  registers, sends, responds, gives_up, connects, reconnects, cuts, sweeps, reconnected, step, run,
}
use value_rpc.Calls.Members.{
  has_call-delete_call, has_call-close_call, has_call-delete_all, kept_lem, has_call-kept, has-ids,
  has-append, has-delete_key,
}

-- The request is still to be sent, or was sent on the current connection.
abbrev pub carried : Calls → ℕ → Bool
carried t id = has id t.unsent || has id t.on_current

-- Outside of a Reconnect every registered request is carried; once it has read the last id, this holds of
-- those with a greater one; and when it is about to connect, those that it sends again are the exception.
abbrev pub Accounted : Phase → Calls → ℕ → Type 0
Accounted idle t id = has_call id t.requests ≡ true → carried t id ≡ true
Accounted resetting t id = Unit {0}
Accounted (cutting cutoff) t id = has_call id t.requests ≡ true → cutoff < id → carried t id ≡ true
Accounted (replaying rs) t id =
    has_call id t.requests ≡ true → (carried t id || has_call id rs) ≡ true

-- With the ids bounded by the last one.
abbrev pub IsCarried : Calls → Type 0
IsCarried t =
    ((id : ℕ) → Accounted t.phase t id)
    × ((id : ℕ) → has_call id t.requests ≡ true → id ≤ t.last_request)
    × ((id : ℕ) → has_call id t.drawn ≡ true → id ≤ t.last_request)

-- A step that only adds carried requests, and keeps those carried that were.
keep-Accounted :
    (p : Phase) (t u : Calls) (id : ℕ)
    → (has_call id u.requests ≡ true
        → (carried u id ≡ true)
          ⊎ ((has_call id t.requests ≡ true) × (carried t id ≡ true → carried u id ≡ true)))
    → Accounted p t id
    → Accounted p u id
keep-Accounted idle t u id k a = λ h. elim (k h) [ inl c ↦ c | inr (r, f) ↦ f (a r) ]
keep-Accounted resetting t u id k a = tt
keep-Accounted (cutting cutoff) t u id k a =
    λ h lt. elim (k h) [ inl c ↦ c | inr (r, f) ↦ f (a r lt) ]
keep-Accounted (replaying rs) t u id k a =
    λ h. elim (k h) [ inl c ↦ ground (arith, c) | inr (r, f) ↦ ground (arith, a r, f) ]

draw-IsCarried :
    (unary idempotent : Bool) (t : Calls) → IsCarried t → IsCarried (draw unary idempotent t)
unfolding draw has_call
draw-IsCarried unary idempotent t (a, b, c) = (
  (λ id. keep-Accounted t.phase t _ id (λ h. inr (h, λ x. x)) (a id)),
  (λ id h. ground (arith, b id)),
  (λ id h. ground (arith, c id)),
)

find_call-bound :
    (i last : ℕ) (cs : List Call) (c : Call)
    → find_call i cs ≡ some c
    → ((j : ℕ) → has_call j cs ≡ true → j ≤ last)
    → c.id ≤ last
unfolding find_call has_call
find_call-bound i last [] c e b = cc
find_call-bound i last (d ∷ cs) c e b = elim (Bool-cases (d.id == i)) [
  | inl y ↦ ground (arith, e, y, b d.id)
  | inr n ↦ find_call-bound i last cs c (ground (arith, e, n)) (λ j h. b j (ground (arith, h)))
]

register-IsCarried :
    (o : Option Call) (t : Calls)
    → ((c : Call) → o ≡ some c → c.id ≤ t.last_request)
    → IsCarried t
    → IsCarried (register o t)
unfolding register has_call has
register-IsCarried none t k inv = inv
register-IsCarried (some r) t k (a, b, c) = (
  (λ id.
      keep-Accounted t.phase t _ id
        (λ h. (elim (Bool-cases (r.id == id)) [
          | inl y ↦ inl (ground (arith, y))
          | inr n ↦ inr (ground (arith, h, n), λ x. ground (arith, x))
        ]))
        (a id)),
  (λ id h. ground (arith, b id, k r refl)),
  (λ id h. c id (has_call-delete_call id r.id t.drawn h)),
)

send-IsCarried : (id : ℕ) (t : Calls) → IsCarried t → IsCarried (send id t)
unfolding send has
send-IsCarried i t (a, b, c) =
    either_by IsCarried (t.connected && has i t.unsent)
      (λ y. (
        (λ id.
            keep-Accounted t.phase t _ id
              (λ h. inr (h, λ x. ground (arith, has-delete_key id i t.unsent))) (a id)),
        b,
        c,
      ))
      (λ n. (a, b, c))

connect-IsCarried : (t : Calls) → IsCarried t → IsCarried (connect t)
unfolding connect
connect-IsCarried t (a, b, c) =
    ((λ id. keep-Accounted t.phase t _ id (λ h. inr (h, λ x. x)) (a id)), b, c)

respond-IsCarried : (i : ℕ) (t : Calls) → IsCarried t → IsCarried (respond i t)
unfolding respond
respond-IsCarried i t (a, b, c) = (
  (λ id.
      keep-Accounted t.phase t _ id (λ h. inr (has_call-delete_call id i t.requests h, λ x. x))
        (a id)),
  (λ id h. b id (has_call-delete_call id i t.requests h)),
  c,
)

give_up-IsCarried : (i : ℕ) (t : Calls) → IsCarried t → IsCarried (give_up i t)
unfolding give_up
give_up-IsCarried i t (a, b, c) = (
  (λ id.
      keep-Accounted t.phase t _ id (λ h. inr (has_call-close_call id i t.requests h, λ x. x))
        (a id)),
  (λ id h. b id (has_call-close_call id i t.requests h)),
  c,
)

begin-IsCarried :
    (p : Phase) (t : Calls) → t.phase ≡ p → IsCarried t → IsCarried (begin_reconnect p t)
unfolding begin_reconnect
begin-IsCarried idle t e (a, b, c) = ((λ id. tt), b, c)
begin-IsCarried resetting t e inv = inv
begin-IsCarried (cutting n) t e inv = inv
begin-IsCarried (replaying rs) t e inv = inv

cut-IsCarried : (p : Phase) (t : Calls) → t.phase ≡ p → IsCarried t → IsCarried (take_cutoff p t)
unfolding take_cutoff
cut-IsCarried idle t e inv = inv
cut-IsCarried resetting t e (a, b, c) = ((λ id h lt. absurd (late id (b id h) lt)), b, c)
  where
    late : (id : ℕ) → id ≤ t.last_request → t.last_request < id → ⊥
    late id le lt = omega arith
cut-IsCarried (cutting n) t e inv = inv
cut-IsCarried (replaying rs) t e inv = inv

sweep-IsCarried : (p : Phase) (t : Calls) → t.phase ≡ p → IsCarried t → IsCarried (sweep p t)
unfolding sweep
sweep-IsCarried idle t e inv = inv
sweep-IsCarried resetting t e inv = inv
sweep-IsCarried (cutting n) t e (a, b, c) =
    let accounted = subst (λ p. (id : ℕ) → Accounted p t id) e a in
    (
      (λ id h. ground (arith, kept_lem n id t.requests h, accounted id)),
      (λ id h. b id (has_call-kept n id t.requests h)),
      c,
    )
sweep-IsCarried (replaying rs) t e inv = inv

end-IsCarried :
    (dialed : Bool) (p : Phase) (t : Calls)
    → t.phase ≡ p
    → IsCarried t
    → IsCarried (end_reconnect dialed p t)
unfolding end_reconnect connect
end-IsCarried dialed idle t e inv = inv
end-IsCarried dialed resetting t e inv = inv
end-IsCarried dialed (cutting n) t e inv = inv
end-IsCarried dialed (replaying rs) t e (a, b, c) =
    let accounted = subst (λ p. (id : ℕ) → Accounted p t id) e a in
    either IsCarried (t.connected || dialed)
      (
        (λ id h.
            ground (arith, accounted id h, has-append id (ids rs) t.on_current, has-ids id rs)),
        b,
        c,
      )
      (
        (λ id h.
            (let (p, q) = has_call-delete_all id rs t.requests h in
              ground (arith, accounted id p, q))),
        (λ id h. b id (has_call-delete_all id rs t.requests h).0),
        c,
      )

step-IsCarried : (e : Event) (t : Calls) → IsCarried t → IsCarried (step e t)
unfolding step
step-IsCarried (draws unary idempotent) t inv = draw-IsCarried unary idempotent t inv
step-IsCarried (registers id) t inv =
    register-IsCarried (find_call id t.drawn) t
      (λ c e. find_call-bound id t.last_request t.drawn c e inv.2) inv
step-IsCarried (sends id) t inv = send-IsCarried id t inv
step-IsCarried (responds id) t inv = respond-IsCarried id t inv
step-IsCarried (gives_up id) t inv = give_up-IsCarried id t inv
step-IsCarried connects t inv = connect-IsCarried t inv
step-IsCarried reconnects t inv = begin-IsCarried t.phase t refl inv
step-IsCarried cuts t inv = cut-IsCarried t.phase t refl inv
step-IsCarried sweeps t inv = sweep-IsCarried t.phase t refl inv
step-IsCarried (reconnected dialed) t inv = end-IsCarried dialed t.phase t refl inv

-- However callers and a Reconnect interleave, this stays true if it was, as it is of a new client: when no
-- Reconnect is under way, every request that is registered is still to be sent, or was sent on the
-- current connection; while one is, the same holds of the requests above the last id that it has read,
-- and then of all but those that it is about to send again. No registered id is above the last one drawn.
pub run-IsCarried : (es : List Event) (t : Calls) → IsCarried t → IsCarried (run es t)
unfolding run
run-IsCarried [] t inv = inv
run-IsCarried (e ∷ es) t inv = run-IsCarried es (step e t) (step-IsCarried e t inv)
