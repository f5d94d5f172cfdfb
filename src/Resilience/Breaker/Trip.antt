-- ===== src/Resilience/Breaker/Trip.antt =====
-- When a breaker trips, what it refuses, and how it recovers.
use value_rpc.Prelude.{
  ℕ, suc, ◌+◌, ◌<◌, ◌≡◌, refl, sym, ap, subst, ◌∙◌, Bool, true, false, List, [], ◌∷◌, length, sle,
  arith,
}
use mathlib.Core.List.{map}
use value_rpc.Resilience.Breaker.{
  state_closed, state_open, Config, Breaker, Event, asks, ends, since, trip, allow_in, record_in,
  allow, record_outcome, step, run,
}
use value_rpc.Resilience.Breaker.Invariant.{IsConfig}

abbrev pub failures : List ℕ → List (ℕ × Event)
failures = map (λ t. (t, ends true))

abbrev pub closed_with : ℕ → Breaker → Breaker
closed_with n b = record b { state = state_closed; consec = n }

failure_below :
    (c : Config) (now n : ℕ) (b : Breaker)
    → IsConfig c
    → suc n < c.threshold
    → step c (now, ends true) (closed_with n b) ≡ closed_with (suc n) b
unfolding step record_outcome record_in
failure_below c now n b i h = ground arith

failure_at :
    (c : Config) (now n : ℕ) (b : Breaker)
    → IsConfig c
    → suc n ≡ c.threshold
    → let b' = step c (now, ends true) (closed_with n b) in
      (b'.state ≡ state_open) × (b'.opened_at ≡ now)
unfolding step record_outcome record_in trip
failure_at c now n b i h = ground arith

failures_below :
    (c : Config) (ts : List ℕ) (n : ℕ) (b : Breaker)
    → IsConfig c
    → n + length ts < c.threshold
    → run c (failures ts) (closed_with n b) ≡ closed_with (n + length ts) b
unfolding run
failures_below c [] n b i h = ap (λ k. closed_with k b) (let e : n ≡ n + 0 = omega arith in e)
failures_below c (t ∷ ts) n b i h =
    ap (run c (failures ts)) (failure_below c t n b i (omega arith))
    ∙ failures_below c ts (suc n) b i (omega arith)
    ∙ ap (λ k. closed_with k b) (let e : suc n + length ts ≡ n + suc (length ts) = omega arith in e)

closed_with_self : (b : Breaker) → b.state ≡ state_closed → closed_with b.consec b ≡ b
closed_with_self b e = ap (λ s. record b { state = s }) (sym e)

success_resets :
    (c : Config) (now : ℕ) (b : Breaker)
    → b.state ≡ state_closed
    → step c (now, ends false) b ≡ record b { consec = 0 }
unfolding step record_outcome record_in
success_resets c now b e = rw (e, record_in) refl

-- With a threshold and a number of probes of at least one and below 2 ^ 63, a closed breaker counts
-- failures in a row: one failure short of the threshold it is still closed, a
-- success then starts the count over, and one more failure opens it and starts the cooldown.
pub trips_at_threshold :
    (c : Config) (ts : List ℕ) (t : ℕ) (b : Breaker)
    → IsConfig c
    → b.state ≡ state_closed
    → b.consec + suc (length ts) ≡ c.threshold
    → let b' = run c (failures ts) b in
      (b' ≡ record b { consec = b.consec + length ts })
      × (step c (t, ends false) b' ≡ record b { consec = 0 })
      × ((step c (t, ends true) b').state ≡ state_open)
      × ((step c (t, ends true) b').opened_at ≡ t)
trips_at_threshold c ts t b i e f =
    let p : run c (failures ts) b ≡ closed_with (b.consec + length ts) b =
      subst (λ b₀. run c (failures ts) b₀ ≡ closed_with (b.consec + length ts) b)
        (closed_with_self b e) (failures_below c ts b.consec b i (omega arith)) in
    let q : closed_with (b.consec + length ts) b ≡ record b { consec = b.consec + length ts } =
      ap (λ s. record b { state = s; consec = b.consec + length ts }) (sym e) in
    let opened = failure_at c t (b.consec + length ts) b i (omega arith) in
    (
      p ∙ q,
      ap (step c (t, ends false)) (p ∙ q)
          ∙ success_resets c t (record b { consec = b.consec + length ts }) e,
      rw p opened.0,
      rw p opened.1,
    )

-- The time of every event is before the cooldown has passed.
abbrev pub IsEarly : Config → ℕ → List (ℕ × Event) → Type 0
IsEarly c opened [] = Unit {0}
IsEarly c opened ((now, e) ∷ es) = (sle c.cooldown (since now opened) ≡ false) × IsEarly c opened es

refused_early :
    (c : Config) (now : ℕ) (b : Breaker)
    → b.state ≡ state_open
    → sle c.cooldown (since now b.opened_at) ≡ false
    → allow c now b ≡ (b, false)
unfolding allow
refused_early c now b e h =
    subst (λ s. allow_in c now s b ≡ (b, false)) (sym e) (unfold allow_in in rw h refl)

outcome_ignored :
    (c : Config) (now : ℕ) (failed : Bool) (b : Breaker)
    → b.state ≡ state_open
    → record_outcome c now failed b ≡ b
unfolding record_outcome record_in
outcome_ignored c now true b e = subst (λ s. record_in c now true s b ≡ b) (sym e) refl
outcome_ignored c now false b e = subst (λ s. record_in c now false s b ≡ b) (sym e) refl

early_step :
    (c : Config) (now : ℕ) (e : Event) (b : Breaker)
    → b.state ≡ state_open
    → sle c.cooldown (since now b.opened_at) ≡ false
    → step c (now, e) b ≡ b
unfolding step
early_step c now asks b e h = ap (λ (r : Breaker × Bool). r.0) (refused_early c now b e h)
early_step c now (ends failed) b e h = outcome_ignored c now failed b e

-- While the cooldown lasts an open breaker refuses every call, and no outcome of calls that were
-- admitted before changes it.
pub open_fails_fast :
    (c : Config) (es : List (ℕ × Event)) (now : ℕ) (b : Breaker)
    → b.state ≡ state_open
    → IsEarly c b.opened_at es
    → sle c.cooldown (since now b.opened_at) ≡ false
    → allow c now (run c es b) ≡ (b, false)
unfolding run
open_fails_fast c [] now b e early h = refused_early c now b e h
open_fails_fast c ((t, x) ∷ es) now b e early h =
    ap (λ b'. allow c now (run c es b')) (early_step c t x b e early.0)
    ∙ open_fails_fast c es now b e early.1 h

-- Once the cooldown has passed the next call is admitted as the first probe. If the outcome that is
-- recorded next is a success the breaker closes with a clean count; if it is a failure the breaker
-- opens for another cooldown.
pub probe_decides :
    (c : Config) (now later : ℕ) (b : Breaker)
    → b.state ≡ state_open
    → sle c.cooldown (since now b.opened_at) ≡ true
    → let (b', admitted) = allow c now b in
      (admitted ≡ true)
      × ((record_outcome c later false b').state ≡ state_closed)
      × ((record_outcome c later false b').consec ≡ 0)
      × ((record_outcome c later true b').state ≡ state_open)
      × ((record_outcome c later true b').opened_at ≡ later)
unfolding allow allow_in record_outcome record_in trip
probe_decides c now later b e h = ground arith
