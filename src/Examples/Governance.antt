-- ===== src/Examples/Governance.antt =====
-- The retry loop and the breaker with small settings, a chain of interceptors.
use value_rpc.Resilience.Bulkhead
use value_rpc.Resilience.Bulkhead.Bounded.{in_next, in_next-run}
use value_rpc.Serving.Totals.{total}
use value_rpc.Prelude.{
  List, get_elem?, ◌<◌, ◌≤◌, ℕ, zero, suc, ◌≡◌, refl, ◌==◌, true, false, [], ◌∷◌, none, some, arith,
}
use value_rpc.Resilience.Breaker.{
  Breaker, new_breaker, run, step, allow, record_outcome, asks, ends, state_open, state_closed,
}
use value_rpc.Resilience.Breaker
use value_rpc.Resilience.Breaker.Invariant.{Inv, counts_hold}
use value_rpc.Resilience.Breaker.Trip.{failures, trips_at_threshold}
use value_rpc.Resilience.Retry.{Config, Outcome, Trace, retry}
use value_rpc.Resilience.Retry.Bounds.{Ends, retry-Ends}

abbrev three_failures : Breaker.Config
three_failures = record { threshold = 3; cooldown = 100; max_probes = 1 }

counts_hold_example :
    Inv three_failures (run three_failures ((0, asks) ∷ (1, ends true) ∷ []) new_breaker)
counts_hold_example = counts_hold three_failures ((0, asks) ∷ (1, ends true) ∷ []) (omega arith)

trips_at_threshold_example :
    let b' = run three_failures (failures (1 ∷ 2 ∷ [])) new_breaker in
    (b' ≡ record new_breaker { consec = 2 })
    × (step three_failures (3, ends false) b' ≡ new_breaker)
    × ((step three_failures (3, ends true) b').state ≡ state_open)
    × ((step three_failures (3, ends true) b').opened_at ≡ 3)
unfolding new_breaker
trips_at_threshold_example =
    trips_at_threshold three_failures (1 ∷ 2 ∷ []) 3 new_breaker (omega arith) refl refl

abbrev patient : Config ℕ
patient = record { max_attempts = 3; base = 10; max = 15; jitter = true; retryable = λ e. e == 7 }

-- The first two attempts fail with the error 7.
abbrev flaky : ℕ → Outcome ℕ ℕ
flaky zero = record { value = 0; error = some 7 }
flaky (suc zero) = record { value = 0; error = some 7 }
flaky (suc (suc zero)) = record { value = 0; error = some 7 }
flaky (suc (suc (suc n))) = record { value = 42; error = none }

retry-Ends_example :
    (t : Trace ℕ ℕ) × (retry patient flaky (λ n k. 0) (λ n. true) ≡ some t)
    × Ends patient flaky (λ n k. 0) (λ n. true) 1 t
retry-Ends_example = retry-Ends patient flaky (λ n k. 0) (λ n. true) (omega arith) (omega arith)

-- Two slots, three calls, one of which returns.
abbrev crowd : List Bulkhead.Event
crowd =
    Bulkhead.calls_in
    ∷ Bulkhead.calls_in
    ∷ Bulkhead.calls_in
    ∷ Bulkhead.enters 0
    ∷ Bulkhead.enters 1
    ∷ Bulkhead.enters 2
    ∷ Bulkhead.leaves 0
    ∷ []

in_next-run_example :
    let b = Bulkhead.run crowd (Bulkhead.new_bulkhead 2) in
    (total in_next b.calls ≤ Bulkhead.at_least_one 2)
    × ((i : ℕ)
        → get_elem? b.calls i ≡ some Bulkhead.waiting
        → total in_next b.calls < Bulkhead.at_least_one 2
        → get_elem? (Bulkhead.step (Bulkhead.enters i) b).calls i ≡ some Bulkhead.running)
in_next-run_example = in_next-run 2 crowd
