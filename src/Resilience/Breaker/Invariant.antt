-- ===== src/Resilience/Breaker/Invariant.antt =====
-- What holds of a breaker after any overlapping calls.
use value_rpc.Prelude.{
  ℕ, ◌≤◌, ◌<◌, ◌≡◌, refl, Bool, true, false, List, [], ◌∷◌, two63, two64, arith,
}
use value_rpc.Resilience.Breaker.{
  BreakerState, state_closed, state_open, state_half_open, Config, Breaker, Event, asks, ends,
  with_failure_threshold, with_half_open_probes, default_config, new_breaker, trip, allow_in,
  record_in, allow, record_outcome, step, run,
}

pub record IsConfig (c : Config) : Type 0 where
  pub threshold_positive : 0 < c.threshold
  pub threshold_small : c.threshold < two63
  pub probes_positive : 0 < c.max_probes
  pub probes_small : c.max_probes < two63

-- Whatever numbers the options are given, the settings are positive.
options-IsConfig :
    (n m : ℕ)
    → n < two64
    → m < two64
    → IsConfig (with_failure_threshold n (with_half_open_probes m default_config))
unfolding with_failure_threshold with_half_open_probes default_config
options-IsConfig n m h k = ground arith

abbrev pub Counts : Config → BreakerState → Breaker → Type 0
Counts c state_closed b = b.consec < c.threshold
Counts c state_open b = b.probes ≡ 0
Counts c state_half_open b = (0 < b.probes) × (b.probes ≤ c.max_probes)

abbrev pub Inv : Config → Breaker → Type 0
Inv c b = Counts c b.state b

allow_in-Inv :
    (c : Config) (now : ℕ) (b : Breaker) (s : BreakerState)
    → IsConfig c
    → b.state ≡ s
    → Counts c s b
    → Inv c (allow_in c now s b).0
unfolding allow_in
allow_in-Inv c now b state_closed i e h = ground arith
allow_in-Inv c now b state_open i e h = ground arith
allow_in-Inv c now b state_half_open i e h = ground arith

record_in-Inv :
    (c : Config) (now : ℕ) (failed : Bool) (b : Breaker) (s : BreakerState)
    → IsConfig c
    → b.state ≡ s
    → Counts c s b
    → Inv c (record_in c now failed s b)
unfolding record_in trip
record_in-Inv c now true b state_closed i e h = ground arith
record_in-Inv c now false b state_closed i e h = ground arith
record_in-Inv c now true b state_open i e h = ground arith
record_in-Inv c now false b state_open i e h = ground arith
record_in-Inv c now true b state_half_open i e h = ground arith
record_in-Inv c now false b state_half_open i e h = ground arith

step-Inv : (c : Config) (e : ℕ × Event) (b : Breaker) → IsConfig c → Inv c b → Inv c (step c e b)
unfolding step allow record_outcome
step-Inv c (now, asks) b i h = allow_in-Inv c now b b.state i refl h
step-Inv c (now, ends failed) b i h = record_in-Inv c now failed b b.state i refl h

run-Inv_of :
    (c : Config) (es : List (ℕ × Event)) (b : Breaker) → IsConfig c → Inv c b → Inv c (run c es b)
unfolding run
run-Inv_of c [] b i h = h
run-Inv_of c (e ∷ es) b i h = run-Inv_of c es (step c e b) i (step-Inv c e b i h)

-- With a threshold and a number of probes of at least one and below 2 ^ 63, and after any calls,
-- overlapping in any way, a closed breaker has counted fewer consecutive failures than
-- its threshold, the counter of probes is 0 in an open one, and it is between one and the allowed
-- number in a half-open one. The outcome of a call from before lowers the counter too, so that it can be
-- less than the probes that are under way.
pub counts_hold : (c : Config) (es : List (ℕ × Event)) → IsConfig c → Inv c (run c es new_breaker)
unfolding new_breaker
counts_hold c es i = run-Inv_of c es new_breaker i (omega arith)
