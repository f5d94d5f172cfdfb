-- ===== src/Resilience/Breaker.antt =====
-- resilience/breaker.go. An instant is a number of nanoseconds; a duration, a count and a setting are
-- int64 patterns. An interceptor's calls overlap, so a run is a list of admissions and outcomes.
pub mod Invariant
pub mod Trip
use Prim.Native.Nat.{min}
use value_rpc.Prelude.{
  ℕ, ◌-◌, Bool, true, false, not, ◌||◌, ◌==◌, if◌then◌else◌, List, [], ◌∷◌, Option, none, some,
  add64, sub64, sle, slt, two63,
}
use value_rpc.Errors.{
  Errors, code_of, code_invalid_argument, code_not_found, code_unauthenticated, code_canceled,
}

pub data BreakerState : Type 0 where
  state_closed state_open state_half_open : BreakerState

pub record Config : Type 0 where
  pub threshold : ℕ
  pub cooldown : ℕ
  pub max_probes : ℕ

pub record Breaker : Type 0 where
  pub state : BreakerState
  pub consec : ℕ
  pub opened_at : ℕ
  pub probes : ℕ

abbrev pub at_least_one : ℕ → ℕ
at_least_one n = if slt n 1 then 1 else n

unfoldable pub with_failure_threshold : ℕ → Config → Config
with_failure_threshold n c = record c { threshold = at_least_one n }

unfoldable pub with_cooldown : ℕ → Config → Config
with_cooldown t c = record c { cooldown = t }

unfoldable pub with_half_open_probes : ℕ → Config → Config
with_half_open_probes n c = record c { max_probes = at_least_one n }

unfoldable pub default_config : Config
default_config = record { threshold = 5; cooldown = 10_000_000_000; max_probes = 1 }

unfoldable pub new_breaker : Breaker
new_breaker = record { state = state_closed; consec = 0; opened_at = 0; probes = 0 }

unfoldable pub default_is_failure : (e : Errors) → Option e.Err → Bool
unfolding code_of
default_is_failure e none = false
default_is_failure e (some x) =
    let c = code_of e (some x) in
    not (
      c == code_invalid_argument
      || c == code_not_found
      || c == code_unauthenticated
      || c == code_canceled)

-- time.Since, which stops at the largest duration.
abbrev pub since : ℕ → ℕ → ℕ
since now t = min (now - t) 0x7fffffffffffffff

unfoldable pub trip : ℕ → Breaker → Breaker
trip now b = record b { state = state_open; opened_at = now; probes = 0 }

unfoldable pub allow_in : Config → ℕ → BreakerState → Breaker → Breaker × Bool
allow_in c now state_open b =
    if sle c.cooldown (since now b.opened_at)
    then (record b { state = state_half_open; probes = 1 }, true)
    else (b, false)
allow_in c now state_half_open b =
    if slt b.probes c.max_probes then (record b { probes = add64 b.probes 1 }, true) else (b, false)
allow_in c now state_closed b = (b, true)

unfoldable pub allow : Config → ℕ → Breaker → Breaker × Bool
unfolding allow_in
allow c now b = allow_in c now b.state b

unfoldable pub record_in : Config → ℕ → Bool → BreakerState → Breaker → Breaker
unfolding trip
record_in c now true state_closed b =
    let b' = record b { consec = add64 b.consec 1 } in
    if sle c.threshold b'.consec then trip now b' else b'
record_in c now false state_closed b = record b { consec = 0 }
record_in c now true state_half_open b = trip now b
record_in c now false state_half_open b =
    let b' = record b { probes = sub64 b.probes 1 } in
    if sle b'.probes 0 then record b' { state = state_closed; consec = 0 } else b'
record_in c now failed state_open b = b

unfoldable pub record_outcome : Config → ℕ → Bool → Breaker → Breaker
unfolding record_in
record_outcome c now failed b = record_in c now failed b.state b

-- An admission is asked for, or a call that was admitted ends, with a failure or not.
pub data Event : Type 0 where
  asks : Event
  ends : Bool → Event

unfoldable pub step : Config → ℕ × Event → Breaker → Breaker
unfolding allow record_outcome
step c (now, asks) b = (allow c now b).0
step c (now, ends failed) b = record_outcome c now failed b

unfoldable pub run : Config → List (ℕ × Event) → Breaker → Breaker
run c [] b = b
run c (e ∷ es) b = run c es (step c e b)
