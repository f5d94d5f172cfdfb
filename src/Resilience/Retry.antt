-- ===== src/Resilience/Retry.antt =====
-- resilience/retry.go. Durations and counts are int64 patterns. The call that is retried, the random
-- source and the end of each wait are parameters: `next` gives the outcome of the n-th attempt,
-- `random` what rand.Int64N gives after it, and `fires` tells whether the timer of the wait that follows
-- it fires before the context ends.
pub mod Bounds
use value_rpc.Prelude.{
  ℕ, zero, suc, ◌+◌, Bool, true, false, not, ◌&&◌, ◌||◌, ◌==◌, if◌then◌else◌, List, [], ◌∷◌, Option,
  none, some, add64, sle, slt, half64,
}
use mathlib.Core.Option
use value_rpc.Errors.{Errors, code_of, code_unavailable, code_resource_exhausted}

pub record Config (E : Type 0) : Type 0 where
  pub max_attempts : ℕ
  pub base : ℕ
  pub max : ℕ
  pub jitter : Bool
  pub retryable : E → Bool

pub record Outcome (A E : Type 0) : Type 0 where
  pub value : A
  pub error : Option E

-- The outcome that the caller gets, the number of attempts, and the waits between them.
pub record Trace (A E : Type 0) : Type 0 where
  pub outcome : Outcome A E
  pub attempts : ℕ
  pub waits : List ℕ

unfoldable pub with_max_attempts : {E : Type 0} → ℕ → Config E → Config E
with_max_attempts n c = record c { max_attempts = if slt n 1 then 1 else n }

unfoldable pub with_backoff : {E : Type 0} → ℕ → ℕ → Config E → Config E
with_backoff base max c = record c { base = base; max = max }

unfoldable pub with_jitter : {E : Type 0} → Bool → Config E → Config E
with_jitter on c = record c { jitter = on }

unfoldable pub default_retryable : (e : Errors) → e.Err → Bool
unfolding code_of
default_retryable e x =
    let c = code_of e (some x) in c == code_unavailable || c == code_resource_exhausted

unfoldable pub default_config : (e : Errors) → Config e.Err
default_config e = record {
  max_attempts = 3;
  base = 50_000_000;
  max = 1_000_000_000;
  jitter = true;
  retryable = default_retryable e;
}

module _ {E : Type 0} (c : Config E) where
  abbrev pub may_retry : Option E → Bool
  may_retry none = false
  may_retry (some x) = c.retryable x

  unfoldable pub stops : {A : Type 0} → ℕ → Outcome A E → Bool
  stops attempt r = sle c.max_attempts attempt || not (may_retry r.error)

  unfoldable pub doubled : ℕ → ℕ
  doubled delay = let d = add64 delay delay in if slt c.max d then c.max else d

module _ {A E : Type 0} (c : Config E) (next : ℕ → Outcome A E) (random : ℕ → ℕ → ℕ)
    (fires : ℕ → Bool) where
  unfoldable pub wait_of : ℕ → ℕ → ℕ
  wait_of attempt delay =
      if c.jitter && slt 0 delay
      then add64 (half64 delay) (random attempt (add64 (half64 delay) 1))
      else delay

  abbrev pub after_wait : ℕ → Trace A E → Trace A E
  after_wait d t = record t { waits = d ∷ t.waits }

  -- The loop, with the rounds that are left.
  unfoldable pub retry_loop : ℕ → ℕ → ℕ → Option (Trace A E)
  retry_loop zero attempt delay = none
  retry_loop (suc rounds) attempt delay =
      let r = next attempt in
      let d = wait_of attempt delay in
      let rest = Option.map (after_wait d) (retry_loop rounds (suc attempt) (doubled c delay)) in
      if stops c attempt r
      then some (record { outcome = r; attempts = attempt; waits = [] })
      else if fires attempt
      then rest
      else some (record { outcome = r; attempts = attempt; waits = d ∷ [] })

  -- As many rounds as attempts are allowed.
  unfoldable pub retry : Option (Trace A E)
  retry = retry_loop c.max_attempts 1 c.base
