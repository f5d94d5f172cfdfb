-- ===== src/Calls/Backoff.antt =====
-- retryReconnect of valueclient/client.go, with the policy of valueclient/options.go. Durations and counts
-- are int64 patterns. `random` is rand.Int63n after an attempt's number, `waits` tells whether the client
-- is still open when the wait before an attempt is over, and `dials` whether the attempt connects.
pub mod Enough
use value_rpc.Prelude.{
  ℕ, zero, suc, ◌*◌, ◌%◌, Bool, true, false, not, ◌||◌, ◌==◌, if◌then◌else◌, List, [], ◌∷◌, Option,
  none, some, add64, sle, slt, half64, is_neg, two64,
}
use mathlib.Core.Option

pub record ReconnectPolicy : Type 0 where
  pub initial_backoff : ℕ
  pub max_backoff : ℕ
  pub max_attempts : ℕ
  pub jitter : Bool

abbrev pub default_initial_backoff : ℕ
default_initial_backoff = 100_000_000

abbrev pub default_max_backoff : ℕ
default_max_backoff = 30_000_000_000

pub data Ended : Type 0 where
  connected closed given_up : Ended

abbrev pub after_wait : ℕ → List ℕ × Ended → List ℕ × Ended
after_wait d (ds, e) = (d ∷ ds, e)

module _ (p : ReconnectPolicy) (random : ℕ → ℕ → ℕ) (waits dials : ℕ → Bool) where
  unfoldable pub first_delay : ℕ
  first_delay = if sle p.initial_backoff 0 then default_initial_backoff else p.initial_backoff

  unfoldable pub longest_delay : ℕ
  longest_delay = if sle p.max_backoff 0 then default_max_backoff else p.max_backoff

  unfoldable pub may_try : ℕ → Bool
  may_try attempt = is_neg p.max_attempts || sle attempt p.max_attempts

  -- Equal jitter.
  unfoldable pub jittered : ℕ → ℕ → ℕ
  jittered attempt delay =
      if p.jitter then add64 (half64 delay) (random attempt (add64 (half64 delay) 1)) else delay

  unfoldable pub next_delay : ℕ → ℕ
  unfolding longest_delay
  next_delay delay = let d = delay * 2 % two64 in if slt longest_delay d then longest_delay else d

  -- The loop, with the rounds that are left: the waits, and how it ended.
  unfoldable pub retry_loop : ℕ → ℕ → ℕ → Option (List ℕ × Ended)
  unfolding may_try jittered next_delay
  retry_loop zero attempt delay = none
  retry_loop (suc rounds) attempt delay =
      let d = jittered attempt delay in
      let rest = Option.map (after_wait d) (retry_loop rounds (suc attempt) (next_delay delay)) in
      if not (may_try attempt)
      then some ([], given_up)
      else if not (waits attempt)
      then some (d ∷ [], closed)
      else if dials attempt
      then some (d ∷ [], connected)
      else rest

  unfoldable pub retry_reconnect : ℕ → Option (List ℕ × Ended)
  unfolding first_delay retry_loop
  retry_reconnect rounds =
      if p.max_attempts == 0 then some ([], given_up) else retry_loop rounds 1 first_delay
