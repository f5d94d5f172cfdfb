-- ===== src/Calls/Backoff/Enough.antt =====
-- When the reconnect attempts end, and how long they wait.
use value_rpc.Prelude.{
  ℕ, zero, suc, ◌+◌, ◌/◌, ◌≤◌, ◌<◌, ◌≡◌, sym, subst, ◌⊎◌, inl, inr, Bool, true, false, ◌==◌, List,
  [], ◌∷◌, Option, none, some, length, Bool-cases, ℕ_discrete, half64, two63, arith,
}
use mathlib.Core.Option
use value_rpc.Calls.Backoff.{
  ReconnectPolicy, Ended, after_wait, first_delay, longest_delay, may_try, jittered, next_delay,
  retry_loop, retry_reconnect,
}

abbrev pub AllUpTo : ℕ → List ℕ → Type 0
AllUpTo bound [] = Unit {0}
AllUpTo bound (d ∷ ds) = (d ≤ bound) × AllUpTo bound ds

-- A result, with at most `n` waits, none longer than `bound`.
abbrev pub EndsWithin : ℕ → ℕ → Option (List ℕ × Ended) → Type 0
EndsWithin n bound none = ⊥
EndsWithin n bound (some (ds, e)) = (length ds ≤ n) × AllUpTo bound ds

later-EndsWithin :
    (n bound d : ℕ) (r : Option (List ℕ × Ended))
    → d ≤ bound
    → EndsWithin n bound r
    → EndsWithin (suc n) bound (Option.map (after_wait d) r)
later-EndsWithin n bound d none h f = f
later-EndsWithin n bound d (some (ds, e)) h (l, a) = (omega (arith, l), (h, a))

half_of : (d : ℕ) → d < two63 → half64 d ≡ d / 2
half_of d h = ground arith

module _ (p : ReconnectPolicy) (random : ℕ → ℕ → ℕ) (waits dials : ℕ → Bool)
    (draws_below : (k n : ℕ) → 0 < n → random k n < n) (bound : ℕ)
    (small : bound < 4_611_686_018_427_387_904)
    (capped : longest_delay p random waits dials ≤ bound) where
  jittered_le : (k d : ℕ) → d ≤ bound → jittered p random waits dials k d ≤ bound
  unfolding jittered
  jittered_le k d h =
      ground (arith, half_of d (omega arith), draws_below k (d / 2 + 1) (omega arith))

  next_delay_le : (d : ℕ) → d ≤ bound → next_delay p random waits dials d ≤ bound
  unfolding next_delay
  next_delay_le d h = ground (arith, capped)

  -- The attempt is the last one: none may follow, the client is closed while it waits, or it connects.
  abbrev pub IsLast : ℕ → Type 0
  IsLast k = (may_try p random waits dials k ≡ false) ⊎ (waits k ≡ false) ⊎ (dials k ≡ true)

  not_last :
      (i k : ℕ)
      → may_try p random waits dials i ≡ true
      → waits i ≡ true
      → dials i ≡ false
      → IsLast k
      → i ≤ k
      → suc i ≤ k
  not_last i k m w d last le = elim (ℕ_discrete i k) [
    | no ne ↦ omega arith
    | yes e ↦ absurd (clash (subst IsLast (sym e) last))
  ]
    where
      clash : IsLast i → ⊥
      clash (inl n) = cc
      clash (inr (inl n)) = cc
      clash (inr (inr y)) = cc

  retry_loop-EndsWithin :
      (rounds attempt delay k : ℕ)
      → delay ≤ bound
      → attempt ≤ k
      → k < attempt + rounds
      → IsLast k
      → EndsWithin rounds bound (retry_loop p random waits dials rounds attempt delay)
  unfolding retry_loop
  retry_loop-EndsWithin zero attempt delay k h lo hi last = omega arith
  retry_loop-EndsWithin (suc rounds) attempt delay k h lo hi last =
      elim (Bool-cases (may_try p random waits dials attempt)) [
        | inr no' ↦ rw no' (omega arith, tt)
        | inl may ↦ rw may (elim (Bool-cases (waits attempt)) [
          | inr no' ↦ rw no' (omega arith, (jittered_le attempt delay h, tt))
          | inl up ↦ rw up (elim (Bool-cases (dials attempt)) [
            | inl yes' ↦ rw yes' (omega arith, (jittered_le attempt delay h, tt))
            | inr no' ↦ rw no' (
                later-EndsWithin rounds bound (jittered p random waits dials attempt delay) _
                  (jittered_le attempt delay h)
                  (retry_loop-EndsWithin rounds (suc attempt)
                    (next_delay p random waits dials delay) k (next_delay_le delay h)
                    (not_last attempt k may up no' last lo) (omega arith) last))
          ])
        ])
      ]

  -- Let rand.Int63n stay below its argument and a bound below 2^62 ns hold for the first delay and for the
  -- cap of the delays. If there is a last attempt, the one after the allowed number, one during which
  -- the client is closed or one that connects, then that many rounds are enough: the loop ends, with at
  -- most one wait in a round and none above the bound.
  pub retry_reconnect-EndsWithin :
      (rounds k : ℕ)
      → 1 ≤ k
      → k ≤ rounds
      → IsLast k
      → first_delay p random waits dials ≤ bound
      → EndsWithin rounds bound (retry_reconnect p random waits dials rounds)
  unfolding retry_reconnect
  retry_reconnect-EndsWithin rounds k lo hi last h = elim (Bool-cases (p.max_attempts == 0)) [
    | inl y ↦ rw y (omega arith, tt)
    | inr n ↦ rw n (
        retry_loop-EndsWithin rounds 1 (first_delay p random waits dials) k h lo (omega arith) last)
  ]
