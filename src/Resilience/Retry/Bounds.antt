-- ===== src/Resilience/Retry/Bounds.antt =====
-- How often a call is made, what the caller gets, and how long the waits are.
use value_rpc.Prelude.{
  ℕ, zero, suc, ◌+◌, ◌/◌, ◌≤◌, ◌<◌, ◌≡◌, refl, ◌⊎◌, inl, inr, Bool, true, false, List, [], ◌∷◌,
  Option, none, some, two63, Bool-cases, ℕ_discrete, arith,
}
use mathlib.Core.Option
use value_rpc.Resilience.Retry.{
  Config, Outcome, Trace, may_retry, stops, doubled, wait_of, after_wait, retry_loop, retry,
}

-- 2 ^ 62.
abbrev pub half_range : ℕ
half_range = 4_611_686_018_427_387_904

module _ {A E : Type 0} (c : Config E) (next : ℕ → Outcome A E) (random : ℕ → ℕ → ℕ)
    (fires : ℕ → Bool) where
  -- The attempts from `first` on up to the last one failed in a way that may be retried, and the last
  -- one is the caller's; it is the last because it succeeded or may not be retried or no attempt is
  -- left, or because the context ended while it waited.
  pub record Ends (first : ℕ) (t : Trace A E) : Type 0 where
    pub begun : first ≤ t.attempts
    pub within : t.attempts ≤ c.max_attempts
    pub result : t.outcome ≡ next t.attempts
    pub retried : (j : ℕ) → first ≤ j → j < t.attempts → may_retry c (next j).error ≡ true
    pub reason :
        (may_retry c t.outcome.error ≡ false)
        ⊎ (t.attempts ≡ c.max_attempts)
        ⊎ (fires t.attempts ≡ false)

  abbrev pub Gives : ℕ → Option (Trace A E) → Type 0
  Gives first none = ⊥
  Gives first (some t) = Ends first t

  later-Gives :
      (first d : ℕ) (r : Option (Trace A E))
      → may_retry c (next first).error ≡ true
      → Gives (suc first) r
      → Gives first (Option.map (after_wait c next random fires d) r)
  later-Gives first d none m g = g
  later-Gives first d (some t) m g = record {
    begun = omega arith;
    within = g.within;
    result = g.result;
    retried = λ j lo hi. elim (ℕ_discrete j first) [
      | yes e ↦ rw e m
      | no ne ↦ g.retried j (omega arith) hi
    ];
    reason = g.reason;
  }

  now-Ends :
      (attempt : ℕ) (waits : List ℕ)
      → attempt ≤ c.max_attempts
      → (may_retry c (next attempt).error ≡ false)
        ⊎ (attempt ≡ c.max_attempts)
        ⊎ (fires attempt ≡ false)
      → Ends attempt (record { outcome = next attempt; attempts = attempt; waits = waits })
  now-Ends attempt waits le why = record {
    begun = omega arith;
    within = le;
    result = refl;
    retried = λ j lo hi. absurd (omega arith);
    reason = why;
  }

  stops_cases :
      (attempt : ℕ)
      → attempt ≤ c.max_attempts
      → c.max_attempts < two63
      → (stops c attempt (next attempt) ≡ true)
          × ((may_retry c (next attempt).error ≡ false) ⊎ (attempt ≡ c.max_attempts))
        ⊎ (stops c attempt (next attempt) ≡ false)
          × (may_retry c (next attempt).error ≡ true)
          × (attempt < c.max_attempts)
  unfolding stops
  stops_cases attempt le small = ground arith

  loop-Gives :
      (rounds attempt delay : ℕ)
      → c.max_attempts < rounds + attempt
      → attempt ≤ c.max_attempts
      → c.max_attempts < two63
      → Gives attempt (retry_loop c next random fires rounds attempt delay)
  unfolding retry_loop
  loop-Gives zero attempt delay fuel le small = absurd (omega arith)
  loop-Gives (suc rounds) attempt delay fuel le small = elim (stops_cases attempt le small) [
    | inl (e, inl m) ↦ rw e (now-Ends attempt [] le (inl m))
    | inl (e, inr m) ↦ rw e (now-Ends attempt [] le (inr (inl m)))
    | inr (e, m, lt) ↦ rw e (elim (Bool-cases (fires attempt)) [
      | inl f ↦ rw f (
          later-Gives attempt _ _ m
            (loop-Gives rounds (suc attempt) (doubled c delay) (omega arith) lt small))
      | inr f ↦ rw f (now-Ends attempt _ le (inr (inr f)))
    ])
  ]

  -- With at least one attempt allowed, and fewer than 2 ^ 63, the retry loop ends with at most the allowed
  -- number of attempts. The caller gets the outcome of the last one, which succeeded, or may not be
  -- retried, or was the last one allowed, or was followed by the end of the context; every one before it
  -- failed in a way that may be retried.
  pub retry-Ends :
      0 < c.max_attempts
      → c.max_attempts < two63
      → (t : Trace A E) × (retry c next random fires ≡ some t) × Ends 1 t
  unfolding retry
  retry-Ends p small =
      found (retry_loop c next random fires c.max_attempts 1 c.base)
        (loop-Gives c.max_attempts 1 c.base (omega arith) p small)
    where
      found : (r : Option (Trace A E)) → Gives 1 r → (t : Trace A E) × (r ≡ some t) × Ends 1 t
      found none g = absurd g
      found (some t) g = (t, refl, g)

  abbrev pub EachWithin : ℕ → List ℕ → Type 0
  EachWithin bound [] = Unit {0}
  EachWithin bound (d ∷ ds) = (d ≤ bound) × EachWithin bound ds

  abbrev pub WaitsWithin : ℕ → Option (Trace A E) → Type 0
  WaitsWithin bound none = Unit {0}
  WaitsWithin bound (some t) = EachWithin bound t.waits

  wait_le :
      (attempt delay : ℕ)
      → ((n k : ℕ) → 0 < k → random n k < k)
      → delay < two63
      → wait_of c next random fires attempt delay ≤ delay
  unfolding wait_of
  wait_le attempt delay r h = ground (arith, r attempt (delay / 2 + 1))

  doubled_le : (delay : ℕ) → delay ≤ c.max → c.max < half_range → doubled c delay ≤ c.max
  unfolding doubled
  doubled_le delay le h = ground arith

  map-WaitsWithin :
      (d bound : ℕ) (r : Option (Trace A E))
      → d ≤ bound
      → WaitsWithin bound r
      → WaitsWithin bound (Option.map (after_wait c next random fires d) r)
  map-WaitsWithin d bound none le w = w
  map-WaitsWithin d bound (some t) le w = (le, w)

  loop-WaitsWithin :
      (rounds attempt delay : ℕ)
      → ((n k : ℕ) → 0 < k → random n k < k)
      → delay ≤ c.max
      → c.max < half_range
      → WaitsWithin c.max (retry_loop c next random fires rounds attempt delay)
  unfolding retry_loop
  loop-WaitsWithin zero attempt delay r le h = tt
  loop-WaitsWithin (suc rounds) attempt delay r le h =
      elim (Bool-cases (stops c attempt (next attempt))) [
        | inl s ↦ rw s tt
        | inr s ↦ rw s (elim (Bool-cases (fires attempt)) [
          | inl f ↦ rw f (
              map-WaitsWithin _ c.max _ wait (
                loop-WaitsWithin rounds (suc attempt) (doubled c delay) r (doubled_le delay le h)
                  h))
          | inr f ↦ rw f (wait, tt)
        ])
      ]
    where
      wait : wait_of c next random fires attempt delay ≤ c.max
      wait = let w = wait_le attempt delay r (omega arith) in omega arith

  -- When the first delay is at most the cap, the cap is below 2^62 ns and the random source stays below
  -- its bound, no wait of a run is longer than the cap: neither the doubling nor the jitter overflows.
  pub retry_waits_bounded :
      ((n k : ℕ) → 0 < k → random n k < k)
      → c.base ≤ c.max
      → c.max < half_range
      → WaitsWithin c.max (retry c next random fires)
  unfolding retry
  retry_waits_bounded r le h = loop-WaitsWithin c.max_attempts 1 c.base r le h
