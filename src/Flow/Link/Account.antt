-- ===== src/Flow/Link/Account.antt =====
-- The account of a stream direction: where the credits of its window are.
use value_rpc.Prelude.{
  ℕ, ◌+◌, ◌≤◌, ◌<◌, ◌≡◌, ◌⊎◌, Bool, true, false, List, [], ◌∷◌, Option, none, some, length, sum,
  two63, minus_one,
}
use value_rpc.Flow.StreamPump.Pending.{IsInRange}
use value_rpc.Flow.StreamPump.Occupancy.{occupancy}
use value_rpc.Flow.Meter.{batch_of}
use value_rpc.Flow.Link.{Link}

module _ {A : Type 0} where
  -- The values between the sender and the consumer.
  abbrev pub travelling : Link A → ℕ
  travelling s = length s.wire + occupancy s.pump

  -- The null values on the way.
  unfoldable pub nulls : List (Option A) → ℕ
  nulls [] = 0
  nulls (none ∷ rest) = nulls rest + 1
  nulls (some v ∷ rest) = nulls rest

  -- The credits that are not used: at the sender, or on the way to it.
  abbrev pub unused : Link A → ℕ
  unused s = s.gate.credit + sum s.grants

  -- The credits of the values that are past the sender, and not granted again.
  abbrev pub spent : Link A → ℕ
  spent s = travelling s + s.meter.delivered + s.nulls_lost

  -- The parts of the window add up, and exactly so unless the pump was ended.
  abbrev pub IsSettled : ℕ → Link A → Type 0
  IsSettled w s =
      (s.meter.delivered < batch_of w)
      × (unused s + spent s ≤ w)
      × (s.pump.input_end ≡ false → s.pump.stopped ≡ false → unused s + spent s ≡ w)

  -- Before the window is opened only the StreamReady travels.
  abbrev pub IsOpening : Link A → Type 0
  IsOpening s =
      (unused s ≡ 0)
      × (s.grants ≡ [])
      × (nulls s.wire + s.nulls_lost ≡ 0)
      × (((s.pump.out ≡ []) × (s.meter.delivered ≡ minus_one) × (travelling s ≤ 1))
          ⊎ ((s.meter.delivered ≡ 0) × (travelling s ≡ 0)))

  abbrev pub Phase : ℕ → Link A → Bool → Type 0
  Phase w s true = IsSettled w s
  Phase w s false = IsOpening s

  pub record Inv (w : ℕ) (s : Link A) : Type 0 where
    pub positive : 0 < w
    pub small : w < two63
    pub in_range : IsInRange s.pump
    pub bound : s.pump.max_pending ≡ w
    pub calm : s.pump.overflow ≡ false
    pub metered : s.meter.window ≡ w
    pub phase : Phase w s s.opened
