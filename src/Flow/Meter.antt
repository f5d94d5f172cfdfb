-- ===== src/Flow/Meter.antt =====
-- The receiver's side of the credit: how many values have been handed over since the last grant. The
-- code stands three times, in valueserver/serving_request.go, valueserver/serving_stream.go and
-- valueclient/request.go. A result `some n` is a StreamCredit message of n values to the sender.
use value_rpc.Prelude.{
  ℕ, suc, ◌+◌, ◌<◌, ◌≤◌, ◌≡◌, refl, Bool, true, if◌then◌else◌, List, [], ◌∷◌, Option, none, some,
  add64, slt, sle, half64, two63, minus_one, arith,
}
use value_rpc.Flow.StreamPump.{StreamPump, Runner, sending, default_max_pending}

pub record Meter : Type 0 where
  pub window : ℕ
  pub delivered : ℕ

abbrev pub batch_of : ℕ → ℕ
batch_of window = let half = half64 window in if slt half 1 then 1 else half

-- `setupInbound`: the window is the configured bound as it is.
unfoldable pub inbound_meter : ℕ → Meter
inbound_meter max_pending = record { window = max_pending; delivered = 0 }

-- The windows of `NewRequestCtx` and `newClientStream`: the counter starts at -1.
unfoldable pub initiator_meter : ℕ → Meter
initiator_meter max_pending = record {
  window = if sle max_pending 0 then default_max_pending else max_pending;
  delivered = minus_one;
}

unfoldable pub grant_inbound : Meter → Meter × Option ℕ
grant_inbound m =
    let n = add64 m.delivered 1 in
    if sle (batch_of m.window) n
    then (record m { delivered = 0 }, some n)
    else (record m { delivered = n }, none)

-- `set` tells whether the `grantCredit` callback is there.
unfoldable pub grant_recv : Bool → Meter → Meter × Option ℕ
grant_recv set m =
    let n = add64 m.delivered 1 in
    if sle (batch_of m.window) n
    then (record m { delivered = 0 }, (if set then some n else none))
    else (record m { delivered = n }, none)

-- The deliver hook of a pump, which its goroutine runs where the consumer's channel takes a value.
unfoldable pub runner_hook :
    {A : Type 0} → (Meter → Meter × Option ℕ) → Runner A → Meter → Meter × Option ℕ
runner_hook hook (sending v) m = hook m
runner_hook hook _ m = (m, none)

unfoldable pub pump_hook :
    {A : Type 0} → (Meter → Meter × Option ℕ) → Option (StreamPump A) → Meter → Meter × Option ℕ
unfolding runner_hook
pump_hook hook none m = (m, none)
pump_hook hook (some p) m = runner_hook hook p.runner m

-- The credits of the StreamCredit messages that are sent.
abbrev pub message : Option ℕ → List ℕ
message none = []
message (some n) = n ∷ []

abbrev pub amount : Option ℕ → ℕ
amount none = 0
amount (some n) = n

pub batch_bounds :
    (w : ℕ) → 0 < w → w < two63 → (0 < batch_of w) × (batch_of w ≤ w) × (batch_of w < two63)
batch_bounds w p h = ground arith

-- With a positive window and less than a batch counted, a delivery adds one to what is counted and
-- granted together, and again leaves less than a batch counted.
pub grant_recv_lem :
    (m : Meter)
    → 0 < m.window
    → m.window < two63
    → m.delivered < batch_of m.window
    → let (m', c) = grant_recv true m in
      (m'.window ≡ m.window)
      × (m'.delivered + amount c ≡ suc m.delivered)
      × (m'.delivered < batch_of m.window)
unfolding grant_recv
grant_recv_lem m p h d = ground (arith, batch_bounds m.window)

pub grant_recv-window : (set : Bool) (m : Meter) → (grant_recv set m).0.window ≡ m.window
unfolding grant_recv
grant_recv-window set m = ground arith

-- The first delivery of an initiated stream, its StreamReady, is not counted.
pub grant_recv_ready :
    (m : Meter)
    → 0 < m.window
    → m.window < two63
    → m.delivered ≡ minus_one
    → grant_recv true m ≡ (record m { delivered = 0 }, none)
unfolding grant_recv
grant_recv_ready m p h e = ground (arith, batch_bounds m.window)

-- The copies of the code agree.
pub grant_recv-eq-grant_inbound : (m : Meter) → grant_recv true m ≡ grant_inbound m
unfolding grant_recv grant_inbound
grant_recv-eq-grant_inbound m = refl
