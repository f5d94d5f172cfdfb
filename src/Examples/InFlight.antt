-- ===== src/Examples/InFlight.antt =====
-- Calls of a client across a lost connection.
use value_rpc.Prelude.{◌≡◌, ◌≤◌, refl, inl, true, false, List, [], ◌∷◌, some, arith}
use value_rpc.Serving.{has, delete_key}
use value_rpc.Calls.{
  Call, Calls, Event, draws, registers, sends, responds, gives_up, connects, reconnects, cuts,
  sweeps, reconnected, new_calls, find_call, has_call, delete_call, kept, to_fail, to_replay, run,
  idle,
}
use value_rpc.Calls.Backoff.{
  ReconnectPolicy, given_up, first_delay, longest_delay, may_try, jittered, next_delay, retry_loop,
  retry_reconnect,
}
use value_rpc.Calls.Backoff.Enough.{EndsWithin, retry_reconnect-EndsWithin}
use value_rpc.Calls.Carried.{IsCarried, run-IsCarried}
use value_rpc.Calls.Replay.{given_up_replayed}

new_calls-IsCarried : IsCarried new_calls
unfolding new_calls has_call
new_calls-IsCarried = ((λ id h. cc), (λ id h. cc), (λ id h. cc))

abbrev lost_twice : List Event
lost_twice =
    connects
    ∷ draws true true
    ∷ registers 1
    ∷ sends 1
    ∷ draws false false
    ∷ registers 2
    ∷ reconnects
    ∷ cuts
    ∷ draws true false
    ∷ sweeps
    ∷ registers 3
    ∷ reconnected true
    ∷ sends 3
    ∷ responds 1
    ∷ []

run-IsCarried_example : IsCarried (run lost_twice new_calls)
run-IsCarried_example = run-IsCarried lost_twice new_calls new_calls-IsCarried

abbrev ping : Call
ping = record { id = 1; unary = true; idempotent = true; done = false }

abbrev pinging : Calls
pinging = record {
  last_request = 1;
  drawn = [];
  requests = ping ∷ [];
  unsent = [];
  connected = true;
  on_current = 1 ∷ [];
  failed = [];
  phase = idle;
}

pinging_requests : find_call 1 pinging.requests ≡ some ping
unfolding find_call
pinging_requests = refl

given_up_replayed_example :
    let u = run (gives_up 1 ∷ reconnects ∷ cuts ∷ sweeps ∷ reconnected true ∷ []) pinging in
    (has 1 u.on_current ≡ true) × (find_call 1 u.requests ≡ some (record ping { done = true }))
given_up_replayed_example =
    given_up_replayed pinging 1 ping refl pinging_requests refl (omega arith)

-- A stream request that another goroutine sends on a new connection, before Reconnect reads the last
-- id, is failed as lost.
sent_but_failed :
    let t =
      run
        (reconnects ∷ connects ∷ draws false false ∷ registers 1 ∷ sends 1 ∷ cuts ∷ sweeps ∷ [])
        new_calls in
    (t.on_current ≡ 1 ∷ []) × (t.failed ≡ 1 ∷ [])
unfolding run new_calls find_call has delete_key delete_call kept to_fail to_replay
sent_but_failed = (refl, refl)

-- A peer that does not come back, and three attempts.
abbrev persistent : ReconnectPolicy
persistent = record { initial_backoff = 100; max_backoff = 400; max_attempts = 3; jitter = true }

persistent_cap : longest_delay persistent (λ k n. 0) (λ k. true) (λ k. false) ≤ 400
unfolding longest_delay
persistent_cap = omega arith

persistent_first : first_delay persistent (λ k n. 0) (λ k. true) (λ k. false) ≤ 400
unfolding first_delay
persistent_first = omega arith

no_fourth : may_try persistent (λ k n. 0) (λ k. true) (λ k. false) 4 ≡ false
unfolding may_try
no_fourth = refl

retry_reconnect-EndsWithin_example :
    EndsWithin 4 400 (retry_reconnect persistent (λ k n. 0) (λ k. true) (λ k. false) 4)
retry_reconnect-EndsWithin_example =
    retry_reconnect-EndsWithin persistent (λ k n. 0) (λ k. true) (λ k. false) (λ k n h. h) 400
      (omega arith) persistent_cap 4 4 (omega arith) (omega arith) (inl no_fourth) persistent_first

three_waits :
    retry_reconnect persistent (λ k n. 0) (λ k. true) (λ k. false) 4
    ≡ some (50 ∷ 100 ∷ 200 ∷ [], given_up)
unfolding retry_reconnect retry_loop first_delay may_try jittered next_delay longest_delay
three_waits = refl
