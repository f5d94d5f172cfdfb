-- ===== src/Acceptor/Bounded.antt =====
-- The counts of the accept loop.
use value_rpc.Prelude.{ℕ, suc, ◌+◌, ◌≤◌, ◌<◌, ◌≡◌, true, List, [], ◌∷◌, length, arith}
use value_rpc.Serving.{has, delete_key}
use value_rpc.Acceptor.{
  Acceptor, max_backoff, next_backoff, Event, accept_fails, accepts, deletes, discounts, finishes,
  shuts_down, sweeps, accept_failed, accepted, shut, sweep, delete_conn, discount, finish, step,
  run,
}

-- Every goroutine is counted, no more connections are open than the cap allows, and the loop never waits
-- for longer than a second.
pub record IsBounded (max_connections : ℕ) (a : Acceptor) : Type 0 where
  pub live : a.live_conns ≡ length a.conn_map + a.deleted
  pub waited : a.wait_group ≡ length a.conn_map + a.deleted + a.discounted
  pub capped : 0 < max_connections → a.live_conns ≤ max_connections
  pub brief : a.backoff ≤ max_backoff

length-delete_key :
    (c : ℕ) (cs : List ℕ) → has c cs ≡ true → suc (length (delete_key c cs)) ≡ length cs
unfolding has delete_key
length-delete_key c [] h = ground arith
length-delete_key c (x ∷ cs) h = ground (arith, length-delete_key c cs)

next_backoff_lem : (b : ℕ) → next_backoff b ≤ max_backoff
unfolding next_backoff
next_backoff_lem b = ground arith

module _ (max_connections : ℕ) (a : Acceptor) (inv : IsBounded max_connections a) where
  accept_failed-IsBounded : IsBounded max_connections (accept_failed a)
  unfolding accept_failed
  accept_failed-IsBounded = record {
    live = ground (arith, inv.live);
    waited = ground (arith, inv.waited);
    capped = λ p. ground (arith, inv.capped p);
    brief = ground (arith, inv.brief, next_backoff_lem a.backoff);
  }

  accepted-IsBounded : IsBounded max_connections (accepted max_connections a)
  unfolding accepted
  accepted-IsBounded = record {
    live = ground (arith, inv.live);
    waited = ground (arith, inv.waited);
    capped = λ p. ground (arith, inv.capped p);
    brief = ground arith;
  }

  delete_conn-IsBounded : (c : ℕ) → IsBounded max_connections (delete_conn c a)
  unfolding delete_conn
  delete_conn-IsBounded c = record {
    live = ground (arith, inv.live, length-delete_key c a.conn_map);
    waited = ground (arith, inv.waited, length-delete_key c a.conn_map);
    capped = λ p. ground (arith, inv.capped p);
    brief = ground (arith, inv.brief);
  }

  discount-IsBounded : IsBounded max_connections (discount a)
  unfolding discount
  discount-IsBounded = record {
    live = ground (arith, inv.live);
    waited = ground (arith, inv.waited);
    capped = λ p. ground (arith, inv.capped p);
    brief = ground (arith, inv.brief);
  }

  finish-IsBounded : IsBounded max_connections (finish a)
  unfolding finish
  finish-IsBounded = record {
    live = ground (arith, inv.live);
    waited = ground (arith, inv.waited);
    capped = λ p. ground (arith, inv.capped p);
    brief = ground (arith, inv.brief);
  }

  sweep-IsBounded : IsBounded max_connections (sweep a)
  unfolding sweep
  sweep-IsBounded = record {
    live = ground (arith, inv.live);
    waited = ground (arith, inv.waited);
    capped = λ p. ground (arith, inv.capped p);
    brief = ground (arith, inv.brief);
  }

  step-IsBounded : (e : Event) → IsBounded max_connections (step max_connections e a)
  unfolding step
  step-IsBounded accept_fails = ground (arith, inv, accept_failed-IsBounded)
  step-IsBounded accepts = ground (arith, inv, accepted-IsBounded)
  step-IsBounded (deletes c) = delete_conn-IsBounded c
  step-IsBounded discounts = discount-IsBounded
  step-IsBounded finishes = finish-IsBounded
  step-IsBounded shuts_down =
      unfold shut in
      record { live = inv.live; waited = inv.waited; capped = inv.capped; brief = inv.brief }
  step-IsBounded sweeps = sweep-IsBounded

-- However accepts, errors, ends of connections and a shutdown follow each other, these stay true if they
-- were: every goroutine of a connection is counted, no more connections are open than a positive cap
-- allows, and the wait after an error is at most a second.
pub run-IsBounded :
    (max_connections : ℕ) (es : List Event) (a : Acceptor)
    → IsBounded max_connections a
    → IsBounded max_connections (run max_connections es a)
unfolding run
run-IsBounded max_connections [] a inv = inv
run-IsBounded max_connections (e ∷ es) a inv =
    run-IsBounded max_connections es _ (step-IsBounded max_connections a inv e)
