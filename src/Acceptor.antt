-- ===== src/Acceptor.antt =====
-- The accept loop of valueserver/server.go, Run, with the goroutines of its connections and with Close.
-- A goroutine ends in three steps, its deferred calls. The cap of connections is a natural number, 0 for a
-- value that is not positive; durations are in nanoseconds.
pub mod Bounded
pub mod Shutdown
use value_rpc.Prelude.{
  ℕ, ◌+◌, ◌-◌, ◌*◌, Bool, true, false, not, ◌&&◌, ◌==◌, ltb, leb, if◌then◌else◌, List, [], ◌∷◌,
  ◌++◌,
}
use value_rpc.Serving.{has, delete_key}

-- `conn_map` lists the keys of connMap. `next_conn` numbers the connections in the order of their
-- arrival. `deleted` and `discounted` count the goroutines that have left connMap, and those that have
-- left liveConns too. `gone` lists the connections whose goroutine has left connMap.
pub record Acceptor : Type 0 where
  pub next_conn : ℕ
  pub backoff : ℕ
  pub conn_map : List ℕ
  pub live_conns : ℕ
  pub wait_group : ℕ
  pub deleted : ℕ
  pub discounted : ℕ
  pub closed : List ℕ
  pub gone : List ℕ
  pub shut_down : Bool
  pub swept : Bool
  pub running : Bool

unfoldable pub new_acceptor : Acceptor
new_acceptor = record {
  next_conn = 0;
  backoff = 0;
  conn_map = [];
  live_conns = 0;
  wait_group = 0;
  deleted = 0;
  discounted = 0;
  closed = [];
  gone = [];
  shut_down = false;
  swept = false;
  running = true;
}

abbrev pub first_backoff : ℕ
first_backoff = 5_000_000

abbrev pub max_backoff : ℕ
max_backoff = 1_000_000_000

unfoldable pub next_backoff : ℕ → ℕ
next_backoff b =
    let longer = if b == 0 then first_backoff else b * 2 in
    if ltb max_backoff longer then max_backoff else longer

-- Accept fails or gives a connection; a goroutine ends; Close begins, and closes the connections of
-- connMap.
pub data Event : Type 0 where
  accept_fails accepts : Event
  deletes : ℕ → Event
  discounts finishes : Event
  shuts_down sweeps : Event

unfoldable pub accept_failed : Acceptor → Acceptor
unfolding next_backoff
accept_failed a =
    if a.shut_down
    then record a { running = false }
    else record a { backoff = next_backoff a.backoff }

unfoldable pub accepted : ℕ → Acceptor → Acceptor
accepted max_connections a =
    let b = record a { backoff = 0; next_conn = a.next_conn + 1 } in
    let dropped = record b { closed = a.next_conn ∷ a.closed } in
    if ltb 0 max_connections && leb max_connections a.live_conns
    then dropped
    else if a.shut_down
    then dropped
    else record b {
      live_conns = a.live_conns + 1;
      conn_map = a.next_conn ∷ a.conn_map;
      wait_group = a.wait_group + 1;
    }

unfoldable pub shut : Acceptor → Acceptor
shut a = record a { shut_down = true }

unfoldable pub sweep : Acceptor → Acceptor
sweep a =
    if a.shut_down && not a.swept
    then record a { swept = true; closed = a.conn_map ++ a.closed }
    else a

-- The deferred calls: connMap.Delete, liveConns.Add(-1) and wg.Done.
unfoldable pub delete_conn : ℕ → Acceptor → Acceptor
delete_conn c a =
    if has c a.conn_map
    then record a { conn_map = delete_key c a.conn_map; deleted = a.deleted + 1; gone = c ∷ a.gone }
    else a

unfoldable pub discount : Acceptor → Acceptor
discount a = if a.deleted == 0 then a else record a {
  live_conns = a.live_conns - 1;
  deleted = a.deleted - 1;
  discounted = a.discounted + 1;
}

unfoldable pub finish : Acceptor → Acceptor
finish a =
    if a.discounted == 0
    then a
    else record a { wait_group = a.wait_group - 1; discounted = a.discounted - 1 }

unfoldable pub step : ℕ → Event → Acceptor → Acceptor
unfolding accept_failed accepted shut sweep delete_conn discount finish
step max_connections accept_fails a = if a.running then accept_failed a else a
step max_connections accepts a = if a.running then accepted max_connections a else a
step max_connections (deletes c) a = delete_conn c a
step max_connections discounts a = discount a
step max_connections finishes a = finish a
step max_connections shuts_down a = shut a
step max_connections sweeps a = sweep a

unfoldable pub run : ℕ → List Event → Acceptor → Acceptor
unfolding step
run max_connections [] a = a
run max_connections (e ∷ es) a = run max_connections es (step max_connections e a)
