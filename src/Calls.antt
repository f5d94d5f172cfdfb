-- ===== src/Calls.antt =====
-- The requests that a client has in flight, and their fate on a lost connection: sendRequest, Reconnect and
-- failRequest of valueclient/client.go. The steps of the goroutines interleave: a caller draws an id,
-- registers its request and sends it, and Reconnect resets the connection, reads the last id, goes through
-- the requests and connects again.
pub mod Members
pub mod Carried
pub mod Replay
pub mod Backoff
use value_rpc.Prelude.{
  ℕ, ◌+◌, Bool, true, false, not, ◌&&◌, ◌||◌, ◌==◌, ltb, if◌then◌else◌, List, [], ◌∷◌, ◌++◌, Option,
  none, some,
}
use value_rpc.Serving.{has, delete_key}

-- `idempotent`: the reconnect policy replays the method. `done`: the request is closed.
pub record Call : Type 0 where
  pub id : ℕ
  pub unary : Bool
  pub idempotent : Bool
  pub done : Bool

-- Where Reconnect stands; `replaying` has the requests that it has to send again.
pub data Phase : Type 0 where
  idle resetting : Phase
  cutting : ℕ → Phase
  replaying : List Call → Phase

-- `drawn` has an id and is not registered yet; `unsent` lists the registered requests that are still to be
-- sent; `on_current` lists the ids that were handed to the current connection, `failed` those that
-- got ErrConnectionLost.
pub record Calls : Type 0 where
  pub last_request : ℕ
  pub drawn : List Call
  pub requests : List Call
  pub unsent : List ℕ
  pub connected : Bool
  pub on_current : List ℕ
  pub failed : List ℕ
  pub phase : Phase

unfoldable pub new_calls : Calls
new_calls = record {
  last_request = 0;
  drawn = [];
  requests = [];
  unsent = [];
  connected = false;
  on_current = [];
  failed = [];
  phase = idle;
}

unfoldable pub find_call : ℕ → List Call → Option Call
find_call id [] = none
find_call id (c ∷ cs) = let rest = find_call id cs in if c.id == id then some c else rest

unfoldable pub has_call : ℕ → List Call → Bool
has_call id [] = false
has_call id (c ∷ cs) = c.id == id || has_call id cs

unfoldable pub delete_call : ℕ → List Call → List Call
delete_call id [] = []
delete_call id (c ∷ cs) = let rest = delete_call id cs in if c.id == id then rest else c ∷ rest

abbrev pub ids : List Call → List ℕ
ids [] = []
ids (c ∷ cs) = c.id ∷ ids cs

abbrev pub replays : Call → Bool
replays c = c.unary && c.idempotent

-- The requests that Reconnect leaves registered, those of them that it sends again, and the others.
unfoldable pub kept : ℕ → List Call → List Call
kept cutoff [] = []
kept cutoff (c ∷ cs) =
    let rest = kept cutoff cs in if ltb cutoff c.id || replays c then c ∷ rest else rest

unfoldable pub to_replay : ℕ → List Call → List Call
to_replay cutoff [] = []
to_replay cutoff (c ∷ cs) =
    let rest = to_replay cutoff cs in if not (ltb cutoff c.id) && replays c then c ∷ rest else rest

unfoldable pub to_fail : ℕ → List Call → List Call
to_fail cutoff [] = []
to_fail cutoff (c ∷ cs) =
    let rest = to_fail cutoff cs in if ltb cutoff c.id || replays c then rest else c ∷ rest

unfoldable pub delete_all : List Call → List Call → List Call
unfolding delete_call
delete_all [] cs = cs
delete_all (r ∷ rs) cs = delete_call r.id (delete_all rs cs)

-- sendRequest in its three steps.
unfoldable pub draw : Bool → Bool → Calls → Calls
draw unary idempotent t =
    let n = t.last_request + 1 in
    record t {
      last_request = n;
      drawn = record { id = n; unary = unary; idempotent = idempotent; done = false } ∷ t.drawn;
    }

unfoldable pub register : Option Call → Calls → Calls
unfolding delete_call
register none t = t
register (some c) t = record t {
  drawn = delete_call c.id t.drawn;
  requests = c ∷ t.requests;
  unsent = c.id ∷ t.unsent;
}

-- A sender waits until there is a connection.
unfoldable pub send : ℕ → Calls → Calls
unfolding has delete_key
send id t =
    if t.connected && has id t.unsent
    then record t { unsent = delete_key id t.unsent; on_current = id ∷ t.on_current }
    else t

unfoldable pub connect : Calls → Calls
connect t = record t { connected = true }

-- The response of a unary call.
unfoldable pub respond : ℕ → Calls → Calls
unfolding delete_call
respond id t = record t { requests = delete_call id t.requests }

-- The caller gives up, on a timeout or a cancellation: the request is closed.
unfoldable pub close_call : ℕ → List Call → List Call
close_call id [] = []
close_call id (c ∷ cs) =
    let rest = close_call id cs in if c.id == id then record c { done = true } ∷ rest else c ∷ rest

unfoldable pub give_up : ℕ → Calls → Calls
unfolding close_call
give_up id t = record t { requests = close_call id t.requests }

-- Reconnect: only one runs at a time.
unfoldable pub begin_reconnect : Phase → Calls → Calls
begin_reconnect idle t = record t { phase = resetting; connected = false; on_current = [] }
begin_reconnect _ t = t

unfoldable pub take_cutoff : Phase → Calls → Calls
take_cutoff resetting t = record t { phase = cutting t.last_request }
take_cutoff _ t = t

unfoldable pub sweep : Phase → Calls → Calls
unfolding kept to_replay to_fail
sweep (cutting cutoff) t = record t {
  phase = replaying (to_replay cutoff t.requests);
  requests = kept cutoff t.requests;
  failed = ids (to_fail cutoff t.requests) ++ t.failed;
}
sweep _ t = t

-- `dialed` is the outcome of Connect, where there is no connection yet.
unfoldable pub end_reconnect : Bool → Phase → Calls → Calls
unfolding delete_all connect
end_reconnect dialed (replaying rs) t =
    if t.connected || dialed
    then (let c = connect t in record c { phase = idle; on_current = ids rs ++ c.on_current })
    else record t { phase = idle; requests = delete_all rs t.requests; failed = ids rs ++ t.failed }
end_reconnect dialed _ t = t

pub data Event : Type 0 where
  draws : Bool → Bool → Event
  registers sends responds gives_up : ℕ → Event
  connects reconnects cuts sweeps : Event
  reconnected : Bool → Event

unfoldable pub step : Event → Calls → Calls
unfolding draw register send connect respond give_up begin_reconnect take_cutoff sweep end_reconnect
    find_call
step (draws unary idempotent) t = draw unary idempotent t
step (registers id) t = register (find_call id t.drawn) t
step (sends id) t = send id t
step (responds id) t = respond id t
step (gives_up id) t = give_up id t
step connects t = connect t
step reconnects t = begin_reconnect t.phase t
step cuts t = take_cutoff t.phase t
step sweeps t = sweep t.phase t
step (reconnected dialed) t = end_reconnect dialed t.phase t

unfoldable pub run : List Event → Calls → Calls
unfolding step
run [] t = t
run (e ∷ es) t = run es (step e t)
