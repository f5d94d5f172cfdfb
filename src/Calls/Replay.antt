-- ===== src/Calls/Replay.antt =====
-- A request that nobody waits for any more.
use value_rpc.Prelude.{
  ℕ, ◌≤◌, ◌≡◌, refl, ◌∙◌, ap, true, false, ◌==◌, List, [], ◌∷◌, some, arith, Bool-cases, inl, inr,
}
use value_rpc.Serving.{has}
use value_rpc.Calls.{
  Call, Phase, idle, resetting, Calls, find_call, has_call, ids, replays, kept, to_replay, connect,
  close_call, give_up, begin_reconnect, take_cutoff, sweep, end_reconnect, gives_up, reconnects,
  cuts, sweeps, reconnected, step, run,
}
use value_rpc.Calls.Members.{has-ids, has-append}

abbrev closed : Call → Call
closed c = record c { done = true }

module _ (last id : ℕ) (le : id ≤ last) (c : Call) (again : replays c ≡ true) where
  has_call-to_replay :
      (cs : List Call)
      → find_call id cs ≡ some c
      → has_call id (to_replay last (close_call id cs)) ≡ true
  unfolding find_call has_call to_replay close_call
  has_call-to_replay [] e = cc
  has_call-to_replay (d ∷ cs) e = elim (Bool-cases (d.id == id)) [
    | inl y ↦ ground (arith, e, y, le, again)
    | inr n ↦ ground (arith, e, n, has_call-to_replay cs)
  ]

  find_call-kept :
      (cs : List Call)
      → find_call id cs ≡ some c
      → find_call id (kept last (close_call id cs)) ≡ some (closed c)
  unfolding find_call kept close_call
  find_call-kept [] e = cc
  find_call-kept (d ∷ cs) e = elim (Bool-cases (d.id == id)) [
    | inl y ↦ ground (arith, e, y, le, again)
    | inr n ↦ ground (arith, e, n, find_call-kept cs)
  ]

begin_reconnect_lem :
    (p : Phase) (t : Calls)
    → p ≡ idle
    → begin_reconnect p t ≡ record t { phase = resetting; connected = false; on_current = [] }
begin_reconnect_lem p t e = ap (λ p. begin_reconnect p t) e ∙ unfold begin_reconnect in refl

-- When the caller of an idempotent unary call has given up, and the connection is lost before the server
-- has answered, Reconnect sends the call again on the new connection, although it is closed.
pub given_up_replayed :
    (t : Calls) (id : ℕ) (c : Call)
    → t.phase ≡ idle
    → find_call id t.requests ≡ some c
    → replays c ≡ true
    → id ≤ t.last_request
    → let u = run (gives_up id ∷ reconnects ∷ cuts ∷ sweeps ∷ reconnected true ∷ []) t in
      (has id u.on_current ≡ true) × (find_call id u.requests ≡ some (record c { done = true }))
unfolding run step give_up take_cutoff sweep end_reconnect connect
given_up_replayed t id c e f again le = rw (begin_reconnect_lem t.phase (give_up id t) e) (
  has-append id (ids (to_replay t.last_request (close_call id t.requests))) []
      ∙ ground (
        arith,
        has-ids id (to_replay t.last_request (close_call id t.requests)),
        has_call-to_replay t.last_request id le c again t.requests f,
      ),
  find_call-kept t.last_request id le c again t.requests f,
)
