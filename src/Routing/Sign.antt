-- ===== src/Routing/Sign.antt =====
-- The sign of an id tells whose request it is.
use value_rpc.Prelude.{
  ℕ, ◌+◌, ◌<◌, ◌≡◌, sym, ◌∙◌, ap, inl, inr, true, false, ◌||◌, ◌==◌, if◌then◌else◌, is_neg, two63,
  List, some, Bool-cases, arith,
}
use value_rpc.Wire.Values.{Values}
use value_rpc.Wire.Protocol.{Dialect, function_response, error_response, cancel_request}
use value_rpc.Serving.{has}
use value_rpc.Routing.{
  next_request_id, next_server_request_id, ClientMaps, ClientRoute, served, response, not_found,
  ServerMaps, ServerRoute, streamed, completed, late, running, cancelled, new_request, route_id,
  complete, route_numbered,
}

-- Every id was drawn by `next`, fewer than 2 ^ 63 times.
abbrev pub DrawnBy : (ℕ → ℕ) → List ℕ → Type 0
DrawnBy next ids = (i : ℕ) → has i ids ≡ true → (n : ℕ) × (n + 1 < two63) × (i ≡ next n)

client_positive : (n : ℕ) → n + 1 < two63 → is_neg (next_request_id n) ≡ false
unfolding next_request_id
client_positive n h = ground arith

server_negative : (n : ℕ) → n + 1 < two63 → is_neg (next_server_request_id n) ≡ true
unfolding next_server_request_id
server_negative n h = ground arith

true_not_false : true ≡ false → ⊥
true_not_false h = cc

client_id_positive_only :
    (ids : List ℕ) (i : ℕ) → DrawnBy next_request_id ids → is_neg i ≡ true → has i ids ≡ false
client_id_positive_only ids i drawn neg = elim (Bool-cases (has i ids)) [
  | inr no' ↦ no'
  | inl y ↦ (let (n, lt, e) = drawn i y in absurd (clash n lt e))
]
  where
    clash : (n : ℕ) → n + 1 < two63 → i ≡ next_request_id n → ⊥
    clash n lt e = true_not_false (sym neg ∙ ap is_neg e ∙ client_positive n lt)

server_id_negative_only :
    (ids : List ℕ) (i : ℕ)
    → DrawnBy next_server_request_id ids
    → is_neg i ≡ false
    → has i ids ≡ false
server_id_negative_only ids i drawn pos = elim (Bool-cases (has i ids)) [
  | inr no' ↦ no'
  | inl y ↦ (let (n, lt, e) = drawn i y in absurd (clash n lt e))
]
  where
    clash : (n : ℕ) → n + 1 < two63 → i ≡ next_server_request_id n → ⊥
    clash n lt e = true_not_false (sym (server_negative n lt) ∙ ap is_neg (sym e) ∙ pos)

-- The route of a running frame, where the sign of its id picks the only map that is looked at.
unfoldable pub client_by_sign : ClientMaps → ℕ → ClientRoute
client_by_sign m i =
    if is_neg i
    then (if has i m.serving then served i else not_found)
    else if has i m.requests
    then response i
    else not_found

-- For the server a reply with a client's id answers no call.
unfoldable pub server_by_sign : ServerMaps → ℕ → ℕ → ServerRoute
server_by_sign m t i =
    let replies = t == function_response || t == error_response in
    let others = if t == cancel_request then cancelled i else new_request in
    if is_neg i
    then (if has i m.pending_streams
        then streamed i
        else if replies
        then (if has i m.pending_calls then completed i else late i)
        else others)
    else if replies
    then late i
    else if has i m.requests
    then running i
    else others

module _ (v : Values) (d : Dialect v) where
  -- When each end has drawn its ids from its own counter, fewer than 2 ^ 63 of them, the sign of a frame's
  -- id decides which of the maps are looked at: on the client, a negative id is looked up only
  -- among the streams that it serves and another only among its own requests; on the server, a
  -- negative id only among the streams and calls that it has opened, and another only among the requests
  -- that it serves. No frame reaches a request of the other end that happens to have its number.
  pub routes_by_sign :
      (m : ClientMaps) (s : ServerMaps) (t : ℕ) (id : v.Value)
      → DrawnBy next_request_id m.requests
      → DrawnBy next_server_request_id m.serving
      → DrawnBy next_server_request_id s.pending_streams
      → DrawnBy next_server_request_id s.pending_calls
      → DrawnBy next_request_id s.requests
      → (route_id v d m (some id) ≡ client_by_sign m (v.to_long id))
        × (route_numbered v d s t (some id) ≡ server_by_sign s t (v.to_long id))
  unfolding route_id route_numbered complete client_by_sign server_by_sign
  routes_by_sign m s t id cr cs sp sc sr = elim (Bool-cases (is_neg (v.to_long id))) [
    | inl neg ↦ (
      ground (arith, neg, client_id_positive_only m.requests (v.to_long id) cr neg),
      ground (arith, neg, client_id_positive_only s.requests (v.to_long id) sr neg),
    )
    | inr pos ↦ (
      ground (arith, pos, server_id_negative_only m.serving (v.to_long id) cs pos),
      ground (
        arith,
        pos,
        server_id_negative_only s.pending_streams (v.to_long id) sp pos,
        server_id_negative_only s.pending_calls (v.to_long id) sc pos,
      ),
    )
  ]
