-- ===== src/Examples/Admissions.antt =====
-- A handshake that is admitted, and a run of the accept loop.
use value_rpc.Prelude.{ℕ, ◌≡◌, refl, true, List, [], ◌∷◌, Option, none, some, arith}
use value_rpc.Wire.Protocol.{new_handshake_request}
use value_rpc.Serving.{has, delete_key}
use value_rpc.Connection.{Peer, Hooks, admit}
use value_rpc.Connection.Admission.{Admits, admit-Admits}
use value_rpc.Acceptor.{
  new_acceptor, Event, accept_fails, accepts, deletes, discounts, finishes, shuts_down, sweeps, run,
}
use value_rpc.Acceptor.Bounded.{IsBounded, run-IsBounded}
use value_rpc.Acceptor.Shutdown.{IsSwept, run-IsSwept}
use value_rpc.Examples.Messages.{items, Item, standard, field, text_item}
use value_rpc.Examples.Sessions.{counting, digits, alice, serving_alice}

abbrev knows_alice : Option Item → Option (List ℕ)
knows_alice none = none
knows_alice (some credential) = some alice

abbrev hooks : Hooks items
hooks = record {
  connect_authorizer = some (λ conn. true);
  authenticator = some (λ conn credential. knows_alice credential);
}

abbrev returning : Peer items
returning = record {
  conn = 2;
  first = some (field (new_handshake_request items standard 7 2) 8 (text_item 5));
  write = λ m. true;
}

admit-Admits_example :
    Admits items standard counting digits hooks returning serving_alice
      (admit items standard counting digits (λ s. s) hooks returning serving_alice)
admit-Admits_example = admit-Admits items standard counting digits hooks returning serving_alice

-- Two connections with a cap of one: the second is dropped.
abbrev rush : List Event
rush =
    accept_fails
    ∷ accepts
    ∷ accepts
    ∷ deletes 0
    ∷ discounts
    ∷ accepts
    ∷ shuts_down
    ∷ accepts
    ∷ sweeps
    ∷ finishes
    ∷ []

rush_closed : (run 1 rush new_acceptor).closed ≡ 2 ∷ 3 ∷ 1 ∷ []
unfolding run new_acceptor has delete_key
rush_closed = refl

new_acceptor-IsBounded : IsBounded 1 new_acceptor
unfolding new_acceptor
new_acceptor-IsBounded = record {
  live = refl;
  waited = refl;
  capped = λ h. omega arith;
  brief = omega arith;
}

run-IsBounded_example : IsBounded 1 (run 1 rush new_acceptor)
run-IsBounded_example = run-IsBounded 1 rush new_acceptor new_acceptor-IsBounded

new_acceptor-IsSwept : IsSwept new_acceptor
unfolding new_acceptor
new_acceptor-IsSwept = record {
  after = λ h. cc;
  known = λ c h. ground arith;
  all_closed = λ c p h. ground arith;
}

run-IsSwept_example : IsSwept (run 1 rush new_acceptor)
run-IsSwept_example = run-IsSwept 1 rush new_acceptor new_acceptor-IsSwept
