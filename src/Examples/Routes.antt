-- ===== src/Examples/Routes.antt =====
-- A client with one request of its own, and one stream that the server opened.
use value_rpc.Prelude.{ℕ, ◌≡◌, refl, [], ◌∷◌, some, neg64, arith}
use value_rpc.Serving.{has}
use value_rpc.Wire.Protocol.{stream_value}
use value_rpc.Routing.{
  next_request_id, next_server_request_id, ClientMaps, ServerMaps, route_id, route_numbered, served,
  streamed,
}
use value_rpc.Routing.Sign.{DrawnBy, client_by_sign, server_by_sign, routes_by_sign}
use value_rpc.Examples.Messages.{items, standard, number_item}

abbrev opened : ℕ
opened = neg64 1

client_drew : DrawnBy next_request_id (1 ∷ [])
unfolding has next_request_id
client_drew i h = (0, omega arith, ground (arith, h))

server_drew : DrawnBy next_server_request_id (opened ∷ [])
unfolding has next_server_request_id
server_drew i h = (0, omega arith, ground (arith, h))

nothing_drawn : DrawnBy next_server_request_id []
unfolding has
nothing_drawn i h = cc

abbrev client_maps : ClientMaps
client_maps = record { serving = opened ∷ []; requests = 1 ∷ [] }

abbrev server_maps : ServerMaps
server_maps = record { pending_streams = opened ∷ []; pending_calls = []; requests = 1 ∷ [] }

routes_by_sign_example :
    (route_id items standard client_maps (some (number_item opened))
      ≡ client_by_sign client_maps opened)
    × (route_numbered items standard server_maps stream_value (some (number_item opened))
        ≡ server_by_sign server_maps stream_value opened)
routes_by_sign_example =
    routes_by_sign items standard client_maps server_maps stream_value (number_item opened)
      client_drew server_drew server_drew nothing_drawn client_drew

opened_is_served : route_id items standard client_maps (some (number_item opened)) ≡ served opened
unfolding route_id has
opened_is_served = refl

opened_is_streamed :
    route_numbered items standard server_maps stream_value (some (number_item opened))
    ≡ streamed opened
unfolding route_numbered has
opened_is_streamed = refl
