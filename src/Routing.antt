-- ===== src/Routing.antt =====
-- Where a message goes: getResponseHandler of valueclient/client.go and processRequest of
-- valueserver/serving_client.go, with the ids that the two ends draw. Ids are int64 patterns, and a map is
-- the list of its keys.
pub mod Sign
use value_rpc.Prelude.{
  ℕ, ◌+◌, Bool, ◌||◌, ◌==◌, if◌then◌else◌, add64, neg64, List, Option, none, some,
}
use value_rpc.Wire.Values.{Values}
use value_rpc.Wire.Protocol.{
  Dialect, get_number_field, handshake_response, function_request, function_response,
  get_stream_request, put_stream_request, chat_request, error_response, cancel_request,
}
use value_rpc.Serving.{has}

unfoldable pub next_request_id : ℕ → ℕ
next_request_id last = add64 last 1

unfoldable pub next_server_request_id : ℕ → ℕ
next_server_request_id last = neg64 (add64 last 1)

-- servingMap and requestCtxMap.
pub record ClientMaps : Type 0 where
  pub serving : List ℕ
  pub requests : List ℕ

pub data ClientRoute : Type 0 where
  no_message_type handshaken inbound_call inbound_stream no_id not_found : ClientRoute
  served response : ℕ → ClientRoute

-- pendingStreams, pendingCalls and requestMap.
pub record ServerMaps : Type 0 where
  pub pending_streams : List ℕ
  pub pending_calls : List ℕ
  pub requests : List ℕ

-- `completed` is a reply to a call that waits for it, `late` one to a call that does not.
pub data ServerRoute : Type 0 where
  malformed new_request : ServerRoute
  streamed completed late running cancelled : ℕ → ServerRoute

module _ (v : Values) (d : Dialect v) where
  unfoldable pub route_id : ClientMaps → Option v.Value → ClientRoute
  route_id m none = no_id
  route_id m (some id) =
      let i = v.to_long id in
      if has i m.serving then served i else if has i m.requests then response i else not_found

  unfoldable pub route_typed : ClientMaps → v.Value → Option v.Value → ClientRoute
  unfolding route_id
  route_typed m resp none = no_message_type
  route_typed m resp (some mt) =
      let t = v.to_long mt in
      if t == handshake_response
      then handshaken
      else if t == function_request
      then inbound_call
      else if t == get_stream_request || (t == put_stream_request || t == chat_request)
      then inbound_stream
      else route_id m (get_number_field v resp d.request_id_field)

  unfoldable pub route_response : ClientMaps → v.Value → ClientRoute
  unfolding route_typed
  route_response m resp = route_typed m resp (get_number_field v resp d.message_type_field)

  unfoldable pub complete : ServerMaps → ℕ → ServerRoute
  complete m i = if has i m.pending_calls then completed i else late i

  unfoldable pub route_numbered : ServerMaps → ℕ → Option v.Value → ServerRoute
  unfolding complete
  route_numbered m t none = malformed
  route_numbered m t (some id) =
      let i = v.to_long id in
      if has i m.pending_streams
      then streamed i
      else if t == function_response || t == error_response
      then complete m i
      else if has i m.requests
      then running i
      else if t == cancel_request
      then cancelled i
      else new_request

  unfoldable pub route_request_of : ServerMaps → v.Value → Option v.Value → ServerRoute
  unfolding route_numbered
  route_request_of m req none = malformed
  route_request_of m req (some mt) =
      route_numbered m (v.to_long mt) (get_number_field v req d.request_id_field)

  unfoldable pub route_request : ServerMaps → v.Value → ServerRoute
  unfolding route_request_of
  route_request m req = route_request_of m req (get_number_field v req d.message_type_field)
