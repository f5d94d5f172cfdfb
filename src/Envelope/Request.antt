-- ===== src/Envelope/Request.antt =====
-- constructRequest and effectiveTimeout of valueclient/client.go, and the request of CallFunction of
-- valueserver/serving_client.go. Timeouts are int64 patterns in milliseconds.
use value_rpc.Prelude.{ℕ, ◌||◌, if◌then◌else◌, slt, sle, Option, none, some}
use value_rpc.Wire.Values.{Values}
use value_rpc.Wire.Protocol.{Dialect}
use value_rpc.Envelope.{put_some, new_function_request}
use value_rpc.Envelope.Metadata.{Metadata, encode_metadata}

-- The remaining time of the context's deadline, if it has one.
unfoldable pub shortened : ℕ → ℕ → ℕ
shortened base remaining =
    let left = if slt remaining 0 then 0 else remaining in
    if sle base 0 || slt left base then left else base

unfoldable pub effective_timeout : ℕ → Option ℕ → ℕ
unfolding shortened
effective_timeout base none = base
effective_timeout base (some remaining) = shortened base remaining

module _ (v : Values) (d : Dialect v) where
  unfoldable pub put_or_nil : Option v.Value → v.Text → v.Value → v.Value
  put_or_nil none field m = v.put_nil m field
  put_or_nil (some x) field m = v.put m field x

  unfoldable pub with_timeout : ℕ → v.Value → v.Value
  with_timeout timeout m = if slt 0 timeout then v.put m d.timeout_field (v.long timeout) else m

  -- No metadata stands for a client without WithMetadata.
  unfoldable pub with_metadata : Option (Metadata v) → v.Value → v.Value
  unfolding put_some
  with_metadata none m = m
  with_metadata (some md) m = put_some v d (encode_metadata v md) d.metadata_field m

  unfoldable pub construct_request : ℕ → v.Text → Option v.Value → ℕ → Option (Metadata v) → v.Value
  unfolding with_timeout with_metadata put_or_nil
  construct_request mt name args timeout md =
      let m0 = v.put v.empty_map d.message_type_field (v.long mt) in
      let m1 = v.put m0 d.function_name_field (v.utf8 name) in
      let m2 = put_or_nil args d.arguments_field m1 in with_metadata md (with_timeout timeout m2)

  -- sendRequest puts the id into the request.
  unfoldable pub numbered : ℕ → v.Value → v.Value
  numbered id req = v.put req d.request_id_field (v.long id)

  -- The request of the server's CallFunction.
  unfoldable pub call_request : ℕ → v.Text → Option v.Value → Option (Metadata v) → v.Value
  unfolding with_metadata
  call_request id name args md = with_metadata md (new_function_request v d id name args)
