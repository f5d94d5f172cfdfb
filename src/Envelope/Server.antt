-- ===== src/Envelope/Server.antt =====
-- valueserver/serving_client.go: FunctionResult, FunctionError, StreamReady, StreamValue, StreamEnd and
-- handlerError, which the server has beside those of valuerpc/peer.go.
use value_rpc.Prelude.{ℕ, ◌≡◌, refl, Option, none, some}
use value_rpc.Errors.{Errors, handler_err_code}
use value_rpc.Wire.Values.{Values}
use value_rpc.Wire.Protocol.{
  Dialect, function_response, error_response, stream_ready, stream_value, stream_end,
}
use value_rpc.Envelope.{
  ErrorTexts, long_of_code, or_else, put_some, new_function_result, new_stream_end,
}

module _ (v : Values) (d : Dialect v) where
  unfoldable pub with_result : v.Value → Option v.Value → v.Value
  with_result resp none = resp
  with_result resp (some result) = v.put resp d.result_field result

  unfoldable pub function_result : v.Value → Option v.Value → v.Value
  unfolding with_result
  function_result id result =
      let m0 = v.put v.empty_map d.message_type_field (v.long function_response) in
      let m1 = v.put m0 d.request_id_field id in with_result m1 result

  unfoldable pub stream_ready_of : v.Value → v.Value
  stream_ready_of id =
      let m0 = v.put v.empty_map d.message_type_field (v.long stream_ready) in
      v.put m0 d.request_id_field id

  unfoldable pub stream_value_of : v.Value → v.Value → v.Value
  stream_value_of id x =
      let m0 = v.put v.empty_map d.message_type_field (v.long stream_value) in
      let m1 = v.put m0 d.request_id_field id in v.put m1 d.value_field x

  unfoldable pub with_value : v.Value → Option v.Value → v.Value
  with_value resp none = resp
  with_value resp (some x) = v.put resp d.value_field x

  unfoldable pub stream_end_of : v.Value → Option v.Value → v.Value
  unfolding with_value
  stream_end_of id x =
      let m0 = v.put v.empty_map d.message_type_field (v.long stream_end) in
      let m1 = v.put m0 d.request_id_field id in with_value m1 x

  unfoldable pub function_error : v.Value → ℕ → v.Text → v.Value
  unfolding long_of_code
  function_error id code msg =
      let m0 = v.put v.empty_map d.message_type_field (v.long error_response) in
      let m1 = v.put m0 d.request_id_field id in
      let m2 = v.put m1 d.code_field (v.long (long_of_code code)) in
      v.put m2 d.error_field (v.utf8 msg)

  unfoldable pub handler_error : (e : Errors) → ErrorTexts v e → v.Value → v.Text → e.Err → v.Value
  unfolding function_error
  handler_error e texts id place err =
      let msg = or_else v d (texts.own_message err) (texts.text err) in
      function_error id (handler_err_code e err) (texts.prefixed place msg)

  -- The server's messages are those of the package that the two ends share.
  pub function_result-new :
      (id : v.Value) (r : Option v.Value) → function_result id r ≡ new_function_result v d id r
  unfolding function_result with_result new_function_result put_some
  function_result-new id none = refl
  function_result-new id (some x) = refl

  pub stream_end-new :
      (id : v.Value) (x : Option v.Value) → stream_end_of id x ≡ new_stream_end v d id x
  unfolding stream_end_of with_value new_stream_end put_some
  stream_end-new id none = refl
  stream_end-new id (some x) = refl
