-- ===== src/Envelope.antt =====
-- The messages that are built in valuerpc/peer.go and, with the same names on the server, in
-- valueserver/serving_client.go, and how each end reads a reply: processResponse of
-- valueclient/client.go, completePendingCall and responseCode of valueserver/serving_client.go. A code is
-- the 32-bit pattern of an int32, a number on the wire the 64-bit pattern of an int64.
pub mod Server
pub mod Metadata
pub mod Request
pub mod Fields
pub mod ReadsBack
pub mod Asked
use value_rpc.Prelude.{
  ℕ, ◌+◌, ◌-◌, ◌%◌, ◌^◌, ◌==◌, ◌||◌, ltb, two64, not, if◌then◌else◌, Option, none, some,
}
use value_rpc.Errors.{Errors, code_ok, code_unknown, handler_err_code}
use value_rpc.Wire.Values.{Values}
use value_rpc.Wire.Verify.{is_nothing}
use value_rpc.Wire.Protocol.{
  Dialect, get_number_field, get_string_field, function_request, function_response, error_response,
  stream_ready, stream_value, stream_end,
}

abbrev pub two32 : ℕ
two32 = 0x100000000

-- int64(code), and Code(n) of an int64.
unfoldable pub long_of_code : ℕ → ℕ
long_of_code c = if ltb c 0x80000000 then c else c + (two64 - two32)

unfoldable pub code_of_long : ℕ → ℕ
code_of_long n = n % two32

-- What the texts of an error are: err.Error(), and the message of a *valuerpc.Error that the error
-- itself is; `prefixed` is fmt.Sprintf("%s: %s", ...).
pub record ErrorTexts (v : Values) (e : Errors) : Type 0 where
  pub text : e.Err → v.Text
  pub own_message : e.Err → Option v.Text
  pub prefixed : v.Text → v.Text → v.Text

-- How a call ends for the caller: with a value or nil, or with a *valuerpc.Error.
pub data Outcome (v : Values) : Type 0 where
  returned : Option v.Value → Outcome v
  failed : ℕ → v.Text → Outcome v

module _ (v : Values) (d : Dialect v) where
  unfoldable pub put_some : Option v.Value → v.Text → v.Value → v.Value
  put_some none field m = m
  put_some (some x) field m = v.put m field x

  unfoldable pub new_function_request : ℕ → v.Text → Option v.Value → v.Value
  unfolding put_some
  new_function_request id name args =
      let m0 = v.put v.empty_map d.message_type_field (v.long function_request) in
      let m1 = v.put m0 d.request_id_field (v.long id) in
      let m2 = v.put m1 d.function_name_field (v.utf8 name) in put_some args d.arguments_field m2

  unfoldable pub new_function_result : v.Value → Option v.Value → v.Value
  unfolding put_some
  new_function_result id result =
      let m0 = v.put v.empty_map d.message_type_field (v.long function_response) in
      let m1 = v.put m0 d.request_id_field id in put_some result d.result_field m1

  unfoldable pub new_function_error : v.Value → ℕ → v.Text → v.Value
  unfolding long_of_code
  new_function_error id code msg =
      let m0 = v.put v.empty_map d.message_type_field (v.long error_response) in
      let m1 = v.put m0 d.request_id_field id in
      let m2 = v.put m1 d.code_field (v.long (long_of_code code)) in
      v.put m2 d.error_field (v.utf8 msg)

  unfoldable pub new_stream_request : ℕ → ℕ → v.Text → Option v.Value → v.Value
  unfolding put_some
  new_stream_request mt id name args =
      let m0 = v.put v.empty_map d.message_type_field (v.long mt) in
      let m1 = v.put m0 d.request_id_field (v.long id) in
      let m2 = v.put m1 d.function_name_field (v.utf8 name) in put_some args d.arguments_field m2

  unfoldable pub new_stream_ready : v.Value → v.Value
  new_stream_ready id =
      let m0 = v.put v.empty_map d.message_type_field (v.long stream_ready) in
      v.put m0 d.request_id_field id

  unfoldable pub new_stream_value : v.Value → v.Value → v.Value
  new_stream_value id x =
      let m0 = v.put v.empty_map d.message_type_field (v.long stream_value) in
      let m1 = v.put m0 d.request_id_field id in v.put m1 d.value_field x

  unfoldable pub new_stream_end : v.Value → Option v.Value → v.Value
  unfolding put_some
  new_stream_end id x =
      let m0 = v.put v.empty_map d.message_type_field (v.long stream_end) in
      let m1 = v.put m0 d.request_id_field id in put_some x d.value_field m1

  abbrev pub or_else : Option v.Text → v.Text → v.Text
  or_else none s = s
  or_else (some t) s = t

  unfoldable pub new_handler_error :
      (e : Errors) → ErrorTexts v e → v.Value → v.Text → e.Err → v.Value
  unfolding new_function_error
  new_handler_error e texts id place err =
      let msg = or_else (texts.own_message err) (texts.text err) in
      new_function_error id (handler_err_code e err) (texts.prefixed place msg)

  -- An absent or null value stands for none.
  unfoldable pub surfaced : Option v.Value → Option v.Value
  surfaced none = none
  surfaced (some x) = if v.same_kind (v.kind x) v.null_kind then none else some x

  unfoldable pub code_in : Option v.Value → ℕ
  unfolding code_of_long
  code_in none = code_unknown
  code_in (some c) = code_of_long (v.to_long c)

  unfoldable pub text_or_empty : Option v.Value → v.Text
  text_or_empty none = v.empty_text
  text_or_empty (some s) = v.to_text s

  -- What the server sends to the channel of a pending call.
  unfoldable pub pending_result : ℕ → v.Value → Outcome v
  unfolding code_in text_or_empty surfaced
  pending_result mt resp =
      if mt == error_response
      then failed (code_in (get_number_field v resp d.code_field))
          (text_or_empty (get_string_field v resp d.error_field))
      else returned (surfaced (v.get resp d.result_field))

  -- The result of a FunctionResponse and the error of an ErrorResponse, as the client reads them.
  unfoldable pub function_outcome : v.Value → Outcome v
  unfolding surfaced
  function_outcome resp = returned (surfaced (v.get resp d.result_field))

  unfoldable pub error_outcome : v.Value → Outcome v
  unfolding code_in
  error_outcome resp =
      failed (code_in (get_number_field v resp d.code_field)) (v.get_string resp d.error_field)

  unfoldable pub error_code_if : v.Value → Option v.Value → ℕ
  unfolding code_in
  error_code_if resp none = code_ok
  error_code_if resp (some mt) =
      if v.to_long mt == error_response
      then code_in (get_number_field v resp d.code_field)
      else code_ok

  unfoldable pub response_code : Option v.Value → ℕ
  unfolding error_code_if
  response_code none = code_ok
  response_code (some resp) = error_code_if resp (get_number_field v resp d.message_type_field)

  -- What the two ends read of a reply, by its type; another type of message is none.
  unfoldable pub client_reads_typed : v.Value → Option v.Value → Option (Outcome v)
  unfolding function_outcome error_outcome
  client_reads_typed resp none = none
  client_reads_typed resp (some mt) =
      if v.to_long mt == function_response
      then some (function_outcome resp)
      else if v.to_long mt == error_response
      then some (error_outcome resp)
      else none

  unfoldable pub client_reads : v.Value → Option (Outcome v)
  unfolding client_reads_typed
  client_reads resp = client_reads_typed resp (get_number_field v resp d.message_type_field)

  unfoldable pub server_reads_typed : v.Value → Option v.Value → Option (Outcome v)
  unfolding pending_result
  server_reads_typed resp none = none
  server_reads_typed resp (some mt) =
      if v.to_long mt == function_response || v.to_long mt == error_response
      then some (pending_result (v.to_long mt) resp)
      else none

  unfoldable pub server_reads : v.Value → Option (Outcome v)
  unfolding server_reads_typed
  server_reads resp = server_reads_typed resp (get_number_field v resp d.message_type_field)
