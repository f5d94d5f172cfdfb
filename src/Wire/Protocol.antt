-- ===== src/Wire/Protocol.antt =====
-- valuerpc/protocol.go: the names and markers of a wire dialect, and the messages built with them.
pub mod Handshake
use value_rpc.Prelude.{ℕ, Bool, true, false, not, ◌||◌, if◌then◌else◌, Option, none, some}
use mathlib.Core.Option
use value_rpc.Wire.Values.{Values}

-- MessageType; 12 and 13 are reserved.
abbrev pub handshake_request : ℕ
handshake_request = 0

abbrev pub handshake_response : ℕ
handshake_response = 1

abbrev pub function_request : ℕ
function_request = 2

abbrev pub function_response : ℕ
function_response = 3

abbrev pub get_stream_request : ℕ
get_stream_request = 4

abbrev pub put_stream_request : ℕ
put_stream_request = 5

abbrev pub chat_request : ℕ
chat_request = 6

abbrev pub error_response : ℕ
error_response = 7

abbrev pub stream_ready : ℕ
stream_ready = 8

abbrev pub stream_value : ℕ
stream_value = 9

abbrev pub stream_end : ℕ
stream_end = 10

abbrev pub cancel_request : ℕ
cancel_request = 11

abbrev pub stream_credit : ℕ
stream_credit = 14

pub record Dialect (v : Values) : Type 0 where
  pub magic : v.Text
  pub version : v.Float
  pub handshake_request_id : ℕ
  pub message_type_field : v.Text
  pub magic_field : v.Text
  pub version_field : v.Text
  pub request_id_field : v.Text
  pub timeout_field : v.Text
  pub client_id_field : v.Text
  pub session_token_field : v.Text
  pub auth_field : v.Text
  pub function_name_field : v.Text
  pub arguments_field : v.Text
  pub result_field : v.Text
  pub error_field : v.Text
  pub code_field : v.Text
  pub credit_field : v.Text
  pub metadata_field : v.Text
  pub value_field : v.Text

module _ (v : Values) where
  unfoldable pub of_kind : v.Kind → Option v.Value → Option v.Value
  of_kind k none = none
  of_kind k (some x) = if not (v.same_kind (v.kind x) k) then none else some x

  unfoldable pub get_number_field : v.Value → v.Text → Option v.Value
  unfolding of_kind
  get_number_field m field = of_kind v.number_kind (v.get m field)

  unfoldable pub get_string_field : v.Value → v.Text → Option v.Value
  unfolding of_kind
  get_string_field m field = of_kind v.string_kind (v.get m field)

  module _ (d : Dialect v) where
    -- req.Put(SessionTokenField, token), unless the token is empty
    unfoldable pub with_token : v.Text → v.Value → v.Value
    with_token token m =
        if not (v.same_text token v.empty_text)
        then v.put m d.session_token_field (v.utf8 token)
        else m

    unfoldable pub new_handshake_request : ℕ → v.Text → v.Value
    new_handshake_request client_id token =
        let m0 = v.put v.empty_map d.magic_field (v.utf8 d.magic) in
        let m1 = v.put m0 d.version_field (v.double d.version) in
        let m2 = v.put m1 d.message_type_field (v.long handshake_request) in
        let m3 = v.put m2 d.request_id_field (v.long d.handshake_request_id) in
        let m4 = v.put m3 d.client_id_field (v.long client_id) in with_token token m4

    unfoldable pub new_handshake_response : v.Text → v.Value
    new_handshake_response token =
        let m0 = v.put v.empty_map d.magic_field (v.utf8 d.magic) in
        let m1 = v.put m0 d.version_field (v.double d.version) in
        let m2 = v.put m1 d.message_type_field (v.long handshake_response) in
        let m3 = v.put m2 d.request_id_field (v.long d.handshake_request_id) in with_token token m3

    unfoldable pub new_stream_credit : v.Value → ℕ → v.Value
    new_stream_credit request_id credit =
        let m0 = v.put v.empty_map d.message_type_field (v.long stream_credit) in
        let m1 = v.put m0 d.request_id_field request_id in v.put m1 d.credit_field (v.long credit)

    unfoldable pub right_magic : Option v.Value → Bool
    right_magic none = false
    right_magic (some magic) = v.same_text (v.to_text magic) d.magic

    unfoldable pub right_version : Option v.Value → Bool
    right_version none = false
    right_version (some version) = not (v.greater (v.to_double version) d.version)

    unfoldable pub valid_magic_and_version : v.Value → Bool
    valid_magic_and_version req =
        if not (right_magic (get_string_field req d.magic_field))
        then false
        else if not (right_version (get_number_field req d.version_field))
        then false
        else true
