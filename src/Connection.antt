-- ===== src/Connection.antt =====
-- valueserver/server.go: handshake and handleConnection, which admit a connection to a session and hand
-- its messages to it. A connection is a number; what it sends and whether a write to it succeeds come from
-- the peer. The authorizer and the authenticator are set by the server's user.
pub mod Admission
pub mod Delivery
use value_rpc.Prelude.{
  ℕ, Bool, true, false, not, ◌==◌, if◌then◌else◌, List, [], ◌∷◌, Option, none, some,
}
use mathlib.Core.Option
use value_rpc.Wire.Values.{Values}
use value_rpc.Wire.Protocol.{
  Dialect, get_number_field, get_string_field, new_handshake_response, valid_magic_and_version,
  handshake_request,
}
use value_rpc.Session.Digest.{Digest}
use value_rpc.Session.Server.{Server, Rejection, create_or_update_serving_client}
use value_rpc.Serving.{Message, Function, Limits, Serving, process_request}

-- `first` is the first message, or none where its read fails.
pub record Peer (v : Values) : Type 0 where
  pub conn : ℕ
  pub first : Option v.Value
  pub write : v.Value → Bool

-- The hooks of a server, where they are set: the authorizer of a connection, and the authenticator of its
-- credential, which gives a principal.
pub record Hooks (v : Values) : Type 0 where
  pub connect_authorizer : Option (ℕ → Bool)
  pub authenticator : Option (ℕ → Option v.Value → Option (List ℕ))

pub data HandshakeError : Type 0 where
  not_authorized read_failed empty_message_type wrong_message_type unsupported_version :
      HandshakeError
  authentication_failed no_client_id write_failed : HandshakeError
  session_refused : Rejection → HandshakeError

-- The session that the connection is admitted to, by its client's id.
pub data Handshaken : Type 0 where
  refused : HandshakeError → Handshaken
  admitted : ℕ → Handshaken

module _ (v : Values) where
  unfoldable pub authenticate :
      Option (ℕ → Option v.Value → Option (List ℕ)) → ℕ → Option v.Value → Option (List ℕ)
  authenticate none conn credential = some []
  authenticate (some authn) conn credential = authn conn credential

  unfoldable pub authorized : Option (ℕ → Bool) → ℕ → Bool
  authorized none conn = true
  authorized (some authz) conn = authz conn

-- `chars` gives the bytes of a text.
module _ (v : Values) (d : Dialect v) (dig : Digest) (chars : v.Text → List ℕ) where
  unfoldable pub presented_token : Option v.Value → List ℕ
  presented_token none = []
  presented_token (some token) = chars (v.to_text token)

  unfoldable pub reply : Peer v → ℕ → Server × Option Rejection → Server × Handshaken
  reply peer id (s, some r) = (s, refused (session_refused r))
  reply peer id (s, none) =
      if peer.write (new_handshake_response v d v.empty_text)
      then (s, admitted id)
      else (s, refused write_failed)

  unfoldable pub with_client_id :
      (Server → Server) → Peer v → v.Value → List ℕ → Option v.Value → Server → Server × Handshaken
  unfolding reply presented_token
  with_client_id meanwhile peer req principal none s = (s, refused no_client_id)
  with_client_id meanwhile peer req principal (some cid) s =
      let token = presented_token (get_string_field v req d.session_token_field) in
      reply peer (v.to_long cid)
        (create_or_update_serving_client dig meanwhile (v.to_long cid) token principal peer.conn s)

  unfoldable pub with_principal :
      (Server → Server) → Peer v → v.Value → Option (List ℕ) → Server → Server × Handshaken
  unfolding with_client_id
  with_principal meanwhile peer req none s = (s, refused authentication_failed)
  with_principal meanwhile peer req (some principal) s =
      with_client_id meanwhile peer req principal (get_number_field v req d.client_id_field) s

  unfoldable pub with_type :
      (Server → Server) → Hooks v → Peer v → v.Value → Option v.Value → Server → Server × Handshaken
  unfolding with_principal
  with_type meanwhile hooks peer req none s = (s, refused empty_message_type)
  with_type meanwhile hooks peer req (some mt) s =
      if not (v.to_long mt == handshake_request)
      then (s, refused wrong_message_type)
      else if not (valid_magic_and_version v d req)
      then (s, refused unsupported_version)
      else with_principal meanwhile peer req
          (authenticate v hooks.authenticator peer.conn (v.get req d.auth_field)) s

  unfoldable pub with_request :
      (Server → Server) → Hooks v → Peer v → Option v.Value → Server → Server × Handshaken
  unfolding with_type
  with_request meanwhile hooks peer none s = (s, refused read_failed)
  with_request meanwhile hooks peer (some req) s =
      with_type meanwhile hooks peer req (get_number_field v req d.message_type_field) s

  unfoldable pub handshake : (Server → Server) → Hooks v → Peer v → Server → Server × Handshaken
  unfolding with_request
  handshake meanwhile hooks peer s = with_request meanwhile hooks peer peer.first s

  -- A connection that is not admitted is closed.
  unfoldable pub closed_if_refused : ℕ → Server × Handshaken → Server × Handshaken
  closed_if_refused conn (s, refused e) = (record s { closed = conn ∷ s.closed }, refused e)
  closed_if_refused conn (s, admitted id) = (s, admitted id)

  -- The start of `handleConnection`, up to its read loop.
  unfoldable pub admit : (Server → Server) → Hooks v → Peer v → Server → Server × Handshaken
  unfolding handshake authorized
  admit meanwhile hooks peer s = closed_if_refused peer.conn (
      if authorized v hooks.connect_authorizer peer.conn
      then handshake meanwhile hooks peer s
      else (s, refused not_authorized))

module _ (v : Values) (d : Dialect v) where
  -- The fields of a request as processRequest reads them.
  unfoldable pub with_id : v.Value → v.Value → Option v.Value → Option (Message v)
  with_id req mt none = none
  with_id req mt (some id) = some (record {
    message_type = v.to_long mt;
    id = v.to_long id;
    name = Option.map v.to_text (get_string_field v req d.function_name_field);
    args = v.get req d.arguments_field;
  })

  unfoldable pub with_message_type : v.Value → Option v.Value → Option (Message v)
  unfolding with_id
  with_message_type req none = none
  with_message_type req (some mt) = with_id req mt (get_number_field v req d.request_id_field)

  unfoldable pub message_of : v.Value → Option (Message v)
  unfolding with_message_type
  message_of req = with_message_type req (get_number_field v req d.message_type_field)

module _ (v : Values) (d : Dialect v) (limits : Limits) (find : v.Text → Option (Function v)) where
  unfoldable pub process_message : Option (Message v) → Serving v → Serving v
  process_message none s = s
  process_message (some m) s = process_request v limits find s m

  -- The messages of the read loop, one after the other: an error of one does not end the loop.
  unfoldable pub serve_messages : List v.Value → Serving v → Serving v
  unfolding process_message
  serve_messages [] s = s
  serve_messages (req ∷ reqs) s = serve_messages reqs (process_message (message_of v d req) s)
