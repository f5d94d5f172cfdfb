-- ===== src/Connection/Admission.antt =====
-- Who is admitted to a session, and what a refused peer changes.
use value_rpc.Prelude.{
  ℕ, ◌≡◌, refl, inl, inr, true, ◌==◌, List, ◌∷◌, Option, none, some, ==_iff, Bool-cases,
  Option-cases, arith,
}
use value_rpc.Wire.Values.{Values}
use value_rpc.Wire.Protocol.{
  Dialect, get_number_field, get_string_field, new_handshake_response, valid_magic_and_version,
  handshake_request,
}
use value_rpc.Session.Digest.{Digest}
use value_rpc.Session.Server.{
  Session, Server, Rejection, load, found_or_new, store_or_resume, create_or_update_serving_client,
}
use value_rpc.Session.Server.Isolation.{Resumes, handshake-Resumes}
use value_rpc.Connection.{
  Peer, Hooks, not_authorized, read_failed, empty_message_type, wrong_message_type,
  unsupported_version, authentication_failed, no_client_id, session_refused, write_failed,
  Handshaken, refused, admitted, authenticate, authorized, reply, presented_token, with_client_id,
  with_principal, with_type, with_request, handshake, closed_if_refused, admit,
}

-- A session of the principal on the connection.
abbrev pub IsBound : ℕ → List ℕ → ℕ → Server → Type 0
IsBound id principal conn t =
    (u : Session) × (load id t.client_map ≡ some u)
    × (u.principal ≡ principal)
    × (u.active_conn ≡ conn)

module _ (dig : Digest) where
  abbrev Settles : ℕ → List ℕ → ℕ → Server → Server × Option Rejection → Type 0
  Settles id principal conn s (t, none) = IsBound id principal conn t
  Settles id principal conn s (t, some r) = t ≡ s

  resumed-Settles :
      (id : ℕ) (token principal : List ℕ) (conn : ℕ) (existing : Session) (s : Server)
      (r : Server × Option Rejection)
      → Resumes dig id token principal conn existing s r
      → Settles id principal conn s r
  resumed-Settles id token principal conn existing s (t, none) (p, inl (_, e), _) =
      (record existing { resume_token = token; active_conn = conn }, e, p, refl)
  resumed-Settles id token principal conn existing s (t, none) (p, inr (_, e), _) =
      (record existing { active_conn = conn }, e, p, refl)
  resumed-Settles id token principal conn existing s (t, some r) e = e

  stored-Settles :
      (id : ℕ) (token principal : List ℕ) (conn : ℕ) (s : Server)
      → load id s.client_map ≡ none
      → Settles id principal conn s
          (create_or_update_serving_client dig (λ s. s) id token principal conn s)
  unfolding create_or_update_serving_client found_or_new store_or_resume
  stored-Settles id token principal conn s e =
      let u : Session = record {
        client_id = id;
        resume_token = token;
        principal = principal;
        active_conn = conn;
      } in
      rw e (rw e (u, unfold load in ground arith, refl, refl))

  session-Settles :
      (id : ℕ) (token principal : List ℕ) (conn : ℕ) (s : Server)
      → Settles id principal conn s
          (create_or_update_serving_client dig (λ s. s) id token principal conn s)
  session-Settles id token principal conn s = elim (Option-cases (load id s.client_map)) [
    | inl e ↦ stored-Settles id token principal conn s e
    | inr (existing, e) ↦
        resumed-Settles id token principal conn existing s _
          (handshake-Resumes dig (λ s. s) id token principal conn existing s e)
  ]

module _ (v : Values) (d : Dialect v) (dig : Digest) (chars : v.Text → List ℕ) (hooks : Hooks v)
    (peer : Peer v) where
  -- What has been checked and stored when the peer is admitted to the session of `id`.
  pub record IsAdmitted (id : ℕ) (t : Server) : Type 0 where
    pub req : v.Value
    pub mt : v.Value
    pub cid : v.Value
    pub principal : List ℕ
    pub may_connect : authorized v hooks.connect_authorizer peer.conn ≡ true
    pub has_first : peer.first ≡ some req
    pub has_type : get_number_field v req d.message_type_field ≡ some mt
    pub is_handshake : v.to_long mt ≡ handshake_request
    pub valid : valid_magic_and_version v d req ≡ true
    pub authenticated :
        authenticate v hooks.authenticator peer.conn (v.get req d.auth_field) ≡ some principal
    pub has_client_id : get_number_field v req d.client_id_field ≡ some cid
    pub same_id : v.to_long cid ≡ id
    pub bound : IsBound id principal peer.conn t

  abbrev Answered : Server → Server × Handshaken → Type 0
  Answered s (t, admitted id) = IsAdmitted id t
  Answered s (t, refused write_failed) = (id : ℕ) × IsAdmitted id t
  Answered s (t, refused e) = t ≡ s

  -- The outcome for a peer: an admitted one has passed every check, and its client's session has the
  -- authenticated principal and the connection. One whose reply could not be written has a session all
  -- the same. Every other peer changes nothing but that its connection is closed.
  abbrev pub Admits : Server → Server × Handshaken → Type 0
  Admits s (t, admitted id) = IsAdmitted id t
  Admits s (t, refused write_failed) = (id : ℕ) × IsAdmitted id t
  Admits s (t, refused e) = t ≡ record s { closed = peer.conn ∷ s.closed }

  reply-Answered :
      (id : ℕ) (principal : List ℕ) (s : Server) (r : Server × Option Rejection)
      → Settles dig id principal peer.conn s r
      → ((t : Server) → IsBound id principal peer.conn t → IsAdmitted id t)
      → Answered s (reply v d dig chars peer id r)
  unfolding reply
  reply-Answered id principal s (t, some r) e k = e
  reply-Answered id principal s (t, none) b k =
      elim (Bool-cases (peer.write (new_handshake_response v d v.empty_text))) [
        | inl w ↦ rw w (k t b)
        | inr w ↦ rw w (id, k t b)
      ]

  module _ (s : Server) (ok : authorized v hooks.connect_authorizer peer.conn ≡ true) where
    module _ (req mt : v.Value) (f : peer.first ≡ some req)
        (ty : get_number_field v req d.message_type_field ≡ some mt)
        (is : v.to_long mt ≡ handshake_request) (va : valid_magic_and_version v d req ≡ true) where
      client-Answered :
          (principal : List ℕ) (o : Option v.Value)
          → authenticate v hooks.authenticator peer.conn (v.get req d.auth_field) ≡ some principal
          → get_number_field v req d.client_id_field ≡ o
          → Answered s (with_client_id v d dig chars (λ s. s) peer req principal o s)
      unfolding with_client_id
      client-Answered principal none a e = refl
      client-Answered principal (some cid) a e =
          let token =
            presented_token v d dig chars (get_string_field v req d.session_token_field) in
          reply-Answered (v.to_long cid) principal s _
            (session-Settles dig (v.to_long cid) token principal peer.conn s)
            (λ t b. record {
              req = req;
              mt = mt;
              cid = cid;
              principal = principal;
              may_connect = ok;
              has_first = f;
              has_type = ty;
              is_handshake = is;
              valid = va;
              authenticated = a;
              has_client_id = e;
              same_id = refl;
              bound = b;
            })

      principal-Answered :
          (o : Option (List ℕ))
          → authenticate v hooks.authenticator peer.conn (v.get req d.auth_field) ≡ o
          → Answered s (with_principal v d dig chars (λ s. s) peer req o s)
      unfolding with_principal
      principal-Answered none e = refl
      principal-Answered (some principal) e =
          client-Answered principal (get_number_field v req d.client_id_field) e refl

    module _ (req : v.Value) (f : peer.first ≡ some req) where
      type-Answered :
          (o : Option v.Value)
          → get_number_field v req d.message_type_field ≡ o
          → Answered s (with_type v d dig chars (λ s. s) hooks peer req o s)
      unfolding with_type
      type-Answered none e = refl
      type-Answered (some mt) e = elim (Bool-cases (v.to_long mt == handshake_request)) [
        | inr n ↦ rw n refl
        | inl y ↦ rw y (elim (Bool-cases (valid_magic_and_version v d req)) [
          | inr n ↦ rw n refl
          | inl va ↦ rw va (
              principal-Answered req mt f e ((==_iff (v.to_long mt) handshake_request).0 y) va
                (authenticate v hooks.authenticator peer.conn (v.get req d.auth_field)) refl)
        ])
      ]

    request-Answered :
        (o : Option v.Value)
        → peer.first ≡ o
        → Answered s (with_request v d dig chars (λ s. s) hooks peer o s)
    unfolding with_request
    request-Answered none e = refl
    request-Answered (some req) e =
        type-Answered req e (get_number_field v req d.message_type_field) refl

  -- The connection's closing keeps what is stored.
  closed-IsAdmitted :
      (id : ℕ) (t : Server) (closed : List ℕ)
      → IsAdmitted id t
      → IsAdmitted id (record t { closed = closed })
  closed-IsAdmitted id t closed a = record {
    req = a.req;
    mt = a.mt;
    cid = a.cid;
    principal = a.principal;
    may_connect = a.may_connect;
    has_first = a.has_first;
    has_type = a.has_type;
    is_handshake = a.is_handshake;
    valid = a.valid;
    authenticated = a.authenticated;
    has_client_id = a.has_client_id;
    same_id = a.same_id;
    bound = a.bound;
  }

  closed-Admits :
      (s : Server) (r : Server × Handshaken)
      → Answered s r
      → Admits s (closed_if_refused v d dig chars peer.conn r)
  unfolding closed_if_refused
  closed-Admits s (t, admitted id) a = a
  closed-Admits s (t, refused write_failed) (id, a) = (id, closed-IsAdmitted id t _ a)
  closed-Admits s (t, refused not_authorized) e = rw e refl
  closed-Admits s (t, refused read_failed) e = rw e refl
  closed-Admits s (t, refused empty_message_type) e = rw e refl
  closed-Admits s (t, refused wrong_message_type) e = rw e refl
  closed-Admits s (t, refused unsupported_version) e = rw e refl
  closed-Admits s (t, refused authentication_failed) e = rw e refl
  closed-Admits s (t, refused no_client_id) e = rw e refl
  closed-Admits s (t, refused (session_refused r)) e = rw e refl

  -- A connection is admitted to a session only if the authorizer lets it in, its first message is a valid
  -- handshake with a client id, and the authenticator gives a principal; that client's session then is the
  -- principal's and on the connection. The same holds where the reply cannot be written. In every other
  -- case the server's sessions stay as they were and the connection is closed. No other connection
  -- interferes.
  pub admit-Admits : (s : Server) → Admits s (admit v d dig chars (λ s. s) hooks peer s)
  unfolding admit handshake
  admit-Admits s = elim (Bool-cases (authorized v hooks.connect_authorizer peer.conn)) [
    | inl ok ↦ rw ok (closed-Admits s _ (request-Answered s ok peer.first refl))
    | inr no' ↦ rw no' (unfold closed_if_refused in refl)
  ]
