-- ===== src/Wire/Protocol/Handshake.antt =====
-- Whether the two ends read each other's handshake.
use value_rpc.Prelude.{ℕ, ◌≡◌, ◌≢◌, ◌∙◌, ap, ◌↔◌, true, false, Option, some, arith}
use value_rpc.Wire.Values.{Values}
use value_rpc.Wire.Protocol.{
  Dialect, of_kind, get_number_field, get_string_field, with_token, new_handshake_request,
  right_magic, right_version, valid_magic_and_version, handshake_request,
}

-- The fields of a handshake request have different names.
pub record Distinct (v : Values) (d : Dialect v) : Type 0 where
  pub version_magic : d.version_field ≢ d.magic_field
  pub type_magic : d.message_type_field ≢ d.magic_field
  pub type_version : d.message_type_field ≢ d.version_field
  pub id_magic : d.request_id_field ≢ d.magic_field
  pub id_version : d.request_id_field ≢ d.version_field
  pub id_type : d.request_id_field ≢ d.message_type_field
  pub client_magic : d.client_id_field ≢ d.magic_field
  pub client_version : d.client_id_field ≢ d.version_field
  pub client_type : d.client_id_field ≢ d.message_type_field
  pub client_id : d.client_id_field ≢ d.request_id_field
  pub token_magic : d.session_token_field ≢ d.magic_field
  pub token_version : d.session_token_field ≢ d.version_field
  pub token_type : d.session_token_field ≢ d.message_type_field
  pub token_id : d.session_token_field ≢ d.request_id_field
  pub token_client : d.session_token_field ≢ d.client_id_field

module _ (v : Values) (d : Dialect v) where
  -- A reader of the request finds nothing of `field` changed by the last `put`.
  get-with_token :
      (token field : v.Text) (m : v.Value)
      → d.session_token_field ≢ field
      → v.get (with_token v d token m) field ≡ v.get m field
  unfolding with_token
  get-with_token token field m ne =
      ground (arith, v.get_put_other m d.session_token_field field (v.utf8 token) ne)

  -- The request before its token is added, field by field.
  abbrev header : ℕ → v.Value
  header id =
      v.put
        (v.put
          (v.put
            (v.put (v.put v.empty_map d.magic_field (v.utf8 d.magic)) d.version_field
              (v.double d.version))
            d.message_type_field (v.long handshake_request))
          d.request_id_field (v.long d.handshake_request_id))
        d.client_id_field (v.long id)

  -- A reader passes over the fields that were put in later.
  skip :
      {m : v.Value} {j : v.Text} {r : Option v.Value} (k : v.Text) (x : v.Value)
      → k ≢ j
      → v.get m j ≡ r
      → v.get (v.put m k x) j ≡ r
  skip k x ne e = v.get_put_other _ k _ x ne ∙ e

  get-token :
      (id : ℕ) (token field : v.Text) {r : Option v.Value}
      → d.session_token_field ≢ field
      → v.get (header id) field ≡ r
      → v.get (new_handshake_request v d id token) field ≡ r
  unfolding new_handshake_request
  get-token id token field ne e = get-with_token token field (header id) ne ∙ e

  module _ (h : Distinct v d) (id : ℕ) (token : v.Text) where
    get-client : v.get (new_handshake_request v d id token) d.client_id_field ≡ some (v.long id)
    get-client = get-token id token _ h.token_client (v.get_put _ _ _)

    get-id :
        v.get (new_handshake_request v d id token) d.request_id_field
        ≡ some (v.long d.handshake_request_id)
    get-id = get-token id token _ h.token_id (skip _ _ h.client_id (v.get_put _ _ _))

    get-type :
        v.get (new_handshake_request v d id token) d.message_type_field
        ≡ some (v.long handshake_request)
    get-type =
        get-token id token _ h.token_type
          (skip _ _ h.client_type (skip _ _ h.id_type (v.get_put _ _ _)))

    get-version :
        v.get (new_handshake_request v d id token) d.version_field ≡ some (v.double d.version)
    get-version = get-token id token _ h.token_version (
        skip _ _ h.client_version
          (skip _ _ h.id_version (skip _ _ h.type_version (v.get_put _ _ _))))

    get-magic : v.get (new_handshake_request v d id token) d.magic_field ≡ some (v.utf8 d.magic)
    get-magic = get-token id token _ h.token_magic (
        skip _ _ h.client_magic (
          skip _ _ h.id_magic (skip _ _ h.type_magic (skip _ _ h.version_magic (v.get_put _ _ _)))))

    get-session_token :
        token ≢ v.empty_text
        → v.get (new_handshake_request v d id token) d.session_token_field ≡ some (v.utf8 token)
    unfolding new_handshake_request with_token
    get-session_token ne = ground (
      arith,
      v.same_text_iff token v.empty_text,
      v.get_put (header id) d.session_token_field (v.utf8 token),
    )

  of_kind-some : (k : v.Kind) (x : v.Value) → v.kind x ≡ k → of_kind v k (some x) ≡ some x
  unfolding of_kind
  of_kind-some k x e = ground (arith, v.same_kind_iff (v.kind x) k)

  read_number :
      (m : v.Value) (field : v.Text) (x : v.Value)
      → v.kind x ≡ v.number_kind
      → v.get m field ≡ some x
      → get_number_field v m field ≡ some x
  unfolding get_number_field
  read_number m field x k e = ap (of_kind v v.number_kind) e ∙ of_kind-some v.number_kind x k

  read_string :
      (m : v.Value) (field x : v.Text)
      → v.get m field ≡ some (v.utf8 x)
      → get_string_field v m field ≡ some (v.utf8 x)
  unfolding get_string_field
  read_string m field x e =
      ap (of_kind v v.string_kind) e ∙ of_kind-some v.string_kind (v.utf8 x) (v.kind_utf8 x)

  -- When the names of a dialect's fields differ, a reader of a handshake request finds the request's
  -- type, the handshake's id, the client's id and the token, if the token is not empty.
  pub request_reads_back :
      (id : ℕ) (token : v.Text)
      → Distinct v d
      → token ≢ v.empty_text
      → let m = new_handshake_request v d id token in
        (get_number_field v m d.message_type_field ≡ some (v.long handshake_request))
        × (get_number_field v m d.request_id_field ≡ some (v.long d.handshake_request_id))
        × (get_number_field v m d.client_id_field ≡ some (v.long id))
        × (get_string_field v m d.session_token_field ≡ some (v.utf8 token))
  request_reads_back id token h ne = (
    read_number _ _ _ (v.kind_long _) (get-type h id token),
    read_number _ _ _ (v.kind_long _) (get-id h id token),
    read_number _ _ _ (v.kind_long _) (get-client h id token),
    read_string _ _ _ (get-session_token h id token ne),
  )

-- A peer of dialect `e` that uses the other's names of the magic and the version field accepts its
-- handshake request exactly when the magics are the same and the other's version is not greater.
pub accepts_request_iff :
    (v : Values) (d e : Dialect v) (id : ℕ) (token : v.Text)
    → Distinct v d
    → e.magic_field ≡ d.magic_field
    → e.version_field ≡ d.version_field
    → (valid_magic_and_version v e (new_handshake_request v d id token) ≡ true)
      ↔ ((d.magic ≡ e.magic) × (v.greater d.version e.version ≡ false))
unfolding valid_magic_and_version right_magic right_version
accepts_request_iff v d e id token h em ev = rw em (
    rw ev (
      rw magic_read (
        rw version_read (
          ground (
            arith,
            v.text_utf8 d.magic,
            v.double_double d.version,
            v.same_text_iff (v.to_text (v.utf8 d.magic)) e.magic,
          )))))
  where
    magic_read :
        get_string_field v (new_handshake_request v d id token) d.magic_field
        ≡ some (v.utf8 d.magic)
    magic_read = read_string v d _ _ _ (get-magic v d h id token)

    version_read :
        get_number_field v (new_handshake_request v d id token) d.version_field
        ≡ some (v.double d.version)
    version_read = read_number v d _ _ _ (v.kind_double _) (get-version v d h id token)
