-- ===== src/Envelope/Asked.antt =====
-- What the serving end finds in the request of a call.
use value_rpc.Prelude.{
  ℕ, ◌≡◌, refl, sym, subst, ◌∙◌, ap, Bool-cases, inl, inr, slt, [], ◌∷◌, Option, none, some, arith,
}
use value_rpc.Wire.Values.{Values, lookup_by}
use value_rpc.Wire.Protocol.{Dialect, get_number_field, get_string_field}
use value_rpc.Envelope.{put_some, new_function_request}
use value_rpc.Envelope.Metadata.{
  Metadata, encode_metadata, decode_value, decode_metadata, read_key, value_of, decode-encode,
}
use value_rpc.Envelope.Request.{
  put_or_nil, with_timeout, with_metadata, construct_request, numbered, call_request,
}
use value_rpc.Envelope.Fields.{
  Field, message_type, request_id, function_name, arguments, timeout, metadata, name_of,
  NamesDiffer, other, read_number, read_string,
}

module _ (v : Values) (d : Dialect v) where
  -- The value that arrives is the one sent, and nothing arrives as nil or null.
  abbrev pub Received : Option v.Value → Option v.Value → Type 0
  Received none r = (x : v.Value) → r ≡ some x → v.kind x ≡ v.null_kind
  Received (some x) r = r ≡ some x

  -- Metadata with the same entries; the empty map and nil have none.
  abbrev pub SameEntries : Option (Metadata v) → Option (Metadata v) → Type 0
  SameEntries a b = (k : v.Text) → read_key v k a ≡ read_key v k b

  module _ (names : NamesDiffer v d) where
    -- Passing over the metadata field.
    pub past_metadata :
        (md : Option (Metadata v)) (m : v.Value) (f : Field) {r : Option v.Value}
        → ¬ (metadata ≡ f)
        → v.get m (name_of v d f) ≡ r
        → v.get (with_metadata v d md m) (name_of v d f) ≡ r
    unfolding with_metadata put_some encode_metadata name_of
    past_metadata none m f ne e = e
    past_metadata (some []) m f ne e = e
    past_metadata (some (x ∷ md)) m f ne e = other v d names metadata f _ ne e

    past_timeout :
        (t : ℕ) (m : v.Value) (f : Field) {r : Option v.Value}
        → ¬ (timeout ≡ f)
        → v.get m (name_of v d f) ≡ r
        → v.get (with_timeout v d t m) (name_of v d f) ≡ r
    unfolding with_timeout name_of
    past_timeout t m f ne e = elim (Bool-cases (slt 0 t)) [
      | inl s ↦ rw s (other v d names timeout f _ ne e)
      | inr s ↦ rw s e
    ]

    pub past_args :
        (args : Option v.Value) (m : v.Value) (f : Field) {r : Option v.Value}
        → ¬ (arguments ≡ f)
        → v.get m (name_of v d f) ≡ r
        → v.get (put_or_nil v d args (name_of v d arguments) m) (name_of v d f) ≡ r
    unfolding put_or_nil
    past_args none m f ne e = v.get_put_nil_other m _ _ (λ same. ne (names arguments f same)) ∙ e
    past_args (some x) m f ne e = other v d names arguments f x ne e

    past_some :
        (args : Option v.Value) (m : v.Value) (f : Field) {r : Option v.Value}
        → ¬ (arguments ≡ f)
        → v.get m (name_of v d f) ≡ r
        → v.get (put_some v d args (name_of v d arguments) m) (name_of v d f) ≡ r
    unfolding put_some
    past_some none m f ne e = e
    past_some (some x) m f ne e = other v d names arguments f x ne e

    -- The fields that are put in before the arguments are others than `f`.
    past_head :
        (mt g x : v.Value) (h f : Field)
        → ¬ (message_type ≡ f)
        → ¬ (h ≡ f)
        → ¬ (function_name ≡ f)
        → v.get
            (v.put
              (v.put (v.put v.empty_map (name_of v d message_type) mt) (name_of v d h) g)
              (name_of v d function_name)
              x)
            (name_of v d f)
          ≡ v.get v.empty_map (name_of v d f)
    past_head mt g x h f a b c =
        other v d names function_name f x c
          (other v d names h f g b (other v d names message_type f mt a refl))

    decode_nothing :
        (o : Option v.Value)
        → ((x : v.Value) → o ≡ some x → v.kind x ≡ v.null_kind)
        → decode_value v o ≡ none
    unfolding decode_value
    decode_nothing none h = refl
    decode_nothing (some x) h =
        ground (arith, h x refl, v.same_kind_iff (v.kind x) v.map_kind, v.null_map)

    -- The metadata that is decoded from a request to which nothing else was added under its field.
    decode-with_metadata :
        (md : Option (Metadata v)) (m : v.Value)
        → ((x : v.Value) → v.get m (name_of v d metadata) ≡ some x → v.kind x ≡ v.null_kind)
        → SameEntries (decode_metadata v d (with_metadata v d md m)) md
    unfolding with_metadata put_some encode_metadata name_of decode_metadata read_key value_of
        lookup_by
    decode-with_metadata none m nothing k = ap (read_key v k) (decode_nothing _ nothing)
    decode-with_metadata (some []) m nothing k = ap (read_key v k) (decode_nothing _ nothing)
    decode-with_metadata (some (x ∷ md)) m nothing k =
        ap (λ o. read_key v k (decode_value v o)) (v.get_put _ _ _) ∙ decode-encode v (x ∷ md) k

  -- What a reader of a call's request finds.
  pub record Asks (m : v.Value) (id : ℕ) (name : v.Text) (args : Option v.Value)
      (md : Option (Metadata v)) : Type 0 where
    pub id_read : get_number_field v m d.request_id_field ≡ some (v.long id)
    pub name_read : get_string_field v m d.function_name_field ≡ some (v.utf8 name)
    pub args_read : Received args (v.get m d.arguments_field)
    pub metadata_read : SameEntries (decode_metadata v d m) md

  module _ (names : NamesDiffer v d) where
    call_args :
        (id : ℕ) (name : v.Text) (args : Option v.Value) (md : Option (Metadata v))
        → Received args (v.get (call_request v d id name args md) d.arguments_field)
    unfolding put_some name_of call_request new_function_request
    call_args id name none md = λ x e. v.get_empty _ x (
        sym (
          past_metadata names md _ arguments (λ q. cc)
            (past_head names _ _ _ request_id arguments (λ q. cc) (λ q. cc) (λ q. cc)))
        ∙ e)
    call_args id name (some y) md = past_metadata names md _ arguments (λ e. cc) (v.get_put _ _ _)

    pub call_request-Asks :
        (id : ℕ) (name : v.Text) (args : Option v.Value) (md : Option (Metadata v))
        → Asks (call_request v d id name args md) id name args md
    unfolding call_request new_function_request name_of
    call_request-Asks id name args md = record {
      id_read = read_number v _ _ _ (v.kind_long _) (
          past_metadata names md _ request_id (λ e. cc)
            (past_some names args _ request_id (λ e. cc)
              (other v d names function_name request_id _ (λ e. cc) (v.get_put _ _ _))));
      name_read = read_string v _ _ _ (
          past_metadata names md _ function_name (λ e. cc)
            (past_some names args _ function_name (λ e. cc) (v.get_put _ _ _)));
      args_read = call_args id name args md;
      metadata_read = decode-with_metadata names md _ (λ x e. v.get_empty _ x (
          sym (
            past_some names args _ metadata (λ q. cc)
              (past_head names _ _ _ request_id metadata (λ q. cc) (λ q. cc) (λ q. cc)))
          ∙ e));
    }

    module _ (mt id t : ℕ) (name : v.Text) (args : Option v.Value) (md : Option (Metadata v)) where
      abbrev asked : v.Value
      asked = numbered v d id (construct_request v d mt name args t md)

      abbrev start : v.Value
      start =
          v.put (v.put v.empty_map d.message_type_field (v.long mt)) d.function_name_field
            (v.utf8 name)

      -- A field of the client's request, which the id, the metadata and the timeout are put into last.
      past_end :
          (f : Field) {r : Option v.Value}
          → ¬ (request_id ≡ f)
          → ¬ (metadata ≡ f)
          → ¬ (timeout ≡ f)
          → v.get (put_or_nil v d args d.arguments_field start) (name_of v d f) ≡ r
          → v.get asked (name_of v d f) ≡ r
      unfolding numbered construct_request name_of
      past_end f a b c e =
          other v d names request_id f _ a
            (past_metadata names md _ f b (past_timeout names t _ f c e))

      id_put : v.get asked d.request_id_field ≡ some (v.long id)
      unfolding numbered
      id_put = v.get_put _ _ _

      args_put :
          (o : Option v.Value)
          → Received o (v.get (put_or_nil v d o d.arguments_field start) d.arguments_field)
      unfolding put_or_nil
      args_put none = λ x e. v.get_put_nil _ _ x e
      args_put (some y) = v.get_put _ _ _

      same_Received :
          {a b : Option v.Value} (o : Option v.Value) → a ≡ b → Received o b → Received o a
      same_Received o e r = subst (Received o) (sym e) r

      no_metadata :
          (x : v.Value)
          → v.get
              (with_timeout v d t (put_or_nil v d args d.arguments_field start))
              d.metadata_field
            ≡ some x
          → v.kind x ≡ v.null_kind
      unfolding name_of
      no_metadata x e = v.get_empty _ x (
          sym (
            past_timeout names t _ metadata (λ q. cc)
              (past_args names args _ metadata (λ q. cc)
                (other v d names function_name metadata _ (λ q. cc)
                  (other v d names message_type metadata _ (λ q. cc) refl))))
          ∙ e)

      pub type_read : get_number_field v asked d.message_type_field ≡ some (v.long mt)
      unfolding name_of
      type_read = read_number v _ _ _ (v.kind_long _) (
          past_end message_type (λ e. cc) (λ e. cc) (λ e. cc)
            (past_args names args _ message_type (λ e. cc)
              (other v d names function_name message_type _ (λ e. cc) (v.get_put _ _ _))))

      decoded : SameEntries (decode_metadata v d asked) md
      unfolding numbered construct_request name_of decode_metadata
      decoded k =
          ap (λ o. read_key v k (decode_value v o))
            (other v d names request_id metadata _ (λ e. cc) refl)
          ∙ decode-with_metadata names md _ no_metadata k

      pub construct_request-Asks :
          Asks (numbered v d id (construct_request v d mt name args t md)) id name args md
      unfolding name_of
      construct_request-Asks = record {
        id_read = read_number v _ _ _ (v.kind_long _) id_put;
        name_read = read_string v _ _ _ (
            past_end function_name (λ e. cc) (λ e. cc) (λ e. cc)
              (past_args names args _ function_name (λ e. cc) (v.get_put _ _ _)));
        args_read =
            same_Received args (past_end arguments (λ e. cc) (λ e. cc) (λ e. cc) refl)
              (args_put args);
        metadata_read = decoded;
      }
