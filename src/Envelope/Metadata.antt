-- ===== src/Envelope/Metadata.antt =====
-- valuerpc/metadata.go: the metadata of a call as a field of its request. Metadata is a Go map, here
-- an association list, and `none` is the nil map.
use value_rpc.Prelude.{
  ◌≡◌, refl, ◌∙◌, true, if◌then◌else◌, Bool-cases, List, [], ◌∷◌, Option, none, some, inl, inr,
  arith,
}
use mathlib.Core.Option.{none-ne-some}
use value_rpc.Wire.Values.{Values, lookup_by}
use value_rpc.Wire.Protocol.{Dialect}

module _ (v : Values) where
  abbrev pub Metadata : Type 0
  Metadata = List (v.Text × v.Text)

  unfoldable pub utf8_values : Metadata → List (v.Text × v.Value)
  utf8_values [] = []
  utf8_values ((k, s) ∷ md) = (k, v.utf8 s) ∷ utf8_values md

  unfoldable pub encode_metadata : Metadata → Option v.Value
  unfolding utf8_values
  encode_metadata [] = none
  encode_metadata ((k, s) ∷ md) = some (v.map_of (utf8_values ((k, s) ∷ md)))

  -- The loop of DecodeMetadata, which passes over what is not a value.String, a value of the string kind.
  unfoldable pub strings : List (v.Text × v.Value) → Metadata
  strings [] = []
  strings ((k, x) ∷ m) =
      let rest = strings m in
      if v.same_kind (v.kind x) v.string_kind then (k, v.to_text x) ∷ rest else rest

  unfoldable pub decode_entries : List (v.Text × v.Value) → Option Metadata
  unfolding strings
  decode_entries [] = none
  decode_entries (x ∷ m) = some (strings (x ∷ m))

  unfoldable pub decode_value : Option v.Value → Option Metadata
  unfolding decode_entries
  decode_value none = none
  decode_value (some x) =
      if v.same_kind (v.kind x) v.map_kind then decode_entries (v.hash_map x) else none

  unfoldable pub decode_metadata : Dialect v → v.Value → Option Metadata
  unfolding decode_value
  decode_metadata d req = decode_value (v.get req d.metadata_field)

  unfoldable pub value_of : v.Text → Metadata → Option v.Text
  value_of k md = lookup_by v.same_text k md

  -- What a reader of the decoded metadata finds under a key, nil metadata holding nothing.
  unfoldable pub read_key : v.Text → Option Metadata → Option v.Text
  unfolding value_of
  read_key k none = none
  read_key k (some md) = value_of k md

  abbrev as_string : Option v.Text → Option v.Value
  as_string none = none
  as_string (some s) = some (v.utf8 s)

  lookup-utf8_values :
      (k : v.Text) (md : Metadata)
      → lookup_by v.same_text k (utf8_values md) ≡ as_string (value_of k md)
  unfolding lookup_by utf8_values value_of
  lookup-utf8_values k [] = refl
  lookup-utf8_values k ((j, s) ∷ md) = elim (Bool-cases (v.same_text j k)) [
    | inl e ↦ rw e refl
    | inr e ↦ rw e (lookup-utf8_values k md)
  ]

  -- No entry that is passed over comes before the one that a lookup of a string finds.
  lookup-strings :
      (k : v.Text) (m : List (v.Text × v.Value)) (o : Option v.Text)
      → lookup_by v.same_text k m ≡ as_string o
      → value_of k (strings m) ≡ o
  unfolding lookup_by strings value_of
  lookup-strings k [] none e = refl
  lookup-strings k [] (some s) e = absurd (none-ne-some _ e)
  lookup-strings k ((j, x) ∷ m) none e = ground (arith, lookup-strings k m none)
  lookup-strings k ((j, x) ∷ m) (some s) e = ground (
    arith,
    lookup-strings k m (some s),
    v.kind_utf8 s,
    v.text_utf8 s,
    v.same_kind_iff (v.kind x) v.string_kind,
  )

  read-decode_entries :
      (k : v.Text) (m : List (v.Text × v.Value))
      → read_key k (decode_entries m) ≡ value_of k (strings m)
  unfolding read_key decode_entries strings value_of lookup_by
  read-decode_entries k [] = refl
  read-decode_entries k (x ∷ m) = refl

  -- What is decoded from encoded metadata holds under every key what the metadata holds.
  pub decode-encode :
      (md : Metadata) (k : v.Text) → read_key k (decode_value (encode_metadata md)) ≡ value_of k md
  unfolding encode_metadata decode_value read_key value_of lookup_by
  decode-encode [] k = refl
  decode-encode ((j, s) ∷ md) k = rw is_map (
      read-decode_entries k _
      ∙ lookup-strings k _ (value_of k ((j, s) ∷ md))
          (v.hash_map_of _ k ∙ lookup-utf8_values k ((j, s) ∷ md)))
    where
      is_map : v.same_kind (v.kind (v.map_of (utf8_values ((j, s) ∷ md)))) v.map_kind ≡ true
      is_map = (v.same_kind_iff _ _).1 (v.kind_map_of _)
