-- ===== src/Wire/Values.antt =====
-- What the program uses of go.arpabet.com/value. A Go value.Value that may be nil is an Option; a list
-- or a map is a value, and its operations are used after a test of its kind.
use value_rpc.Prelude.{
  ℕ, ◌≡◌, ◌≢◌, ◌↔◌, Bool, true, Option, none, some, List, [], ◌∷◌, if◌then◌else◌,
}

-- A Go map from texts is an association list, in which the first entry of a key counts.
unfoldable pub lookup_by : {T A : Type 0} → (T → T → Bool) → T → List (T × A) → Option A
lookup_by same k [] = none
lookup_by same k ((j, x) ∷ m) = let rest = lookup_by same k m in if same j k then some x else rest

pub record Values : Type 1 where
  pub Text : Type 0
  -- ==, and the test against ""
  pub same_text : Text → Text → Bool
  pub same_text_iff : (a b : Text) → (same_text a b ≡ true) ↔ (a ≡ b)
  pub empty_text : Text
  pub Kind : Type 0
  pub same_kind : Kind → Kind → Bool
  pub same_kind_iff : (a b : Kind) → (same_kind a b ≡ true) ↔ (a ≡ b)
  pub null_kind : Kind
  pub number_kind : Kind
  pub string_kind : Kind
  pub list_kind : Kind
  pub map_kind : Kind
  pub Value : Type 0
  pub kind : Value → Kind
  -- == value.Null
  pub is_null : Value → Bool
  pub list_len : Value → ℕ
  pub get_at : Value → ℕ → Option Value
  pub map_len : Value → ℕ
  pub get : Value → Text → Option Value
  pub empty_map : Value
  pub put : Value → Text → Value → Value
  pub get_put : (m : Value) (k : Text) (v : Value) → get (put m k v) k ≡ some v
  pub get_put_other : (m : Value) (k j : Text) (v : Value) → k ≢ j → get (put m k v) j ≡ get m j
  -- value.Long and Long(), on int64 patterns
  pub long : ℕ → Value
  pub to_long : Value → ℕ
  pub kind_long : (n : ℕ) → kind (long n) ≡ number_kind
  pub long_long : (n : ℕ) → to_long (long n) ≡ n
  -- value.Double, Double() and > on float64
  pub Float : Type 0
  pub double : Float → Value
  pub to_double : Value → Float
  pub greater : Float → Float → Bool
  pub kind_double : (x : Float) → kind (double x) ≡ number_kind
  pub double_double : (x : Float) → to_double (double x) ≡ x
  -- value.Utf8 and String()
  pub utf8 : Text → Value
  pub to_text : Value → Text
  pub kind_utf8 : (s : Text) → kind (utf8 s) ≡ string_kind
  pub text_utf8 : (s : Text) → to_text (utf8 s) ≡ s
  -- A key that is absent, and one put with nil, reads as nil or as value.Null.
  pub get_empty : (k : Text) (x : Value) → get empty_map k ≡ some x → kind x ≡ null_kind
  pub put_nil : Value → Text → Value
  pub get_put_nil :
      (m : Value) (k : Text) (x : Value) → get (put_nil m k) k ≡ some x → kind x ≡ null_kind
  pub get_put_nil_other : (m : Value) (k j : Text) → k ≢ j → get (put_nil m k) j ≡ get m j
  pub null_number : null_kind ≢ number_kind
  pub null_map : null_kind ≢ map_kind
  -- m.GetString(k).String()
  pub get_string : Value → Text → Text
  pub get_string_utf8 : (m : Value) (k s : Text) → get m k ≡ some (utf8 s) → get_string m k ≡ s
  -- value.ImmutableMapOf and HashMap()
  pub map_of : List (Text × Value) → Value
  pub hash_map : Value → List (Text × Value)
  pub kind_map_of : (m : List (Text × Value)) → kind (map_of m) ≡ map_kind
  pub hash_map_of :
      (m : List (Text × Value)) (k : Text)
      → lookup_by same_text k (hash_map (map_of m)) ≡ lookup_by same_text k m
