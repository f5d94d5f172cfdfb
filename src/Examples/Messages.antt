-- ===== src/Examples/Messages.antt =====
-- Messages and values over a small value type.
use value_rpc.Prelude.{
  ℕ, zero, suc, ◌≡◌, ◌≢◌, refl, ◌↔◌, ◌==◌, Bool, true, false, ltb, if◌then◌else◌, List, [], ◌∷◌,
  Option, none, some, ==_iff, arith, ap, sym,
}
use mathlib.Core.Option.{none-ne-some}
use value_rpc.Wire.Values.{Values, lookup_by}
use value_rpc.Wire.Verify.{TypeDef, verify, args_def}
use value_rpc.Wire.Verify.Conforms.{Conforms, verify-Conforms}
use value_rpc.Wire.Protocol.{Dialect, new_handshake_request, valid_magic_and_version}
use value_rpc.Wire.Protocol.Handshake.{Distinct, accepts_request_iff}

pub data Item : Type 0 where
  null_item : Item
  number_item : ℕ → Item
  text_item : ℕ → Item
  empty_list : Item
  link : Item → Item → Item
  empty_item : Item
  field : Item → ℕ → Item → Item

abbrev kind_of : Item → ℕ
kind_of null_item = 0
kind_of (number_item n) = 1
kind_of (text_item s) = 2
kind_of empty_list = 3
kind_of (link x xs) = 3
kind_of empty_item = 4
kind_of (field m k x) = 4

abbrev equals_null_item : Item → Bool
equals_null_item null_item = true
equals_null_item _ = false

abbrev count : Item → ℕ
count (link x xs) = suc (count xs)
count (field m k x) = suc (count m)
count _ = 0

abbrev item_at : Item → ℕ → Option Item
item_at (link x xs) zero = some x
item_at (link x xs) (suc i) = item_at xs i
item_at _ _ = none

abbrev lookup : Item → ℕ → Option Item
lookup (field m k x) j = let rest = lookup m j in if k == j then some x else rest
lookup _ j = none

abbrev number_in : Item → ℕ
number_in (number_item n) = n
number_in _ = 0

abbrev text_in : Item → ℕ
text_in (text_item s) = s
text_in _ = 0

pub lookup-field : (m : Item) (k : ℕ) (x : Item) → lookup (field m k x) k ≡ some x
lookup-field m k x = ground arith

pub lookup-field_other :
    (m : Item) (k j : ℕ) (x : Item) → k ≢ j → lookup (field m k x) j ≡ lookup m j
lookup-field_other m k j x ne = ground arith

abbrev as_item : List (ℕ × Item) → Item
as_item [] = empty_item
as_item ((k, x) ∷ m) = field (as_item m) k x

abbrev items_in : Item → List (ℕ × Item)
items_in (field m k x) = (k, x) ∷ items_in m
items_in _ = []

pub items_in-as_item : (m : List (ℕ × Item)) → items_in (as_item m) ≡ m
items_in-as_item [] = refl
items_in-as_item ((k, x) ∷ m) = ap (λ xs. (k, x) ∷ xs) (items_in-as_item m)

pub kind_of-as_item : (m : List (ℕ × Item)) → kind_of (as_item m) ≡ 4
kind_of-as_item [] = refl
kind_of-as_item ((k, x) ∷ m) = refl

abbrev text_or_zero : Option Item → ℕ
text_or_zero none = 0
text_or_zero (some x) = text_in x

pub lookup-null :
    (m : Item) (k : ℕ) (x : Item) → lookup (field m k null_item) k ≡ some x → kind_of x ≡ 0
lookup-null m k x e =
    let same : null_item ≡ x = cc (lookup-field m k null_item, e) in ap kind_of (sym same)

abbrev pub items : Values
items = record {
  Text = ℕ;
  same_text = λ a b. a == b;
  same_text_iff = ==_iff;
  empty_text = 0;
  Kind = ℕ;
  same_kind = λ a b. a == b;
  same_kind_iff = ==_iff;
  null_kind = 0;
  number_kind = 1;
  string_kind = 2;
  list_kind = 3;
  map_kind = 4;
  Value = Item;
  kind = kind_of;
  is_null = equals_null_item;
  list_len = count;
  get_at = item_at;
  map_len = count;
  get = lookup;
  empty_map = empty_item;
  put = λ m k x. field m k x;
  get_put = lookup-field;
  get_put_other = lookup-field_other;
  long = λ n. number_item n;
  to_long = number_in;
  kind_long = λ n. refl;
  long_long = λ n. refl;
  Float = ℕ;
  double = λ n. number_item n;
  to_double = number_in;
  greater = λ a b. ltb b a;
  kind_double = λ n. refl;
  double_double = λ n. refl;
  utf8 = λ s. text_item s;
  to_text = text_in;
  kind_utf8 = λ s. refl;
  text_utf8 = λ s. refl;
  get_empty = λ k x e. absurd (none-ne-some _ e);
  put_nil = λ m k. field m k null_item;
  get_put_nil = lookup-null;
  get_put_nil_other = λ m k j ne. lookup-field_other m k j null_item ne;
  null_number = omega arith;
  null_map = omega arith;
  get_string = λ m k. text_or_zero (lookup m k);
  get_string_utf8 = λ m k s e. ap text_or_zero e;
  map_of = as_item;
  hash_map = items_in;
  kind_map_of = kind_of-as_item;
  hash_map_of = λ m k. ap (lookup_by (λ a b. a == b) k) (items_in-as_item m);
}

-- The fields of the standard dialect, numbered.
abbrev pub standard : Dialect items
standard = record {
  magic = 100;
  version = 1;
  handshake_request_id = 0;
  message_type_field = 1;
  magic_field = 2;
  version_field = 3;
  request_id_field = 4;
  timeout_field = 5;
  client_id_field = 6;
  session_token_field = 7;
  auth_field = 8;
  function_name_field = 9;
  arguments_field = 10;
  result_field = 11;
  error_field = 12;
  code_field = 13;
  credit_field = 14;
  metadata_field = 15;
  value_field = 16;
}

standard-Distinct : Distinct items standard
standard-Distinct = record {
  version_magic = omega arith;
  type_magic = omega arith;
  type_version = omega arith;
  id_magic = omega arith;
  id_version = omega arith;
  id_type = omega arith;
  client_magic = omega arith;
  client_version = omega arith;
  client_type = omega arith;
  client_id = omega arith;
  token_magic = omega arith;
  token_version = omega arith;
  token_type = omega arith;
  token_id = omega arith;
  token_client = omega arith;
}

abbrev one_number : TypeDef items
one_number = args_def (record { kind = 1; required = true } ∷ [])

verify-Conforms_example :
    (verify items (some (link (number_item 5) empty_list)) one_number ≡ true)
    ↔ Conforms items (some (link (number_item 5) empty_list)) one_number
verify-Conforms_example = verify-Conforms items (some (link (number_item 5) empty_list)) one_number

abbrev older : Dialect items
older = record standard { version = 0 }

accepts_request_iff_example :
    (valid_magic_and_version items older (new_handshake_request items standard 77 33) ≡ true)
    ↔ ((standard.magic ≡ older.magic) × (ltb older.version standard.version ≡ false))
accepts_request_iff_example =
    accepts_request_iff items standard older 77 33 standard-Distinct refl refl
