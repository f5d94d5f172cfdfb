-- ===== src/Envelope/Fields.antt =====
-- The fields of requests and replies, whose names a dialect keeps apart, and reading them back.
use value_rpc.Prelude.{◌≡◌, ◌≢◌, ◌∙◌, ap, Option, some, arith}
use value_rpc.Wire.Values.{Values}
use value_rpc.Wire.Protocol.{Dialect, of_kind, get_number_field, get_string_field}

pub data Field : Type 0 where
  message_type request_id function_name arguments timeout : Field
  metadata result error code value credit : Field

module _ (v : Values) where
  of_kind-some : (k : v.Kind) (x : v.Value) → v.kind x ≡ k → of_kind v k (some x) ≡ some x
  unfolding of_kind
  of_kind-some k x e = ground (arith, v.same_kind_iff (v.kind x) k)

  pub read_number :
      (m : v.Value) (field : v.Text) (x : v.Value)
      → v.kind x ≡ v.number_kind
      → v.get m field ≡ some x
      → get_number_field v m field ≡ some x
  unfolding get_number_field
  read_number m field x k e = ap (of_kind v v.number_kind) e ∙ of_kind-some v.number_kind x k

  pub read_string :
      (m : v.Value) (field x : v.Text)
      → v.get m field ≡ some (v.utf8 x)
      → get_string_field v m field ≡ some (v.utf8 x)
  unfolding get_string_field
  read_string m field x e =
      ap (of_kind v v.string_kind) e ∙ of_kind-some v.string_kind (v.utf8 x) (v.kind_utf8 x)

  unfoldable pub name_of : Dialect v → Field → v.Text
  name_of d message_type = d.message_type_field
  name_of d request_id = d.request_id_field
  name_of d function_name = d.function_name_field
  name_of d arguments = d.arguments_field
  name_of d timeout = d.timeout_field
  name_of d metadata = d.metadata_field
  name_of d result = d.result_field
  name_of d error = d.error_field
  name_of d code = d.code_field
  name_of d value = d.value_field
  name_of d credit = d.credit_field

  -- Fields of the same name are the same.
  abbrev pub NamesDiffer : Dialect v → Type 0
  NamesDiffer d = (f g : Field) → name_of d f ≡ name_of d g → f ≡ g

  -- A reader passes over a field that was put in later.
  pub other :
      (d : Dialect v) (names : NamesDiffer d) (f g : Field) {m : v.Value} {r : Option v.Value}
      (x : v.Value)
      → f ≢ g
      → v.get m (name_of d g) ≡ r
      → v.get (v.put m (name_of d f) x) (name_of d g) ≡ r
  other d names f g x ne e = v.get_put_other _ _ _ x (λ same. ne (names f g same)) ∙ e
