-- ===== src/Wire/Verify.antt =====
-- valuerpc/types.go and valuerpc/verify.go: whether a value has the declared type.
pub mod Conforms
use value_rpc.Prelude.{
  ℕ, zero, suc, Bool, true, false, not, ◌&&◌, ◌||◌, ◌==◌, if◌then◌else◌, List, [], ◌∷◌, Option,
  none, some, length,
}
use value_rpc.Wire.Values.{Values}

pub record ArgDef (v : Values) : Type 0 where
  pub kind : v.Kind
  pub required : Bool

pub record ParamDef (v : Values) : Type 0 where
  pub name : v.Text
  pub kind : v.Kind
  pub required : Bool

-- `user_def` is a type that is none of the package's, or nil.
pub data TypeDef (v : Values) : Type 0 where
  any_def : TypeDef v
  void_def : TypeDef v
  args_def : List (ArgDef v) → TypeDef v
  params_def : List (ParamDef v) → TypeDef v
  arg_def : ArgDef v → TypeDef v
  user_def : TypeDef v

module _ (v : Values) where
  -- args == nil || args.Kind() == value.NULL
  unfoldable pub is_nothing : Option v.Value → Bool
  is_nothing none = true
  is_nothing (some x) = v.same_kind (v.kind x) v.null_kind

  unfoldable pub has_kind : v.Kind → Option v.Value → Bool
  has_kind k none = false
  has_kind k (some x) = v.same_kind (v.kind x) k

  unfoldable pub verify_arg : Option v.Value → ArgDef v → Bool
  verify_arg none d = not d.required
  verify_arg (some x) d = v.same_kind (v.kind x) d.kind

  unfoldable pub verify_param : Option v.Value → ParamDef v → Bool
  verify_param none d = not d.required
  verify_param (some x) d = v.same_kind (v.kind x) d.kind

  -- val == value.Null
  unfoldable pub equals_null : Option v.Value → Bool
  equals_null none = false
  equals_null (some x) = v.is_null x

  -- The loop of VerifyArgs from the index `i` on.
  unfoldable pub verify_each : v.Value → ℕ → List (ArgDef v) → Bool
  verify_each xs i [] = true
  verify_each xs i (d ∷ ds) =
      let rest = verify_each xs (suc i) ds in
      if not (verify_arg (v.get_at xs i) d) then false else rest

  unfoldable pub verify_args : Option v.Value → List (ArgDef v) → Bool
  verify_args none ds = length ds == 0
  verify_args (some xs) ds =
      if is_nothing (some xs)
      then length ds == 0
      else if not (has_kind v.list_kind (some xs))
      then false
      else if not (v.list_len xs == length ds)
      then false
      else verify_each xs 0 ds

  -- The loop of VerifyParams.
  unfoldable pub verify_named : v.Value → List (ParamDef v) → Bool
  verify_named m [] = true
  verify_named m (d ∷ ds) =
      let val = v.get m d.name in
      let rest = verify_named m ds in
      if equals_null val
      then if d.required then false else rest
      else if not (verify_param val d)
      then false
      else rest

  unfoldable pub verify_params : Option v.Value → List (ParamDef v) → Bool
  verify_params none ds = length ds == 0
  verify_params (some m) ds =
      if is_nothing (some m)
      then length ds == 0
      else if not (has_kind v.map_kind (some m))
      then false
      else verify_named m ds

  unfoldable pub verify_void : Option v.Value → Bool
  verify_void none = true
  verify_void (some x) =
      if is_nothing (some x)
      then true
      else if has_kind v.list_kind (some x)
      then v.list_len x == 0
      else if has_kind v.map_kind (some x)
      then v.map_len x == 0
      else false

  unfoldable pub verify : Option v.Value → TypeDef v → Bool
  verify args any_def = true
  verify args void_def = verify_void args
  verify args (arg_def d) = verify_arg args d
  verify args (args_def ds) = verify_args args ds
  verify args (params_def ds) = verify_params args ds
  verify args user_def = false
