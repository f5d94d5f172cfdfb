-- ===== src/Wire/Verify/Conforms.antt =====
-- What `verify` accepts, without the loops.
use value_rpc.Prelude.{
  ℕ, zero, suc, ◌+◌, ◌≡◌, ◌≢◌, refl, sym, subst, ◌↔◌, ◌⊎◌, Bool, true, false, not, List, [], ◌∷◌,
  Option, none, some, length, get_elem?, if◌then◌else◌, arith,
}
use mathlib.Core.Logic.Iff
use native.Mathlib.Numerals.{unary_clauses}
use mathlib.Core.Option.{some-injective, none-ne-some}
use value_rpc.Wire.Values.{Values}
use value_rpc.Wire.Verify.{
  ArgDef, ParamDef, TypeDef, any_def, void_def, args_def, params_def, arg_def, user_def, is_nothing,
  has_kind, verify_arg, verify_param, equals_null, verify_each, verify_args, verify_named,
  verify_params, verify_void, verify,
}

module _ (v : Values) where
  abbrev pub ArgConforms : Option v.Value → ArgDef v → Type 0
  ArgConforms none d = d.required ≡ false
  ArgConforms (some x) d = v.kind x ≡ d.kind

  abbrev pub ParamConforms : Option v.Value → ParamDef v → Type 0
  ParamConforms none d = d.required ≡ false
  ParamConforms (some x) d =
      (v.is_null x ≡ true) × (d.required ≡ false) ⊎ (v.is_null x ≡ false) × (v.kind x ≡ d.kind)

  abbrev pub EachConforms : v.Value → ℕ → List (ArgDef v) → Type 0
  EachConforms xs k ds =
      (i : ℕ) (d : ArgDef v) → get_elem? ds i ≡ some d → ArgConforms (v.get_at xs (k + i)) d

  abbrev pub NamedConform : v.Value → List (ParamDef v) → Type 0
  NamedConform m ds =
      (i : ℕ) (d : ParamDef v) → get_elem? ds i ≡ some d → ParamConforms (v.get m d.name) d

  -- The null value passes for no value: it stands for no argument, no parameter or nothing at all.
  abbrev pub Nothing : Option v.Value → Type 0
  Nothing none = Unit {0}
  Nothing (some x) = v.kind x ≡ v.null_kind

  abbrev pub ListConforms : Option v.Value → List (ArgDef v) → Type 0
  ListConforms none ds = ⊥
  ListConforms (some xs) ds =
      (v.kind xs ≡ v.list_kind) × (v.list_len xs ≡ length ds) × EachConforms xs 0 ds

  abbrev pub MapConforms : Option v.Value → List (ParamDef v) → Type 0
  MapConforms none ds = ⊥
  MapConforms (some m) ds = (v.kind m ≡ v.map_kind) × NamedConform m ds

  abbrev pub Hollow : Option v.Value → Type 0
  Hollow none = ⊥
  Hollow (some x) =
      (v.kind x ≡ v.list_kind) × (v.list_len x ≡ 0)
      ⊎ (v.kind x ≢ v.list_kind) × (v.kind x ≡ v.map_kind) × (v.map_len x ≡ 0)

  abbrev pub Conforms : Option v.Value → TypeDef v → Type 0
  Conforms x any_def = Unit {0}
  Conforms x void_def = Nothing x ⊎ (¬ Nothing x × Hollow x)
  Conforms x (arg_def d) = ArgConforms x d
  Conforms x (args_def ds) = (Nothing x × (length ds ≡ 0)) ⊎ (¬ Nothing x × ListConforms x ds)
  Conforms x (params_def ds) = (Nothing x × (length ds ≡ 0)) ⊎ (¬ Nothing x × MapConforms x ds)
  Conforms x user_def = ⊥

  verify_arg_iff : (x : Option v.Value) (d : ArgDef v) → (verify_arg v x d ≡ true) ↔ ArgConforms x d
  unfolding verify_arg
  verify_arg_iff none d = ground arith
  verify_arg_iff (some x) d = v.same_kind_iff (v.kind x) d.kind

  named_iff :
      (x : Option v.Value) (d : ParamDef v) (rest : Bool)
      → ((if equals_null v x
            then if d.required then false else rest
            else if not (verify_param v x d)
            then false
            else rest)
          ≡ true)
        ↔ (ParamConforms x d × (rest ≡ true))
  unfolding equals_null verify_param
  named_iff none d rest = ground arith
  named_iff (some x) d rest = ground (arith, v.same_kind_iff (v.kind x) d.kind)

  -- A loop that tests the head and then the rest decides what holds of every element.
  all_cons :
      {A : Type 0} {P : ℕ → A → Type 0} {H T : Type 0} (d : A) (ds : List A)
      → (H ↔ P 0 d)
      → (T ↔ ((i : ℕ) (x : A) → get_elem? ds i ≡ some x → P (suc i) x))
      → (H × T) ↔ ((i : ℕ) (x : A) → get_elem? (d ∷ ds) i ≡ some x → P i x)
  all_cons {A} {P} {H} {T} d ds h t = (forth, back)
    where
      forth : H × T → (i : ℕ) (x : A) → get_elem? (d ∷ ds) i ≡ some x → P i x
      forth (a, b) zero x e = subst (P 0) (some-injective d x e) (h.0 a)
      forth (a, b) (suc i) x e = t.0 b i x e

      back : ((i : ℕ) (x : A) → get_elem? (d ∷ ds) i ≡ some x → P i x) → H × T
      back f = (h.1 (f 0 d refl), t.1 (λ i x e. f (suc i) x e))

  verify_each_iff :
      (xs : v.Value) (k : ℕ) (ds : List (ArgDef v))
      → (verify_each v xs k ds ≡ true) ↔ EachConforms xs k ds
  unfolding verify_each
  verify_each_iff xs k [] = (λ e i d h. absurd (none-ne-some d h), λ c. refl)
  verify_each_iff xs k (d ∷ ds) = Iff.trans (first_iff (verify_arg_iff (v.get_at xs k) d)) (
      all_cons {P = λ i x. ArgConforms (v.get_at xs (k + i)) x} d ds unshifted
        (shifted (verify_each_iff xs (suc k) ds)))
    where
      first_iff :
          (verify_arg v (v.get_at xs k) d ≡ true) ↔ ArgConforms (v.get_at xs k) d
          → (verify_each v xs k (d ∷ ds) ≡ true)
            ↔ (ArgConforms (v.get_at xs k) d × (verify_each v xs (suc k) ds ≡ true))
      first_iff h = ground (arith, h)

      slide : (i : ℕ) → suc k + i ≡ k + suc i
      slide i = omega arith

      shifted :
          (verify_each v xs (suc k) ds ≡ true) ↔ EachConforms xs (suc k) ds
          → (verify_each v xs (suc k) ds ≡ true) ↔ (
              (i : ℕ) (x : ArgDef v)
              → get_elem? ds i ≡ some x
              → ArgConforms (v.get_at xs (k + suc i)) x)
      shifted h = (
        λ e i x g. subst (λ n. ArgConforms (v.get_at xs n) x) (slide i) (h.0 e i x g),
        λ f. h.1 (λ i x g. subst (λ n. ArgConforms (v.get_at xs n) x) (sym (slide i)) (f i x g)),
      )

      unshifted : ArgConforms (v.get_at xs k) d ↔ ArgConforms (v.get_at xs (k + 0)) d
      unshifted = simp unary_clauses Iff.rfl

  verify_named_iff :
      (m : v.Value) (ds : List (ParamDef v)) → (verify_named v m ds ≡ true) ↔ NamedConform m ds
  unfolding verify_named
  verify_named_iff m [] = (λ e i d h. absurd (none-ne-some d h), λ c. refl)
  verify_named_iff m (d ∷ ds) =
      Iff.trans (named_iff (v.get m d.name) d (verify_named v m ds)) (
        all_cons {P = λ i x. ParamConforms (v.get m x.name) x} d ds Iff.rfl (verify_named_iff m ds))

  is_nothing_iff : (x : Option v.Value) → (is_nothing v x ≡ true) ↔ Nothing x
  unfolding is_nothing
  is_nothing_iff none = (λ e. tt, λ u. refl)
  is_nothing_iff (some x) = v.same_kind_iff (v.kind x) v.null_kind

  verify_args_iff :
      (x : Option v.Value) (ds : List (ArgDef v))
      → (verify_args v x ds ≡ true) ↔ Conforms x (args_def ds)
  unfolding verify_args has_kind
  verify_args_iff none ds = ground arith
  verify_args_iff (some x) ds = ground (
    arith,
    is_nothing_iff (some x),
    v.same_kind_iff (v.kind x) v.list_kind,
    verify_each_iff x 0 ds,
  )

  verify_params_iff :
      (x : Option v.Value) (ds : List (ParamDef v))
      → (verify_params v x ds ≡ true) ↔ Conforms x (params_def ds)
  unfolding verify_params has_kind
  verify_params_iff none ds = ground arith
  verify_params_iff (some x) ds =
      ground (
        arith,
        is_nothing_iff (some x),
        v.same_kind_iff (v.kind x) v.map_kind,
        verify_named_iff x ds,
      )

  verify_void_iff : (x : Option v.Value) → (verify_void v x ≡ true) ↔ Conforms x void_def
  unfolding verify_void has_kind
  verify_void_iff none = ground arith
  verify_void_iff (some x) = ground (
    arith,
    is_nothing_iff (some x),
    v.same_kind_iff (v.kind x) v.map_kind,
    v.same_kind_iff (v.kind x) v.list_kind,
  )

  -- `verify` accepts a value exactly when it conforms to the declared type. A list conforms when it has
  -- one element for each argument and each is of the argument's kind, or is nil at an optional one; a map
  -- when each declared parameter is of its kind, or is nil or null at an optional one. A null value or nil
  -- conforms to a list or map type that declares nothing.
  pub verify-Conforms : (x : Option v.Value) (t : TypeDef v) → (verify v x t ≡ true) ↔ Conforms x t
  unfolding verify
  verify-Conforms x any_def = (λ e. tt, λ u. refl)
  verify-Conforms x void_def = verify_void_iff x
  verify-Conforms x (arg_def d) = verify_arg_iff x d
  verify-Conforms x (args_def ds) = verify_args_iff x ds
  verify-Conforms x (params_def ds) = verify_params_iff x ds
  verify-Conforms x user_def = ground arith
