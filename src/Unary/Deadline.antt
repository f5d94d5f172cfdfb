-- ===== src/Unary/Deadline.antt =====
-- The SLA of a unary request: effectiveTimeout and constructRequest on the client, newRequestContext on the
-- server.
use value_rpc.Prelude.{
  ℕ, ◌≡◌, ◌<◌, refl, sym, ◌∙◌, ap, if◌then◌else◌, slt, sle, two63, two64, true, false, Option, none,
  some, arith,
}
use value_rpc.Wire.Values.{Values}
use value_rpc.Wire.Protocol.{Dialect, get_number_field, of_kind, function_request}
use value_rpc.Envelope.Metadata.{Metadata}
use value_rpc.Envelope.Request.{
  construct_request, numbered, put_or_nil, with_timeout, effective_timeout, shortened,
}
use value_rpc.Envelope.Fields.{
  message_type, request_id, function_name, timeout, name_of, NamesDiffer, other, read_number,
}
use value_rpc.Envelope.Asked.{past_metadata, past_args}
use value_rpc.Unary.{milliseconds, deadline_of, new_request_context}

effective_timeout_lem :
    (base remaining : ℕ)
    → 0 < base
    → base < two63
    → remaining < two64
    → effective_timeout base (some remaining)
      ≡ (if sle remaining 0 then 0 else if slt remaining base then remaining else base)
unfolding effective_timeout shortened
effective_timeout_lem base remaining p q r = ground arith

module _ (v : Values) (d : Dialect v) (names : NamesDiffer v d) where
  absent_number :
      (o : Option v.Value)
      → ((x : v.Value) → o ≡ some x → v.kind x ≡ v.null_kind)
      → of_kind v v.number_kind o ≡ none
  unfolding of_kind
  absent_number none h = refl
  absent_number (some x) h =
      ground (arith, h x refl, v.same_kind_iff (v.kind x) v.number_kind, v.null_number)

  module _ (id t : ℕ) (name : v.Text) (args : Option v.Value) (md : Option (Metadata v)) where
    abbrev start : v.Value
    start = put_or_nil v d args d.arguments_field (
        v.put (v.put v.empty_map d.message_type_field (v.long function_request))
          d.function_name_field (v.utf8 name))

    timeout_end :
        {r : Option v.Value}
        → v.get (with_timeout v d t start) d.timeout_field ≡ r
        → v.get
            (numbered v d id (construct_request v d function_request name args t md))
            d.timeout_field
          ≡ r
    unfolding numbered construct_request name_of
    timeout_end e =
        other v d names request_id timeout _ (λ q. cc)
          (past_metadata v d names md _ timeout (λ q. cc) e)

    no_timeout : v.get start d.timeout_field ≡ v.get v.empty_map d.timeout_field
    unfolding name_of
    no_timeout =
        past_args v d names args _ timeout (λ q. cc)
          (other v d names function_name timeout _ (λ q. cc)
            (other v d names message_type timeout _ (λ q. cc) refl))

    timeout_put :
        slt 0 t ≡ true → v.get (with_timeout v d t start) d.timeout_field ≡ some (v.long t)
    unfolding with_timeout
    timeout_put h = rw h (v.get_put _ _ _)

    timeout_left :
        slt 0 t ≡ false
        → v.get (with_timeout v d t start) d.timeout_field ≡ v.get v.empty_map d.timeout_field
    unfolding with_timeout
    timeout_left h = rw h no_timeout

    abbrev asked : v.Value
    asked = numbered v d id (construct_request v d function_request name args t md)

    deadline_put :
        slt 0 t ≡ true
        → deadline_of v d (get_number_field v asked d.timeout_field) ≡ some (milliseconds t)
    unfolding deadline_of
    deadline_put h =
        ap (deadline_of v d) (read_number v _ _ _ (v.kind_long _) (timeout_end (timeout_put h)))
        ∙ ground (arith, h, v.long_long t)

    deadline_left :
        slt 0 t ≡ false → deadline_of v d (get_number_field v asked d.timeout_field) ≡ none
    unfolding deadline_of get_number_field
    deadline_left h =
        ap (deadline_of v d)
          (absent_number _ (λ x e. v.get_empty _ x (sym (timeout_end (timeout_left h)) ∙ e)))

    timeout_carried :
        (new_request_context v d asked).deadline ≡ (if slt 0 t then some (milliseconds t) else none)
    unfolding new_request_context
    timeout_carried = ground (arith, deadline_put, deadline_left)

  -- For a client with a positive timeout, the context of the handler of a unary call has for deadline the
  -- shorter of that timeout and of the time that is left to the caller, and has no deadline at all when the
  -- caller has no time left.
  pub deadline_lem :
      (id base remaining : ℕ) (name : v.Text) (args : Option v.Value) (md : Option (Metadata v))
      → 0 < base
      → base < two63
      → remaining < two64
      → let t = effective_timeout base (some remaining) in
        (new_request_context v d
          (numbered v d id (construct_request v d function_request name args t md))).deadline
        ≡ (if sle remaining 0
            then none
            else some (milliseconds (if slt remaining base then remaining else base)))
  deadline_lem id base remaining name args md p q r =
      timeout_carried id (effective_timeout base (some remaining)) name args md
      ∙ rw (effective_timeout_lem base remaining p q r) (ground arith)
