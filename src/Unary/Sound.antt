-- ===== src/Unary/Sound.antt =====
-- Types of unary calls: what a successful reply says of the arguments and of the result.
use value_rpc.Prelude.{◌≡◌, refl, sym, subst, ◌∙◌, true, Option, none, some, arith}
use value_rpc.Errors.{Errors, code_invalid_argument}
use value_rpc.Wire.Values.{Values}
use value_rpc.Wire.Verify.{TypeDef, verify}
use value_rpc.Wire.Verify.Conforms.{Conforms, verify-Conforms}
use value_rpc.Wire.Protocol.{Dialect, get_number_field, of_kind}
use value_rpc.Serving.{single_function, same_type}
use value_rpc.Envelope.{ErrorTexts, Outcome, returned, surfaced, client_reads}
use value_rpc.Envelope.Fields.{NamesDiffer}
use value_rpc.Unary.{
  Context, Result, ok, err, panics, Callee, Phrases, Extractor, request_context, id_or_zero,
  serve_named, do_serve,
}
use value_rpc.Unary.Contract.{
  Int32Codes, promised, outcome_of, Replies, serve_found-Replies, failing,
}

module _ (v : Values) (d : Dialect v) (e : Errors) (texts : ErrorTexts v e) where
  outcome_returned :
      (place : v.Text) (spoiled : Option v.Value → v.Text) (res : TypeDef v) (x : Result v e)
      (r : Option v.Value)
      → outcome_of v d e texts place spoiled res x ≡ some (returned r)
      → (o : Option v.Value) × (x ≡ ok o) × (verify v o res ≡ true) × (r ≡ surfaced v d o)
  unfolding outcome_of
  outcome_returned place spoiled res panics r h = absurd cc
  outcome_returned place spoiled res (err x) r h = absurd cc
  outcome_returned place spoiled res (ok o) r h = (o, refl, ground arith, ground arith)

  -- The function `fn` was called with arguments of its type, and `r` is its result, of its type.
  abbrev pub CalledWell : Context v → Option v.Value → Option v.Value → Callee v e → Type 0
  CalledWell ctx args r fn =
      (o : Option v.Value) × Conforms v args fn.args
      × (same_type fn.ft single_function ≡ true)
      × (fn.single_fn ctx args ≡ ok o)
      × Conforms v o fn.res
      × (r ≡ surfaced v d o)

  promised_returned :
      (ph : Phrases v) (ctx : Context v) (name : v.Text) (args : Option v.Value)
      (fn : Option (Callee v e)) (r : Option v.Value)
      → promised v d e texts ph ctx name args fn ≡ some (returned r)
      → (f : Callee v e) × (fn ≡ some f) × CalledWell ctx args r f
  unfolding promised
  promised_returned ph ctx name args none r h = absurd cc
  promised_returned ph ctx name args (some fn) r h =
      let checked : verify v args fn.args ≡ true = ground arith in
      let typed : same_type fn.ft single_function ≡ true = ground arith in
      let came : outcome_of v d e texts (ph.function_ name) (ph.invalid_results name) fn.res
            (fn.single_fn ctx args)
          ≡ some (returned r) =
        ground arith in
      let (o, ran, verified, same) = outcome_returned _ _ fn.res (fn.single_fn ctx args) r came in
      (
        fn,
        refl,
        (
          o,
          (verify-Conforms v args fn.args).0 checked,
          typed,
          ran,
          (verify-Conforms v o fn.res).0 verified,
          same,
        ),
      )

  -- A reader of the reply that finds a result finds what the contract promised.
  read_promised :
      (id m : v.Value) (o : Option (Outcome v)) (r : Option v.Value)
      → Replies v d e texts (some m) id o
      → client_reads v d m ≡ some (returned r)
      → o ≡ some (returned r)
  read_promised id m none r reads h = absurd reads
  read_promised id m (some o) r reads h = sym reads.1 ∙ h

  id_or_zero_numeric :
      (o : Option v.Value) → v.kind (id_or_zero v d (of_kind v v.number_kind o)) ≡ v.number_kind
  unfolding id_or_zero of_kind
  id_or_zero_numeric none = v.kind_long 0
  id_or_zero_numeric (some x) =
      ground (arith, v.kind_long 0, v.same_kind_iff (v.kind x) v.number_kind)

  module _ (names : NamesDiffer v d) (small : Int32Codes e) (ph : Phrases v)
      (find : v.Text → Option (Callee v e)) (ex : Extractor v d) (principal : v.Text)
      (req m : v.Value) (r : Option v.Value) where
    -- For any id and any name in the request.
    named_well :
        (id : v.Value)
        → v.kind id ≡ v.number_kind
        → (o : Option v.Value) → serve_named v d e texts ph find ex principal req id o ≡ some m
        → client_reads v d m ≡ some (returned r)
        → (name : v.Text) × (fn : Callee v e) × (find name ≡ some fn)
          × CalledWell (request_context v d ex principal req) (v.get req d.arguments_field) r fn
    unfolding serve_named
    named_well id numeric none sent read = absurd (
        cc (
          sent,
          read,
          (failing v d e texts names small id numeric code_invalid_argument ph.no_name
              (omega arith)).1,
        ))
    named_well id numeric (some s) sent read =
        let name = v.to_text s in
        let ctx = request_context v d ex principal req in
        let args = v.get req d.arguments_field in
        let o = promised v d e texts ph ctx name args (find name) in
        let found =
          serve_found-Replies v d e texts names small id numeric ph ctx name args (find name) in
        let reads : Replies v d e texts (some m) id o =
          subst (λ x. Replies v d e texts x id o) sent found in
        let (fn, is, well) =
          promised_returned ph ctx name args (find name) r (read_promised id m o r reads read) in
        (name, fn, is, well)

    -- For a dialect whose fields have different names and errors whose codes are int32: when the server's reply
    -- to a request, any map, is read as a result by the client, then a unary function was found and called
    -- in the request's context with the request's arguments, these have its argument type, it returned without
    -- an error a value of its result type, and that value is the result, null being nil.
    pub returned-Conforms :
        do_serve v d e texts ph find ex principal req ≡ some m
        → client_reads v d m ≡ some (returned r)
        → (name : v.Text) × (fn : Callee v e) × (find name ≡ some fn)
          × CalledWell (request_context v d ex principal req) (v.get req d.arguments_field) r fn
    unfolding do_serve get_number_field
    returned-Conforms sent read = named_well _ (id_or_zero_numeric _) _ sent read
