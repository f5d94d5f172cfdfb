-- ===== src/Unary/Contract.antt =====
-- What a unary call promises, without messages: the outcome of calling the function in place.
use value_rpc.Prelude.{
  ℕ, ◌≡◌, ◌<◌, refl, not, if◌then◌else◌, Bool-cases, inl, inr, Option, none, some, arith,
}
use value_rpc.Errors.{
  Errors, code_invalid_argument, code_not_found, code_internal, code_of, handler_err_code,
  code_or_unknown,
}
use value_rpc.Wire.Values.{Values}
use value_rpc.Wire.Verify.{TypeDef, verify}
use value_rpc.Wire.Protocol.{Dialect}
use value_rpc.Serving.{single_function, same_type}
use value_rpc.Envelope.{
  ErrorTexts, Outcome, returned, failed, two32, or_else, surfaced, new_function_error,
  new_handler_error,
}
use value_rpc.Envelope.Server.{function_error, handler_error, function_result, function_result-new}
use value_rpc.Envelope.Fields.{NamesDiffer}
use value_rpc.Envelope.ReadsBack.{Reads, new_function_result-Reads, new_function_error-Reads}
use value_rpc.Unary.{Context, Result, ok, err, panics, Callee, Phrases, reply_of, serve_found}
use value_rpc.Unary.Client.{
  Inbound, id_field_not_found, replied, crashed, run_handler, serve_entry, inbound_context,
}
use value_rpc.Unary.Client

-- The codes of errors are those of an int32.
abbrev pub Int32Codes : Errors → Type 0
Int32Codes e = (x : e.Err) (c : ℕ) → e.coded x ≡ some c → c < two32

code_of_lt : (e : Errors) → Int32Codes e → (x : e.Err) → code_of e (some x) < two32
unfolding code_of
code_of_lt e small x = go (e.coded x) refl
  where
    go : (o : Option ℕ) → e.coded x ≡ o → code_or_unknown e o < two32
    go none h = omega arith
    go (some c) h = small x c h

handler_err_code_lt : (e : Errors) → Int32Codes e → (x : e.Err) → handler_err_code e x < two32
unfolding handler_err_code
handler_err_code_lt e small x = ground (arith, code_of_lt e small x)

module _ (v : Values) (d : Dialect v) (e : Errors) (texts : ErrorTexts v e) where
  -- How a handler's result ends the call; `spoiled` is the text for a result of another type than declared.
  unfoldable pub outcome_of :
      v.Text → (Option v.Value → v.Text) → TypeDef v → Result v e → Option (Outcome v)
  outcome_of place spoiled res (ok r) =
      if verify v r res
      then some (returned (surfaced v d r))
      else some (failed code_internal (spoiled r))
  outcome_of place spoiled res (err x) = some (
      failed (handler_err_code e x)
        (texts.prefixed place (or_else v d (texts.own_message x) (texts.text x))))
  outcome_of place spoiled res panics = none

  -- The server looks at the arguments first, the client at the kind of the function.
  unfoldable pub promised :
      Phrases v → Context v → v.Text → Option v.Value → Option (Callee v e) → Option (Outcome v)
  unfolding outcome_of
  promised ph ctx name args none = some (failed code_not_found (ph.not_found name))
  promised ph ctx name args (some fn) =
      if not (verify v args fn.args)
      then some (failed code_invalid_argument (ph.invalid_args name args))
      else if not (same_type fn.ft single_function)
      then some (failed code_invalid_argument (ph.wrong_type name fn.ft single_function))
      else outcome_of (ph.function_ name) (ph.invalid_results name) fn.res (fn.single_fn ctx args)

  unfoldable pub promised_by_client :
      Client.Phrases v
      → Context v
      → v.Text
      → Option v.Value
      → Option (Callee v e)
      → Option (Outcome v)
  unfolding outcome_of
  promised_by_client ph ctx name args none = some (failed code_not_found (ph.not_found name))
  promised_by_client ph ctx name args (some fn) =
      if not (same_type fn.ft single_function)
      then some (failed code_invalid_argument (ph.not_unary name))
      else if not (verify v args fn.args)
      then some (failed code_invalid_argument (ph.invalid_args name))
      else outcome_of (ph.function_ name) (λ r. ph.invalid_result name) fn.res
          (fn.single_fn ctx args)

  -- The reply is read as the outcome by whoever gets it, and there is none where there is no outcome.
  abbrev pub Replies : Option v.Value → v.Value → Option (Outcome v) → Type 0
  Replies none id none = Unit {0}
  Replies none id (some o) = ⊥
  Replies (some m) id none = ⊥
  Replies (some m) id (some o) = Reads v d m id o

  unfoldable pub sent_of : Inbound v → Option v.Value
  sent_of (replied m) = some m
  sent_of _ = none

  module _ (names : NamesDiffer v d) (small : Int32Codes e) (id : v.Value)
      (numeric : v.kind id ≡ v.number_kind) where
    pub failing :
        (c : ℕ) (msg : v.Text)
        → c < two32
        → Reads v d (function_error v d id c msg) id (failed c msg)
    unfolding function_error new_function_error
    failing c msg h = new_function_error-Reads v d names id numeric c msg h

    succeeding :
        (r : Option v.Value) → Reads v d (function_result v d id r) id (returned (surfaced v d r))
    succeeding r =
        rw (function_result-new v d id r) (new_function_result-Reads v d names id numeric r)

    reply_of-Replies :
        (ph : Phrases v) (name : v.Text) (res : TypeDef v) (r : Result v e)
        → Replies
            (reply_of v d e texts ph id name res r)
            id
            (outcome_of (ph.function_ name) (ph.invalid_results name) res r)
    unfolding reply_of outcome_of handler_error
    reply_of-Replies ph name res panics = tt
    reply_of-Replies ph name res (err x) = failing _ _ (handler_err_code_lt e small x)
    reply_of-Replies ph name res (ok r) = elim (Bool-cases (verify v r res)) [
      | inl h ↦ rw h (succeeding r)
      | inr h ↦ rw h (failing _ _ (omega arith))
    ]

    pub serve_found-Replies :
        (ph : Phrases v) (ctx : Context v) (name : v.Text) (args : Option v.Value)
        (fn : Option (Callee v e))
        → Replies (serve_found v d e texts ph ctx id name args fn) id (promised ph ctx name args fn)
    unfolding serve_found promised
    serve_found-Replies ph ctx name args none = failing _ _ (omega arith)
    serve_found-Replies ph ctx name args (some fn) = elim (Bool-cases (verify v args fn.args)) [
      | inr h ↦ rw h (failing _ _ (omega arith))
      | inl h ↦ rw h (elim (Bool-cases (same_type fn.ft single_function)) [
        | inr k ↦ rw k (failing _ _ (omega arith))
        | inl k ↦ rw k (reply_of-Replies ph name fn.res (fn.single_fn ctx args))
      ])
    ]

    run_handler-Replies :
        (ph : Client.Phrases v) (name : v.Text) (res : TypeDef v) (r : Result v e)
        → Replies
            (sent_of (run_handler v d e texts ph id name res r))
            id
            (outcome_of (ph.function_ name) (λ r. ph.invalid_result name) res r)
    unfolding run_handler outcome_of sent_of new_handler_error
    run_handler-Replies ph name res panics = tt
    run_handler-Replies ph name res (err x) =
        new_function_error-Reads v d names id numeric _ _ (handler_err_code_lt e small x)
    run_handler-Replies ph name res (ok r) = elim (Bool-cases (verify v r res)) [
      | inl h ↦ rw h (new_function_result-Reads v d names id numeric r)
      | inr h ↦ rw h (new_function_error-Reads v d names id numeric _ _ (omega arith))
    ]

    pub serve_entry-Replies :
        (ph : Client.Phrases v) (req : v.Value) (name : v.Text) (args : Option v.Value)
        (cf : Option (Callee v e))
        → Replies
            (sent_of (serve_entry v d e texts ph req id name args cf))
            id
            (promised_by_client ph (inbound_context v d req) name args cf)
    unfolding serve_entry promised_by_client sent_of
    serve_entry-Replies ph req name args none =
        new_function_error-Reads v d names id numeric _ _ (omega arith)
    serve_entry-Replies ph req name args (some cf) =
        elim (Bool-cases (same_type cf.ft single_function)) [
          | inr h ↦ rw h (new_function_error-Reads v d names id numeric _ _ (omega arith))
          | inl h ↦ rw h (elim (Bool-cases (verify v args cf.args)) [
            | inr k ↦ rw k (new_function_error-Reads v d names id numeric _ _ (omega arith))
            | inl k ↦
                rw k
                  (run_handler-Replies ph name cf.res (cf.single_fn (inbound_context v d req) args))
          ])
        ]
