-- ===== src/Envelope/ReadsBack.antt =====
-- What the two ends read of the replies that are built for a call.
use value_rpc.Prelude.{ℕ, ◌≡◌, ◌<◌, refl, sym, ◌∙◌, ap, Option, none, some, arith}
use value_rpc.Errors.{code_ok}
use value_rpc.Wire.Values.{Values}
use value_rpc.Wire.Protocol.{
  Dialect, get_number_field, get_string_field, function_response, error_response,
}
use value_rpc.Envelope.{
  Outcome, returned, failed, two32, long_of_code, code_of_long, new_function_result,
  new_function_error, put_some, surfaced, code_in, text_or_empty, pending_result, function_outcome,
  error_outcome, response_code, error_code_if, client_reads, client_reads_typed, server_reads,
  server_reads_typed,
}
use value_rpc.Envelope.Fields.{
  message_type, request_id, result, error, code, name_of, NamesDiffer, other, read_number,
  read_string,
}

pub code-long : (c : ℕ) → c < two32 → code_of_long (long_of_code c) ≡ c
unfolding code_of_long long_of_code
code-long c h = ground arith

unfoldable pub outcome_code : {v : Values} → Outcome v → ℕ
outcome_code (returned r) = code_ok
outcome_code (failed c msg) = c

module _ (v : Values) (d : Dialect v) where
  -- Both ends, and the server's metrics, find the id and the outcome in the message.
  abbrev pub Reads : v.Value → v.Value → Outcome v → Type 0
  Reads m id o =
      (get_number_field v m d.request_id_field ≡ some id)
      × (client_reads v d m ≡ some o)
      × (server_reads v d m ≡ some o)
      × (response_code v d (some m) ≡ outcome_code o)

  surfaced_nothing :
      (o : Option v.Value)
      → ((x : v.Value) → o ≡ some x → v.kind x ≡ v.null_kind)
      → surfaced v d o ≡ none
  unfolding surfaced
  surfaced_nothing none h = refl
  surfaced_nothing (some x) h = ground (arith, h x refl, v.same_kind_iff (v.kind x) v.null_kind)

  -- What a reader makes of the type and the outcome of a result.
  result-Reads :
      (m id : v.Value) (r : Option v.Value)
      → get_number_field v m d.message_type_field ≡ some (v.long function_response)
      → get_number_field v m d.request_id_field ≡ some id
      → surfaced v d (v.get m d.result_field) ≡ r
      → Reads m id (returned r)
  unfolding client_reads client_reads_typed server_reads server_reads_typed pending_result
      function_outcome response_code error_code_if outcome_code
  result-Reads m id r t i s = (
    i,
    ground (arith, t, s, v.long_long function_response),
    ground (arith, t, s, v.long_long function_response),
    ground (arith, t, v.long_long function_response),
  )

  error-Reads :
      (m id : v.Value) (c : ℕ) (msg : v.Text)
      → c < two32
      → get_number_field v m d.message_type_field ≡ some (v.long error_response)
      → get_number_field v m d.request_id_field ≡ some id
      → get_number_field v m d.code_field ≡ some (v.long (long_of_code c))
      → v.get m d.error_field ≡ some (v.utf8 msg)
      → Reads m id (failed c msg)
  unfolding client_reads client_reads_typed server_reads server_reads_typed pending_result
      error_outcome response_code error_code_if outcome_code code_in text_or_empty
  error-Reads m id c msg h t i k s = (
    i,
    ground (arith, t, coded, v.get_string_utf8 m d.error_field msg s, v.long_long error_response),
    ground (arith, t, coded, worded, v.long_long error_response),
    ground (arith, t, coded, v.long_long error_response),
  )
    where
      coded : code_in v d (get_number_field v m d.code_field) ≡ c
      coded = ap (code_in v d) k ∙ ap code_of_long (v.long_long _) ∙ code-long c h

      worded : text_or_empty v d (get_string_field v m d.error_field) ≡ msg
      worded = ap (text_or_empty v d) (read_string v m _ msg s) ∙ v.text_utf8 msg

  module _ (names : NamesDiffer v d) (id : v.Value) (numeric : v.kind id ≡ v.number_kind) where
    typed :
        (mt : ℕ)
        → v.get
            (v.put (v.put v.empty_map d.message_type_field (v.long mt)) d.request_id_field id)
            d.message_type_field
          ≡ some (v.long mt)
    unfolding name_of
    typed mt = other v d names request_id message_type id (λ e. cc) (v.get_put _ _ _)

    pub new_function_result-Reads :
        (r : Option v.Value) → Reads (new_function_result v d id r) id (returned (surfaced v d r))
    unfolding new_function_result put_some name_of surfaced
    new_function_result-Reads none =
        result-Reads _ id none (read_number v _ _ _ (v.kind_long _) (typed _))
          (read_number v _ _ _ numeric (v.get_put _ _ _))
          (surfaced_nothing _ (λ x e. v.get_empty d.result_field x (
            sym (
              other v d names request_id result id (λ q. cc)
                (other v d names message_type result _ (λ q. cc) refl))
            ∙ e)))
    new_function_result-Reads (some x) =
        result-Reads _ id (surfaced v d (some x))
          (read_number v _ _ _ (v.kind_long _)
            (other v d names result message_type x (λ e. cc) (typed _)))
          (read_number v _ _ _ numeric
            (other v d names result request_id x (λ e. cc) (v.get_put _ _ _)))
          (ap (surfaced v d) (v.get_put _ _ _))

    pub new_function_error-Reads :
        (c : ℕ) (msg : v.Text)
        → c < two32
        → Reads (new_function_error v d id c msg) id (failed c msg)
    unfolding new_function_error name_of
    new_function_error-Reads c msg h =
        error-Reads _ id c msg h
          (read_number v _ _ _ (v.kind_long _) (
            other v d names error message_type _ (λ e. cc)
              (other v d names code message_type _ (λ e. cc) (typed _))))
          (read_number v _ _ _ numeric (
            other v d names error request_id _ (λ e. cc)
              (other v d names code request_id _ (λ e. cc) (v.get_put _ _ _))))
          (read_number v _ _ _ (v.kind_long _)
            (other v d names error code _ (λ e. cc) (v.get_put _ _ _)))
          (v.get_put _ _ _)
