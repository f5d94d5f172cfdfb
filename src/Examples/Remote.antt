-- ===== src/Examples/Remote.antt =====
-- Calls between the two ends, over the small value type.
use value_rpc.Prelude.{
  ℕ, ◌+◌, ◌≡◌, refl, sym, ◌∙◌, ap, Bool, true, false, [], ◌∷◌, Option, none, some, if◌then◌else◌,
  ◌==◌, sle, slt, get_elem?, arith,
}
use mathlib.Core.Option.{none-ne-some}
use value_rpc.Errors.{Errors, code_not_found}
use value_rpc.Wire.Verify.{any_def, verify}
use value_rpc.Wire.Protocol.{function_request, get_string_field, get_number_field}
use value_rpc.Serving.{single_function, same_type}
use value_rpc.Envelope.{ErrorTexts, returned, new_function_result, client_reads}
use value_rpc.Envelope.Metadata.{decode_metadata, encode_metadata}
use value_rpc.Envelope.Server.{function_result}
use value_rpc.Envelope.Request.{construct_request, numbered, call_request, effective_timeout}
use value_rpc.Envelope.Fields.{
  Field, message_type, request_id, function_name, arguments, timeout, metadata, result, error, code,
  value, credit, name_of, NamesDiffer,
}
use value_rpc.Envelope.Asked.{Received, SameEntries}
use value_rpc.Unary.{
  ok, err, Callee, Phrases, do_serve, request_context, milliseconds, new_request_context,
}
use value_rpc.Unary.Client
use value_rpc.Unary.Client.{serve_inbound_call, inbound_context}
use value_rpc.Unary.Contract.{Int32Codes, promised, promised_by_client, Replies, sent_of}
use value_rpc.Unary.EndToEnd.{call_answered, reverse_call_answered}
use value_rpc.Unary.Sound.{CalledWell, returned-Conforms}
use value_rpc.Unary.Deadline.{deadline_lem}
use value_rpc.Examples.Messages.{Item, items, standard, number_item, text_item}

-- The fields at their names, with the message type where there is none.
abbrev field_at : ℕ → Option Field
field_at n =
    get_elem?
      (message_type ∷ message_type ∷ message_type ∷ message_type ∷ request_id ∷ timeout
        ∷ message_type ∷ message_type ∷ message_type ∷ function_name ∷ arguments ∷ result ∷ error
        ∷ code ∷ credit ∷ metadata ∷ value ∷ [])
      n

field_at_name : (f : Field) → field_at (name_of items standard f) ≡ some f
unfolding name_of
field_at_name message_type = refl
field_at_name request_id = refl
field_at_name timeout = refl
field_at_name function_name = refl
field_at_name arguments = refl
field_at_name result = refl
field_at_name error = refl
field_at_name code = refl
field_at_name credit = refl
field_at_name metadata = refl
field_at_name value = refl

pub standard-NamesDiffer : NamesDiffer items standard
standard-NamesDiffer f g e =
    let same : some f ≡ some g = sym (field_at_name f) ∙ ap field_at e ∙ field_at_name g in cc same

-- An error is its code.
abbrev coded_errors : Errors
coded_errors = record {
  Err = Bool;
  coded = λ x. if x then some code_not_found else none;
  equals_deadline = λ x. false;
  is_deadline = λ x. false;
  equals_canceled = λ x. false;
  is_canceled = λ x. false;
  is_timeout = λ x. false;
}

coded_errors-Int32Codes : Int32Codes coded_errors
coded_errors-Int32Codes true c h = ground arith
coded_errors-Int32Codes false c h = absurd (none-ne-some _ h)

abbrev texts : ErrorTexts items coded_errors
texts = record { text = λ x. 40; own_message = λ x. some 41; prefixed = λ a b. a + b }

abbrev phrases : Phrases items
phrases = record {
  no_name = 50;
  not_found = λ n. 51;
  invalid_args = λ n x. 52;
  wrong_type = λ n a b. 53;
  invalid_results = λ n x. 54;
  function_ = λ n. 100 + n;
}

abbrev client_phrases : Client.Phrases items
client_phrases = record {
  no_name = 50;
  not_found = λ n. 51;
  not_unary = λ n. 53;
  invalid_args = λ n. 52;
  invalid_result = λ n. 54;
  function_ = λ n. 100 + n;
}

-- The function 20 returns its arguments, the function 21 fails, and there is no other.
abbrev echo : Callee items coded_errors
echo = record { ft = single_function; args = any_def; res = any_def; single_fn = λ ctx x. ok x }

abbrev failing : Callee items coded_errors
failing = record {
  ft = single_function;
  args = any_def;
  res = any_def;
  single_fn = λ ctx x. err true;
}

abbrev functions : ℕ → Option (Callee items coded_errors)
functions name = if name == 20 then some echo else if name == 21 then some failing else none

abbrev asked : Item
asked = numbered items standard 7 (
    construct_request items standard function_request 20 (some (text_item 99)) 3000
      (some ((60, 61) ∷ [])))

call_answered_example :
    Replies items standard coded_errors texts
      (do_serve items standard coded_errors texts phrases functions none 33 asked)
      (number_item 7)
      (promised items standard coded_errors texts phrases
        (request_context items standard none 33 asked)
        20
        (items.get asked 10)
        (some echo))
    × Received items standard (some (text_item 99)) (items.get asked 10)
    × SameEntries items standard (decode_metadata items standard asked) (some ((60, 61) ∷ []))
call_answered_example =
    call_answered items standard coded_errors texts functions standard-NamesDiffer
      coded_errors-Int32Codes phrases none 33 7 3000 20 (some (text_item 99)) (some ((60, 61) ∷ []))

abbrev called_back : Item
called_back = call_request items standard 9 21 (some (text_item 99)) none

reverse_call_answered_example :
    Replies items standard coded_errors texts
      (sent_of items standard coded_errors texts
        (serve_inbound_call items standard coded_errors texts client_phrases functions called_back))
      (number_item 9)
      (promised_by_client items standard coded_errors texts client_phrases
        (inbound_context items standard called_back)
        21
        (items.get called_back 10)
        (some failing))
    × Received items standard (some (text_item 99)) (items.get called_back 10)
    × SameEntries items standard (decode_metadata items standard called_back) none
reverse_call_answered_example =
    reverse_call_answered items standard coded_errors texts functions standard-NamesDiffer
      coded_errors-Int32Codes client_phrases 9 21 (some (text_item 99)) none

abbrev answer : Item
answer = new_function_result items standard (number_item 7) (some (text_item 99))

sent_answer :
    do_serve items standard coded_errors texts phrases functions none 33 asked ≡ some answer
unfolding do_serve new_function_result get_string_field numbered construct_request encode_metadata
    verify same_type function_result get_number_field
sent_answer = refl

read_answer : client_reads items standard answer ≡ some (returned (some (text_item 99)))
unfolding client_reads new_function_result get_number_field
read_answer = refl

returned-Conforms_example :
    (name : ℕ) × (fn : Callee items coded_errors) × (functions name ≡ some fn)
    × CalledWell items standard coded_errors texts
        (request_context items standard none 33 asked)
        (items.get asked 10)
        (some (text_item 99))
        fn
returned-Conforms_example =
    returned-Conforms items standard coded_errors texts standard-NamesDiffer coded_errors-Int32Codes
      phrases functions none 33 asked answer (some (text_item 99)) sent_answer read_answer

deadline_lem_example :
    let t = effective_timeout 3000 (some 1200) in
    (new_request_context items standard (
      numbered items standard 7
        (construct_request items standard function_request 20 none t none))).deadline
    ≡ (if sle 1200 0 then none else some (milliseconds (if slt 1200 3000 then 1200 else 3000)))
deadline_lem_example =
    deadline_lem items standard standard-NamesDiffer 7 3000 1200 20 none none (omega arith)
      (omega arith) (omega arith)
