-- ===== src/Unary.antt =====
-- A unary call on the end that serves it. Here the server's, serveFunctionRequest and the part of
-- doServeFunctionRequest for a unary request in valueserver/serving_client.go with newRequestContext; in
-- Client the client's, serveInboundCall of valueclient/client.go. A handler is any function; one that panics
-- sends nothing.
pub mod Client
pub mod Contract
pub mod Deadline
pub mod Sound
pub mod EndToEnd
use value_rpc.Prelude.{
  ℕ, ◌*◌, ◌%◌, Bool, true, false, two64, slt, not, if◌then◌else◌, Option, none, some,
}
use value_rpc.Errors.{Errors, code_invalid_argument, code_not_found, code_internal}
use value_rpc.Wire.Values.{Values}
use value_rpc.Wire.Verify.{TypeDef, verify}
use value_rpc.Wire.Protocol.{Dialect, get_number_field, get_string_field}
use value_rpc.Serving.{FunctionType, single_function, same_type}
use value_rpc.Envelope.{ErrorTexts, response_code}
use value_rpc.Envelope.Metadata.{Metadata, decode_metadata}
use value_rpc.Envelope.Server.{function_result, function_error, handler_error}

-- What a handler finds in its context; the deadline is a duration in nanoseconds.
pub record Context (v : Values) : Type 0 where
  pub deadline : Option ℕ
  pub metadata : Option (Metadata v)
  pub principal : v.Text
  pub peer : Bool

pub data Result (v : Values) (e : Errors) : Type 0 where
  ok : Option v.Value → Result v e
  err : e.Err → Result v e
  panics : Result v e

pub record Callee (v : Values) (e : Errors) : Type 0 where
  pub ft : FunctionType
  pub args : TypeDef v
  pub res : TypeDef v
  pub single_fn : Context v → Option v.Value → Result v e

-- The formatted texts of the errors, and "function " + name.
pub record Phrases (v : Values) : Type 0 where
  pub no_name : v.Text
  pub not_found : v.Text → v.Text
  pub invalid_args : v.Text → Option v.Value → v.Text
  pub wrong_type : v.Text → FunctionType → FunctionType → v.Text
  pub invalid_results : v.Text → Option v.Value → v.Text
  pub function_ : v.Text → v.Text

-- What is left of a unary request: the name and the code given to the metrics, and the reply.
pub record Served (v : Values) : Type 0 where
  pub begun : v.Text
  pub ended : Option ℕ
  pub sent : Option v.Value

unfoldable pub background : (v : Values) → Context v
background v = record { deadline = none; metadata = none; principal = v.empty_text; peer = false }

-- time.Duration(n) * time.Millisecond
unfoldable pub milliseconds : ℕ → ℕ
milliseconds n = (n * 1_000_000) % two64

module _ (v : Values) (d : Dialect v) where
  unfoldable pub deadline_of : Option v.Value → Option ℕ
  unfolding milliseconds
  deadline_of none = none
  deadline_of (some sla) =
      if slt 0 (v.to_long sla) then some (milliseconds (v.to_long sla)) else none

  -- newRequestContext, of a unary request.
  unfoldable pub new_request_context : v.Value → Context v
  unfolding deadline_of background
  new_request_context req = record (background v) {
    deadline = deadline_of (get_number_field v req d.timeout_field);
  }

  -- The extractor of WithMetadataExtractor, if there is one.
  abbrev pub Extractor : Type 0
  Extractor = Option (Context v → Metadata v → Context v)

  unfoldable pub extracted : Extractor → Context v → Option (Metadata v) → Context v
  extracted ex ctx none = ctx
  extracted none ctx (some md) = record ctx { metadata = some md }
  extracted (some f) ctx (some md) = f (record ctx { metadata = some md }) md

  unfoldable pub with_principal : v.Text → Context v → Context v
  with_principal p ctx =
      if not (v.same_text p v.empty_text) then record ctx { principal = p } else ctx

  unfoldable pub request_context : Extractor → v.Text → v.Value → Context v
  unfolding extracted new_request_context with_principal
  request_context ex principal req =
      let ctx = extracted ex (new_request_context req) (decode_metadata v d req) in
      record (with_principal principal ctx) { peer = true }

  unfoldable pub id_or_zero : Option v.Value → v.Value
  id_or_zero none = v.long 0
  id_or_zero (some id) = id

  unfoldable pub name_or_empty : Option v.Value → v.Text
  name_or_empty none = v.empty_text
  name_or_empty (some s) = v.to_text s

  unfoldable pub code_sent : Option v.Value → Option ℕ
  code_sent none = none
  code_sent (some resp) = some (response_code v d (some resp))

  module _ (e : Errors) (texts : ErrorTexts v e) (phrases : Phrases v) where
    unfoldable pub reply_of : v.Value → v.Text → TypeDef v → Result v e → Option v.Value
    reply_of id name res (err x) = some (handler_error v d e texts id (phrases.function_ name) x)
    reply_of id name res panics = none
    reply_of id name res (ok r) =
        if not (verify v r res)
        then some (function_error v d id code_internal (phrases.invalid_results name r))
        else some (function_result v d id r)

    unfoldable pub serve_found :
        Context v → v.Value → v.Text → Option v.Value → Option (Callee v e) → Option v.Value
    unfolding reply_of
    serve_found ctx id name args none =
        some (function_error v d id code_not_found (phrases.not_found name))
    serve_found ctx id name args (some fn) =
        if not (verify v args fn.args)
        then some (function_error v d id code_invalid_argument (phrases.invalid_args name args))
        else if not (same_type fn.ft single_function)
        then some (
            function_error v d id code_invalid_argument
              (phrases.wrong_type name fn.ft single_function))
        else reply_of id name fn.res (fn.single_fn ctx args)

    module _ (find : v.Text → Option (Callee v e)) (ex : Extractor) (principal : v.Text) where
      unfoldable pub serve_named : v.Value → v.Value → Option v.Value → Option v.Value
      unfolding serve_found request_context
      serve_named req id none = some (function_error v d id code_invalid_argument phrases.no_name)
      serve_named req id (some name) =
          serve_found (request_context ex principal req) id (v.to_text name)
            (v.get req d.arguments_field) (find (v.to_text name))

      unfoldable pub do_serve : v.Value → Option v.Value
      unfolding serve_named id_or_zero
      do_serve req =
          serve_named req (id_or_zero (get_number_field v req d.request_id_field))
            (get_string_field v req d.function_name_field)

      -- A panic is recovered from after the metrics' begin, and before its end.
      unfoldable pub serve_function_request : v.Value → Served v
      unfolding do_serve name_or_empty code_sent
      serve_function_request req = record {
        begun = name_or_empty (get_string_field v req d.function_name_field);
        ended = code_sent (do_serve req);
        sent = do_serve req;
      }
