-- ===== src/Unary/Client.antt =====
-- serveInboundCall of valueclient/client.go: a call of the server, on the client that serves it.
use value_rpc.Prelude.{not, if◌then◌else◌, Option, none, some}
use value_rpc.Errors.{Errors, code_invalid_argument, code_not_found, code_internal}
use value_rpc.Wire.Values.{Values}
use value_rpc.Wire.Verify.{TypeDef, verify}
use value_rpc.Wire.Protocol.{Dialect, get_number_field, get_string_field}
use value_rpc.Serving.{single_function, same_type}
use value_rpc.Envelope.{ErrorTexts, new_function_result, new_function_error, new_handler_error}
use value_rpc.Envelope.Metadata.{decode_metadata}
use value_rpc.Unary.{Context, Result, ok, err, panics, Callee, background}

pub record Phrases (v : Values) : Type 0 where
  pub no_name : v.Text
  pub not_found : v.Text → v.Text
  pub not_unary : v.Text → v.Text
  pub invalid_args : v.Text → v.Text
  pub invalid_result : v.Text → v.Text
  pub function_ : v.Text → v.Text

-- What becomes of a call: the loop reports an error to the application, a reply is sent, or the handler's
-- goroutine panics, from which nothing recovers.
pub data Inbound (v : Values) : Type 0 where
  id_field_not_found : Inbound v
  replied : v.Value → Inbound v
  crashed : Inbound v

module _ (v : Values) (d : Dialect v) where
  unfoldable pub inbound_context : v.Value → Context v
  unfolding background
  inbound_context req = record (background v) { metadata = decode_metadata v d req }

  module _ (e : Errors) (texts : ErrorTexts v e) (phrases : Phrases v) where
    unfoldable pub run_handler : v.Value → v.Text → TypeDef v → Result v e → Inbound v
    run_handler id name res (err x) =
        replied (new_handler_error v d e texts id (phrases.function_ name) x)
    run_handler id name res panics = crashed
    run_handler id name res (ok r) =
        if not (verify v r res)
        then replied (new_function_error v d id code_internal (phrases.invalid_result name))
        else replied (new_function_result v d id r)

    unfoldable pub serve_entry :
        v.Value → v.Value → v.Text → Option v.Value → Option (Callee v e) → Inbound v
    unfolding run_handler inbound_context
    serve_entry req id name args none =
        replied (new_function_error v d id code_not_found (phrases.not_found name))
    serve_entry req id name args (some cf) =
        if not (same_type cf.ft single_function)
        then replied (new_function_error v d id code_invalid_argument (phrases.not_unary name))
        else if not (verify v args cf.args)
        then replied (new_function_error v d id code_invalid_argument (phrases.invalid_args name))
        else run_handler id name cf.res (cf.single_fn (inbound_context req) args)

    module _ (find : v.Text → Option (Callee v e)) where
      unfoldable pub serve_by_name : v.Value → v.Value → Option v.Value → Inbound v
      unfolding serve_entry
      serve_by_name req id none =
          replied (new_function_error v d id code_invalid_argument phrases.no_name)
      serve_by_name req id (some name) =
          serve_entry req id (v.to_text name) (v.get req d.arguments_field) (find (v.to_text name))

      unfoldable pub serve_by_id : v.Value → Option v.Value → Inbound v
      unfolding serve_by_name
      serve_by_id req none = id_field_not_found
      serve_by_id req (some id) =
          serve_by_name req id (get_string_field v req d.function_name_field)

      unfoldable pub serve_inbound_call : v.Value → Inbound v
      unfolding serve_by_id
      serve_inbound_call req = serve_by_id req (get_number_field v req d.request_id_field)
