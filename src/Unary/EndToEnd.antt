-- ===== src/Unary/EndToEnd.antt =====
-- A unary call from the request of one end to what that end reads of the other's reply.
use value_rpc.Prelude.{ℕ, ◌≡◌, refl, Option}
use value_rpc.Errors.{Errors}
use value_rpc.Wire.Values.{Values}
use value_rpc.Wire.Protocol.{Dialect, function_request}
use value_rpc.Envelope.{ErrorTexts}
use value_rpc.Envelope.Metadata.{Metadata, decode_metadata}
use value_rpc.Envelope.Request.{construct_request, numbered, call_request}
use value_rpc.Envelope.Fields.{NamesDiffer}
use value_rpc.Envelope.Asked.{
  Asks, Received, SameEntries, construct_request-Asks, call_request-Asks,
}
use value_rpc.Unary.{
  Callee, Phrases, Extractor, request_context, id_or_zero, serve_found, serve_named, do_serve,
}
use value_rpc.Unary.Client.{
  serve_entry, serve_by_name, serve_by_id, serve_inbound_call, inbound_context,
}
use value_rpc.Unary.Client
use value_rpc.Unary.Contract.{
  Int32Codes, promised, promised_by_client, Replies, sent_of, serve_found-Replies,
  serve_entry-Replies,
}

module _ (v : Values) (d : Dialect v) (e : Errors) (texts : ErrorTexts v e) where
  module _ (find : v.Text → Option (Callee v e)) where
    do_serve-asked :
        (ph : Phrases v) (ex : Extractor v d) (principal : v.Text) (m : v.Value) (id : ℕ)
        (name : v.Text) (args : Option v.Value) (md : Option (Metadata v))
        → Asks v d m id name args md
        → do_serve v d e texts ph find ex principal m
          ≡ serve_found v d e texts ph
              (request_context v d ex principal m)
              (v.long id)
              name
              (v.get m d.arguments_field)
              (find name)
    unfolding do_serve serve_named id_or_zero
    do_serve-asked ph ex principal m id name args md a =
        rw a.id_read (rw a.name_read (rw (v.text_utf8 name) refl))

    serve_inbound_call-asked :
        (ph : Client.Phrases v) (m : v.Value) (id : ℕ) (name : v.Text) (args : Option v.Value)
        (md : Option (Metadata v))
        → Asks v d m id name args md
        → serve_inbound_call v d e texts ph find m
          ≡ serve_entry v d e texts ph m (v.long id) name (v.get m d.arguments_field) (find name)
    unfolding serve_inbound_call serve_by_id serve_by_name
    serve_inbound_call-asked ph m id name args md a =
        rw a.id_read (rw a.name_read (rw (v.text_utf8 name) refl))

    module _ (names : NamesDiffer v d) (small : Int32Codes e) where
      -- For a dialect whose fields have different names and errors whose codes are int32: the server's reply to
      -- a unary request that the client builds has the request's id, and the client, the server's own reader
      -- of replies and the metrics all read in it the outcome that the contract promises for the function of
      -- that name, called in the request's context with the arguments that arrive, and there is no
      -- reply where the contract promises none; the arguments that arrive are those sent, where some were
      -- sent, and the metadata that is decoded has the entries of the metadata sent.
      pub call_answered :
          (ph : Phrases v) (ex : Extractor v d) (principal : v.Text) (id t : ℕ) (name : v.Text)
          (args : Option v.Value) (md : Option (Metadata v))
          → let req = numbered v d id (construct_request v d function_request name args t md) in
            let got = v.get req d.arguments_field in
            Replies v d e texts
              (do_serve v d e texts ph find ex principal req)
              (v.long id)
              (promised v d e texts ph (request_context v d ex principal req) name got (find name))
            × Received v d args got
            × SameEntries v d (decode_metadata v d req) md
      call_answered ph ex principal id t name args md =
          let a = construct_request-Asks v d names function_request id t name args md in
          (
            rw (do_serve-asked ph ex principal _ id name args md a) (
                serve_found-Replies v d e texts names small (v.long id) (v.kind_long id) ph _ name _
                  (find name)),
            a.args_read,
            a.metadata_read,
          )

      -- The same of a call that the server makes to a function that its client registered.
      pub reverse_call_answered :
          (ph : Client.Phrases v) (id : ℕ) (name : v.Text) (args : Option v.Value)
          (md : Option (Metadata v))
          → let req = call_request v d id name args md in
            let got = v.get req d.arguments_field in
            Replies v d e texts
              (sent_of v d e texts (serve_inbound_call v d e texts ph find req))
              (v.long id)
              (promised_by_client v d e texts ph (inbound_context v d req) name got (find name))
            × Received v d args got
            × SameEntries v d (decode_metadata v d req) md
      reverse_call_answered ph id name args md =
          let a = call_request-Asks v d names id name args md in
          (
            rw (serve_inbound_call-asked ph _ id name args md a) (
                serve_entry-Replies v d e texts names small (v.long id) (v.kind_long id) ph _ name _
                  (find name)),
            a.args_read,
            a.metadata_read,
          )
