-- ===== src/Connection/Delivery.antt =====
-- From the frames of a client to the requests that its session serves.
use value_rpc.Prelude.{
  ℕ, suc, ◌≡◌, refl, sym, ap, ◌∙◌, false, List, [], ◌∷◌, Option, none, some, length,
}
use mathlib.Core.List.{map}
use value_rpc.Wire.Values.{Values}
use value_rpc.Wire.Protocol.{Dialect}
use value_rpc.Envelope.Metadata.{Metadata}
use value_rpc.Envelope.Request.{construct_request, numbered}
use value_rpc.Envelope.Fields.{NamesDiffer}
use value_rpc.Envelope.Asked.{Received, construct_request-Asks, type_read}
use value_rpc.Framing.{Codec, MsgConn, end_of_stream, read_all, write_all}
use value_rpc.Framing.RoundTrip.{AllSendable, read_all-write_all}
use value_rpc.Serving.{Message, Function, Limits, Serving, Event, receive, step, run}
use value_rpc.Connection.{message_of, with_message_type, with_id, process_message, serve_messages}

-- What the client asks for. No timeout is 0.
pub record Asking (v : Values) : Type 0 where
  pub message_type : ℕ
  pub id : ℕ
  pub name : v.Text
  pub args : Option v.Value
  pub timeout : ℕ
  pub metadata : Option (Metadata v)

module _ (v : Values) (d : Dialect v) where
  -- The request that constructRequest and sendRequest make of it.
  abbrev pub written : Asking v → v.Value
  written a =
      numbered v d a.id (construct_request v d a.message_type a.name a.args a.timeout a.metadata)

  -- Arguments arrive as they were given; of none the map holds a nil, or nothing.
  abbrev pub arrived : Option v.Value → v.Value → Option v.Value
  arrived none m = v.get m d.arguments_field
  arrived (some x) m = some x

  -- The request as it is to be served.
  abbrev pub message : Asking v → Message v
  message a = record {
    message_type = a.message_type;
    id = a.id;
    name = some a.name;
    args = arrived a.args (written a);
  }

  args_arrived :
      (o : Option v.Value) (m : v.Value)
      → Received v d o (v.get m d.arguments_field)
      → v.get m d.arguments_field ≡ arrived o m
  args_arrived none m h = refl
  args_arrived (some x) m h = h

  abbrev asked_of : ℕ → ℕ → v.Text → Option v.Value → Message v
  asked_of t i n o = record { message_type = t; id = i; name = some n; args = o }

  message_by :
      (a : Asking v) (t i : ℕ) (n : v.Text) (o : Option v.Value)
      → t ≡ a.message_type
      → i ≡ a.id
      → n ≡ a.name
      → o ≡ arrived a.args (written a)
      → some (asked_of t i n o) ≡ some (message a)
  message_by a t i n o p q r e = rw (p, q, r, e) refl

module _ (v : Values) (d : Dialect v) (limits : Limits) (find : v.Text → Option (Function v)) where
  abbrev pub received : Option (Message v) → List (Event v limits find) → List (Event v limits find)
  received none es = es
  received (some m) es = receive m ∷ es

  -- The requests among the messages, in their order, each as an event of the session.
  abbrev pub requests : List v.Value → List (Event v limits find)
  requests [] = []
  requests (req ∷ reqs) = received (message_of v d req) (requests reqs)

  run-received :
      (o : Option (Message v)) (es : List (Event v limits find)) (s : Serving v)
      → run v limits find (received o es) s
        ≡ run v limits find es (process_message v d limits find o s)
  unfolding run step process_message
  run-received none es s = refl
  run-received (some m) es s = refl

  serve_messages-run :
      (reqs : List v.Value) (s : Serving v)
      → serve_messages v d limits find reqs s ≡ run v limits find (requests reqs) s
  unfolding serve_messages run
  serve_messages-run [] s = refl
  serve_messages-run (req ∷ reqs) s =
      serve_messages-run reqs _ ∙ sym (run-received (message_of v d req) (requests reqs) s)

  module _ (names : NamesDiffer v d) where
    message_of-written : (a : Asking v) → message_of v d (written v d a) ≡ some (message v d a)
    unfolding message_of with_message_type with_id
    message_of-written a =
        let q =
          construct_request-Asks v d names a.message_type a.id a.timeout a.name a.args a.metadata in
        rw (type_read v d names a.message_type a.id a.timeout a.name a.args a.metadata) (
          rw (q.id_read) (
            rw (q.name_read) (
              message_by v d a _ _ _ _ (v.long_long _) (v.long_long _) (v.text_utf8 _)
                (args_arrived v d a.args _ q.args_read))))

    requests-written :
        (cs : List (Asking v))
        → requests (map (written v d) cs) ≡ map (λ a. receive (message v d a)) cs
    requests-written [] = refl
    requests-written (a ∷ cs) =
        ap (λ o. received o (requests (map (written v d) cs))) (message_of-written a)
        ∙ ap (λ es. receive (message v d a) ∷ es) (requests-written cs)

    -- When a client builds and numbers requests and writes them to an open connection, and each can be
    -- packed within the limits, the server's read loop runs its session through them: each one once, in the
    -- order of the writes, with the type, the id, the name and the arguments that the client gave. Then it
    -- finds the orderly end of the stream.
    pub delivers_in_order :
        (codec : Codec v) (max_frame_size : ℕ) (cs : List (Asking v)) (write_buf : List ℕ)
        (s : Serving v)
        → AllSendable v codec max_frame_size (map (written v d) cs)
        → let c : MsgConn = record { write_buf = write_buf; shutdown = false; out = [] } in
          let ms = map (written v d) cs in
          let (reqs, e) =
            read_all v codec max_frame_size (suc (length ms)) (write_all v codec ms c).out in
          (serve_messages v d limits find reqs s
            ≡ run v limits find (map (λ a. receive (message v d a)) cs) s)
          × (e ≡ some end_of_stream)
    delivers_in_order codec max_frame_size cs write_buf s ss =
        let r = read_all-write_all v codec max_frame_size (map (written v d) cs) write_buf ss in
        (
          ap (λ x. serve_messages v d limits find x.0 s) r
              ∙ serve_messages-run (map (written v d) cs) s
              ∙ ap (λ es. run v limits find es s) (requests-written cs),
          ap (λ x. x.1) r,
        )
