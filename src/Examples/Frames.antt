-- ===== src/Examples/Frames.antt =====
-- Frames of a small codec, and the requests that they carry.
use value_rpc.Prelude.{ℕ, ◌≡◌, refl, sym, ap, false, List, [], ◌∷◌, Option, none, some, arith}
use value_rpc.Examples.Messages.{items, Item, null_item, number_item, text_item, empty_item, field}
use value_rpc.Examples.Messages.{standard}
use value_rpc.Examples.Remote.{standard-NamesDiffer}
use value_rpc.Envelope.Request.{
  numbered, construct_request, with_timeout, with_metadata, put_or_nil,
}
use mathlib.Core.List.{map}
use value_rpc.Examples.Requests.{small, streams_only}
use value_rpc.Framing.{
  Codec, MsgConn, end_of_stream, put_uint32, read_all, write_all, failed, unexpected_end,
  read_message, read_payload, read_full, uint32, unpacked,
}
use value_rpc.Framing.RoundTrip.{IsSendable, AllSendable, read_all-write_all}
use value_rpc.Serving.{new_serving, receive, run}
use value_rpc.Connection.{serve_messages}
use value_rpc.Connection.Delivery.{Asking, written, message, delivers_in_order}

-- A codec for requests without arguments.
abbrev pack_request : Item → Option (List ℕ)
pack_request
      (field
        (field (field (field empty_item t (number_item a)) n (text_item s)) g null_item)
        i
        (number_item b)) =
    some (t ∷ a ∷ n ∷ s ∷ g ∷ i ∷ b ∷ [])
pack_request _ = none

abbrev unpack_request : List ℕ → Option Item
unpack_request (t ∷ a ∷ n ∷ s ∷ g ∷ i ∷ b ∷ []) = some (
    field (field (field (field empty_item t (number_item a)) n (text_item s)) g null_item) i
      (number_item b))
unpack_request _ = none

abbrev unpack_some : Option (List ℕ) → Option Item
unpack_some none = none
unpack_some (some p) = unpack_request p

unpack_request_lem : (m : Item) (p : List ℕ) → pack_request m ≡ some p → unpack_request p ≡ some m
unpack_request_lem
      (field
        (field (field (field empty_item t (number_item a)) n (text_item s)) g null_item)
        i
        (number_item b))
      p h =
    ap unpack_some (sym h)
unpack_request_lem _ p h = cc

abbrev small_codec : Codec items
small_codec = record {
  pack = pack_request;
  unpack = unpack_request;
  unpack_pack = unpack_request_lem;
}

-- A request of a type with an id, for the function 3.
abbrev asks : ℕ → ℕ → Asking items
asks t id = record {
  message_type = t;
  id = id;
  name = 3;
  args = none;
  timeout = 0;
  metadata = none;
}

asks-IsSendable :
    (t id : ℕ) → IsSendable items small_codec 1_024 (written items standard (asks t id))
unfolding numbered construct_request with_timeout with_metadata put_or_nil
asks-IsSendable t id = record {
  payload = 1 ∷ t ∷ 9 ∷ 3 ∷ 10 ∷ 4 ∷ id ∷ [];
  packed = refl;
  short = omega arith;
  allowed = refl;
  is_map = refl;
}

abbrev two_askings : List (Asking items)
two_askings = asks 4 7 ∷ asks 11 7 ∷ []

abbrev two_requests : List Item
two_requests = map (written items standard) two_askings

two_requests-Sendable : AllSendable items small_codec 1_024 two_requests
two_requests-Sendable = (asks-IsSendable 4 7, (asks-IsSendable 11 7, tt))

abbrev fresh_conn : MsgConn
fresh_conn = record { write_buf = []; shutdown = false; out = [] }

first_frame : put_uint32 7 ≡ 0 ∷ 0 ∷ 0 ∷ 7 ∷ []
unfolding put_uint32
first_frame = refl

read_all-write_all_example :
    read_all items small_codec 1_024 3 (write_all items small_codec two_requests fresh_conn).out
    ≡ (two_requests, some end_of_stream)
read_all-write_all_example =
    read_all-write_all items small_codec 1_024 two_requests [] two_requests-Sendable

delivers_in_order_example :
    let (reqs, e) =
      read_all items small_codec 1_024 3
        (write_all items small_codec two_requests fresh_conn).out in
    (serve_messages items standard small streams_only reqs (new_serving items)
      ≡ run items small streams_only
          (map (λ a. receive (message items standard a)) two_askings)
          (new_serving items))
    × (e ≡ some end_of_stream)
delivers_in_order_example =
    delivers_in_order items standard small streams_only standard-NamesDiffer small_codec 1_024
      two_askings [] (new_serving items) two_requests-Sendable

-- A stream that ends after the length of a frame gives the error of an orderly end, and one that ends a
-- byte later another one.
cut_after_length : read_message items small_codec 1_024 (0 ∷ 0 ∷ 0 ∷ 4 ∷ []) ≡ failed end_of_stream
unfolding read_message read_payload read_full uint32 unpacked
cut_after_length = refl

cut_in_payload :
    read_message items small_codec 1_024 (0 ∷ 0 ∷ 0 ∷ 4 ∷ 1 ∷ []) ≡ failed unexpected_end
unfolding read_message read_payload read_full uint32 unpacked
cut_in_payload = refl
