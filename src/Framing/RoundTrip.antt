-- ===== src/Framing/RoundTrip.antt =====
-- What was written is read back, message by message.
use value_rpc.Prelude.{
  ℕ, suc, ◌/◌, ◌%◌, ◌<◌, ◌≡◌, refl, sym, ap, ◌∙◌, false, ◌&&◌, slt, List, [], ◌∷◌, ◌++◌, none, some,
  length, drop, append-nil, append_assoc, length-append, arith,
}
use value_rpc.Wire.Values.{Values}
use value_rpc.Framing.{
  Codec, MsgConn, got, end_of_stream, take, read_full, put_uint32, uint32, decoded, read_payload,
  read_message, write_message, write_all, read_all, do_write_frame,
}
use value_rpc.Framing.Buffers.{do_write_frame-out}

take-append : (p rest : List ℕ) → take (length p) (p ++ rest) ≡ p
take-append [] rest = refl
take-append (x ∷ p) rest = ap (λ xs. x ∷ xs) (take-append p rest)

drop-append_length : (p rest : List ℕ) → drop (length p) (p ++ rest) ≡ rest
drop-append_length [] rest = refl
drop-append_length (x ∷ p) rest = drop-append_length p rest

read_full-append : (p rest : List ℕ) → read_full (length p) (p ++ rest) ≡ got p rest
unfolding read_full
read_full-append p rest =
    ground (arith, length-append p rest, take-append p rest, drop-append_length p rest)

uint32-put_uint32 : (n : ℕ) → n < 4_294_967_296 → uint32 (put_uint32 n) ≡ n
unfolding uint32 put_uint32
uint32-put_uint32 n h = omega arith

read_header : (n : ℕ) (bs : List ℕ) → read_full 4 (put_uint32 n ++ bs) ≡ got (put_uint32 n) bs
unfolding put_uint32
read_header n bs =
    read_full-append (n / 16_777_216 % 256 ∷ n / 65_536 % 256 ∷ n / 256 % 256 ∷ n % 256 ∷ []) bs

do_write_frame-shutdown :
    (payload : List ℕ) (c : MsgConn) → (do_write_frame payload c).shutdown ≡ c.shutdown
unfolding do_write_frame
do_write_frame-shutdown payload c = ground arith

module _ (v : Values) (codec : Codec v) where
  -- A map that can be sent to a reader with the limit: its payload is packed, has a length of 32 bits and
  -- is within the limit, if there is one.
  pub record IsSendable (max_frame_size : ℕ) (m : v.Value) : Type 0 where
    pub payload : List ℕ
    pub packed : codec.pack m ≡ some payload
    pub short : length payload < 4_294_967_296
    pub allowed : (slt 0 max_frame_size && slt max_frame_size (length payload)) ≡ false
    pub is_map : v.kind m ≡ v.map_kind

  abbrev pub AllSendable : ℕ → List v.Value → Type 0
  AllSendable max_frame_size [] = Unit {0}
  AllSendable max_frame_size (m ∷ ms) = IsSendable max_frame_size m × AllSendable max_frame_size ms

  decoded-got :
      (m : v.Value) (rest : List ℕ)
      → v.kind m ≡ v.map_kind
      → decoded v codec (some m) rest ≡ got m rest
  unfolding decoded
  decoded-got m rest k = ground (arith, v.same_kind_iff (v.kind m) v.map_kind)

  read_message-append :
      (max_frame_size : ℕ) (m : v.Value) (s : IsSendable max_frame_size m) (rest : List ℕ)
      → read_message v codec max_frame_size ((put_uint32 (length s.payload) ++ s.payload) ++ rest)
        ≡ got m rest
  unfolding read_message read_payload
  read_message-append max_frame_size m s rest =
      rw (append_assoc (put_uint32 (length s.payload)) s.payload rest) (
        rw (read_header (length s.payload) (s.payload ++ rest)) (
          rw (uint32-put_uint32 (length s.payload) s.short) (
            rw s.allowed (
              rw (read_full-append s.payload rest)
                (rw (codec.unpack_pack m s.payload s.packed) (decoded-got m rest s.is_map))))))

  -- The bytes of the frames of messages, one after the other.
  abbrev frames : (max_frame_size : ℕ) (ms : List v.Value) → AllSendable max_frame_size ms → List ℕ
  frames max_frame_size [] u = []
  frames max_frame_size (m ∷ ms) (s, ss) =
      (put_uint32 (length s.payload) ++ s.payload) ++ frames max_frame_size ms ss

  write_message_lem :
      (max_frame_size : ℕ) (m : v.Value) (s : IsSendable max_frame_size m) (c : MsgConn)
      → c.shutdown ≡ false
      → write_message v codec m c ≡ (do_write_frame s.payload c, none)
  unfolding write_message
  write_message_lem max_frame_size m s c h = ground (arith, s.packed)

  write_message-out :
      (max_frame_size : ℕ) (m : v.Value) (s : IsSendable max_frame_size m) (c : MsgConn)
      → c.shutdown ≡ false
      → ((write_message v codec m c).0.out ≡ c.out ++ (put_uint32 (length s.payload) ++ s.payload))
        × ((write_message v codec m c).0.shutdown ≡ false)
  write_message-out max_frame_size m s c h =
      rw (write_message_lem max_frame_size m s c h)
        (do_write_frame-out s.payload c, do_write_frame-shutdown s.payload c ∙ h)

  write_all-out :
      (max_frame_size : ℕ) (ms : List v.Value) (ss : AllSendable max_frame_size ms) (c : MsgConn)
      → c.shutdown ≡ false
      → (write_all v codec ms c).out ≡ c.out ++ frames max_frame_size ms ss
  unfolding write_all
  write_all-out max_frame_size [] u c h = sym (append-nil c.out)
  write_all-out max_frame_size (m ∷ ms) (s, ss) c h =
      let w = write_message-out max_frame_size m s c h in
      write_all-out max_frame_size ms ss (write_message v codec m c).0 w.1
      ∙ ap (λ xs. xs ++ frames max_frame_size ms ss) w.0
      ∙ append_assoc c.out _ (frames max_frame_size ms ss)

  read_all-frames :
      (max_frame_size : ℕ) (ms : List v.Value) (ss : AllSendable max_frame_size ms)
      → read_all v codec max_frame_size (suc (length ms)) (frames max_frame_size ms ss)
        ≡ (ms, some end_of_stream)
  unfolding read_all
  read_all-frames max_frame_size [] u = unfold read_message read_payload read_full in refl
  read_all-frames max_frame_size (m ∷ ms) (s, ss) =
      rw (read_message-append max_frame_size m s (frames max_frame_size ms ss))
        (rw (read_all-frames max_frame_size ms ss) refl)

  -- The messages that are written to a connection that is not shut down, each a map within the reader's
  -- limit and with a payload below 4 GiB, are read back one by one and in order; then the reader is told
  -- of the end of the stream.
  pub read_all-write_all :
      (max_frame_size : ℕ) (ms : List v.Value) (write_buf : List ℕ)
      → AllSendable max_frame_size ms
      → let c : MsgConn = record { write_buf = write_buf; shutdown = false; out = [] } in
        read_all v codec max_frame_size (suc (length ms)) (write_all v codec ms c).out
        ≡ (ms, some end_of_stream)
  read_all-write_all max_frame_size ms write_buf ss =
      ap (read_all v codec max_frame_size (suc (length ms))) (
        write_all-out max_frame_size ms ss
          (record { write_buf = write_buf; shutdown = false; out = [] }) refl)
      ∙ read_all-frames max_frame_size ms ss
