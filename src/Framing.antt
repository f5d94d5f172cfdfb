-- ===== src/Framing.antt =====
-- valuerpc/rpc.go: messages as frames on a byte stream, a 4-byte big-endian length and then the payload.
-- A stream is the list of the bytes that are still to be read, and it has an end. The MessagePack codec
-- of the value library is a parameter.
pub mod Buffers
pub mod RoundTrip
use value_rpc.Prelude.{
  ℕ, zero, suc, ◌+◌, ◌-◌, ◌*◌, ◌/◌, ◌%◌, ◌<◌, ◌≡◌, Bool, true, false, not, ◌&&◌, ltb, leb, slt,
  if◌then◌else◌, List, [], ◌∷◌, ◌++◌, Option, none, some, length, drop,
}
use value_rpc.Wire.Values.{Values}

pub record Codec (v : Values) : Type 0 where
  -- value.Pack and value.Unpack; `none` is an error.
  pub pack : v.Value → Option (List ℕ)
  pub unpack : List ℕ → Option v.Value
  pub unpack_pack : (m : v.Value) (p : List ℕ) → pack m ≡ some p → unpack p ≡ some m

pub data ReadError : Type 0 where
  end_of_stream unexpected_end frame_too_large unpack_failed not_a_map : ReadError

-- What was read, with the bytes after it.
pub data Read {ℓ} (A : Type ℓ) : Type ℓ where
  got : A → List ℕ → Read A
  failed : ReadError → Read A

pub data WriteError : Type 0 where
  client_closed pack_failed : WriteError

abbrev pub take {ℓ} : {A : Type ℓ} → ℕ → List A → List A
take zero xs = []
take (suc n) [] = []
take (suc n) (x ∷ xs) = x ∷ take n xs

-- io.ReadFull of `n` bytes: the end of the stream before the first byte is another error than after it.
abbrev pub short_read : List ℕ → ReadError
short_read [] = end_of_stream
short_read (b ∷ bs) = unexpected_end

unfoldable pub read_full : ℕ → List ℕ → Read (List ℕ)
read_full n bs = if leb n (length bs) then got (take n bs) (drop n bs) else failed (short_read bs)

-- binary.BigEndian.PutUint32 and Uint32, on a list of four bytes.
unfoldable pub put_uint32 : ℕ → List ℕ
put_uint32 n = n / 16_777_216 % 256 ∷ n / 65_536 % 256 ∷ n / 256 % 256 ∷ n % 256 ∷ []

unfoldable pub uint32 : List ℕ → ℕ
uint32 (a ∷ b ∷ c ∷ d ∷ bs) = a * 16_777_216 + b * 65_536 + c * 256 + d
uint32 bs = 0

module _ (v : Values) (codec : Codec v) where
  unfoldable pub decoded : Option v.Value → List ℕ → Read v.Value
  decoded none rest = failed unpack_failed
  decoded (some m) rest =
      if not (v.same_kind (v.kind m) v.map_kind) then failed not_a_map else got m rest

  unfoldable pub unpacked : Read (List ℕ) → Read v.Value
  unfolding decoded
  unpacked (failed e) = failed e
  unpacked (got payload rest) = decoded (codec.unpack payload) rest

  unfoldable pub read_payload : ℕ → Read (List ℕ) → Read v.Value
  unfolding unpacked
  read_payload max_frame_size (failed e) = failed e
  read_payload max_frame_size (got len_buf rest) =
      let n = uint32 len_buf in
      if slt 0 max_frame_size && slt max_frame_size n
      then failed frame_too_large
      else unpacked (read_full n rest)

  unfoldable pub read_message : ℕ → List ℕ → Read v.Value
  unfolding read_payload
  read_message max_frame_size bs = read_payload max_frame_size (read_full 4 bs)

-- copy(dst[at:], src)
abbrev copy_over : List ℕ → List ℕ → List ℕ
copy_over dst [] = dst
copy_over [] (s ∷ ss) = []
copy_over (d ∷ ds) (s ∷ ss) = s ∷ copy_over ds ss

unfoldable pub copy_at : ℕ → List ℕ → List ℕ → List ℕ
copy_at zero dst src = copy_over dst src
copy_at (suc n) [] src = []
copy_at (suc n) (d ∷ ds) src = d ∷ copy_at n ds src

abbrev pub reusable_write_buf_cap : ℕ
reusable_write_buf_cap = 65_536

unfoldable pub zeros : ℕ → List ℕ
zeros zero = []
zeros (suc n) = 0 ∷ zeros n

-- `write_buf` is the whole array behind the slice that is kept, `out` what went to the stream.
pub record MsgConn : Type 0 where
  pub write_buf : List ℕ
  pub shutdown : Bool
  pub out : List ℕ

unfoldable pub filled : List ℕ → List ℕ → List ℕ
filled frame payload = copy_at 4 (copy_at 0 frame (put_uint32 (length payload))) payload

-- The kept array, or a new one where it is too short.
unfoldable pub buffer_for : ℕ → MsgConn → List ℕ
unfolding zeros
buffer_for need c =
    if ltb (length c.write_buf) need then zeros reusable_write_buf_cap else c.write_buf

unfoldable pub do_write_frame : List ℕ → MsgConn → MsgConn
unfolding filled
do_write_frame payload c =
    let need = 4 + length payload in
    let buf = buffer_for need c in
    let frame = filled (take need buf) payload in
    if leb need reusable_write_buf_cap
    then record c { write_buf = frame ++ drop need buf; out = c.out ++ frame }
    else record c { out = c.out ++ filled (zeros need) payload }

unfoldable pub close : MsgConn → MsgConn
close c = record c { shutdown = true }

module _ (v : Values) (codec : Codec v) where
  unfoldable pub write_packed : Option (List ℕ) → MsgConn → MsgConn × Option WriteError
  write_packed none c = (c, some pack_failed)
  write_packed (some payload) c = (do_write_frame payload c, none)

  unfoldable pub write_message : v.Value → MsgConn → MsgConn × Option WriteError
  unfolding write_packed
  write_message m c = if c.shutdown then (c, some client_closed) else write_packed (codec.pack m) c

  unfoldable pub write_all : List v.Value → MsgConn → MsgConn
  write_all [] c = c
  write_all (m ∷ ms) c = write_all ms (write_message m c).0

  -- A read loop, as in `handleConnection`: it goes on until a read fails. `none` is no failure within
  -- the rounds.
  abbrev and_then :
      (List ℕ → List v.Value × Option ReadError) → Read v.Value → List v.Value × Option ReadError
  and_then more (failed e) = ([], some e)
  and_then more (got m rest) = let (ms, e) = more rest in (m ∷ ms, e)

  unfoldable pub read_all : ℕ → ℕ → List ℕ → List v.Value × Option ReadError
  read_all max_frame_size zero bs = ([], none)
  read_all max_frame_size (suc n) bs =
      and_then (read_all max_frame_size n) (read_message v codec max_frame_size bs)
