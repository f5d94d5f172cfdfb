-- ===== src/Session/Digest.antt =====
-- What the chain uses of crypto/sha256, crypto/subtle and encoding/hex: a link is an array of 32 bytes,
-- and a token is the text that goes over the wire, as the list of its bytes.
use value_rpc.Prelude.{ℕ, ◌≡◌, ◌↔◌, Bool, true, List, Option, some, length}

pub record Digest : Type 1 where
  pub Link : Type 0
  -- sha256.Sum256
  pub sum256 : Link → Link
  -- subtle.ConstantTimeCompare(a, b) == 1
  pub same : Link → Link → Bool
  pub same_iff : (a b : Link) → (same a b ≡ true) ↔ (a ≡ b)
  -- hex.EncodeToString
  pub encode : Link → List ℕ
  -- hex.Decode of a text of 64 bytes; `none` is its error.
  pub decode : List ℕ → Option Link
  pub length_encode : (a : Link) → length (encode a) ≡ 64
  pub decode_encode : (a : Link) → decode (encode a) ≡ some a
