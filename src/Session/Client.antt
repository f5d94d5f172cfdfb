-- ===== src/Session/Client.antt =====
-- The client's side of resumption, `handshakeToken` of valueclient/client.go, and the mark that the
-- response handler sets when a handshake is acknowledged.
use value_rpc.Prelude.{ℕ, Bool, true, false, List, [], ◌∷◌, Option, none, some}
use value_rpc.Session.Digest.{Digest}
use value_rpc.Session.HashChain.{HashChain, default_hash_chain_len, new_hash_chain, anchor, next}

pub record ChainState (L : Type 0) : Type 0 where
  pub resume_chain : Option (HashChain L)
  pub established : Bool

-- A token to present, the error of a chain that could not be made, that of a used-up chain, or a panic.
pub data Token : Type 0 where
  presents : List ℕ → Token
  init_failed exhausted panics : Token

-- The empty text is the chain's sign that it is used up.
abbrev pub revealed : Option (List ℕ) → Token
revealed none = panics
revealed (some []) = exhausted
revealed (some (x ∷ xs)) = presents (x ∷ xs)

abbrev pub shown : Option (List ℕ) → Token
shown none = panics
shown (some text) = presents text

module _ (d : Digest) where
  open d use {Link}

  unfoldable pub token_of : Bool → HashChain Link → ChainState Link × Token
  token_of false c = (record { resume_chain = some c; established = false }, shown (anchor d c))
  token_of true c =
      let (c', text) = next d c in
      (record { resume_chain = some c'; established = true }, revealed text)

  unfoldable pub first_token : Bool → Option (HashChain Link) → ChainState Link × Token
  first_token established none =
      (record { resume_chain = none; established = established }, init_failed)
  first_token established (some c) = token_of established c

  unfoldable pub chain_token :
      Option Link → Bool → Option (HashChain Link) → ChainState Link × Token
  chain_token seed established none =
      first_token established (new_hash_chain d default_hash_chain_len seed)
  chain_token seed established (some c) = token_of established c

  -- `seed` is what the random source gives if a chain has to be made.
  unfoldable pub handshake_token : Option Link → ChainState Link → ChainState Link × Token
  handshake_token seed c = chain_token seed c.established c.resume_chain

  unfoldable pub acknowledge : ChainState Link → ChainState Link
  acknowledge c = record c { established = true }
