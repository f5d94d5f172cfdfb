-- ===== src/Session/Reconnect.antt =====
-- A client and a server over a link that loses handshakes and their responses: connects and reconnects
-- of one client id, one after the other.
pub mod Accept
pub mod Tokens
pub mod Heal
use value_rpc.Prelude.{ℕ, suc, ◌+◌, ◌<◌, Bool, true, false, List, [], ◌∷◌, Option, none, some}
use value_rpc.Session.Digest.{Digest}
use value_rpc.Session.Server.{Server, Rejection, create_or_update_serving_client}
use value_rpc.Session.Client.{
  ChainState, Token, presents, init_failed, exhausted, panics, handshake_token, acknowledge,
}

-- What becomes of one attempt: the handshake is lost, its response is, or both arrive.
pub data Fate : Type 0 where
  lost unanswered answered : Fate

pub data Verdict : Type 0 where
  unseen accepted refused no_token : Verdict

pub record Pair (L : Type 0) : Type 0 where
  pub client : ChainState L
  pub server : Server

abbrev pub verdict_of : Option Rejection → Verdict
verdict_of none = accepted
verdict_of (some r) = refused

module _ (d : Digest) (seed : Option d.Link) (id : ℕ) (principal : List ℕ) where
  open d use {Link}

  -- The client learns of the outcome if the response arrives.
  unfoldable pub answer : Fate → Option Rejection → ChainState Link → ChainState Link
  answer answered none c = acknowledge d c
  answer _ r c = c

  unfoldable pub deliver : Fate → ℕ → List ℕ → ChainState Link → Server → Pair Link × Verdict
  deliver lost conn text c s = (record { client = c; server = s }, unseen)
  deliver fate conn text c s =
      let (s', r) = create_or_update_serving_client d (λ t. t) id text principal conn s in
      (record { client = answer fate r c; server = s' }, verdict_of r)

  unfoldable pub present : Fate → ℕ → Token → ChainState Link → Server → Pair Link × Verdict
  present fate conn (presents text) c s = deliver fate conn text c s
  present fate conn _ c s = (record { client = c; server = s }, no_token)

  unfoldable pub attempt : Fate → ℕ → Pair Link → Pair Link × Verdict
  attempt fate conn p =
      let (c, token) = handshake_token d seed p.client in present fate conn token c p.server

  unfoldable pub attempts : ℕ → Pair Link → List Fate → List Verdict
  attempts conn p [] = []
  attempts conn p (f ∷ fs) = let (q, v) = attempt f conn p in v ∷ attempts (suc conn) q fs
