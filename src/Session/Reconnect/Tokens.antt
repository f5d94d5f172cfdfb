-- ===== src/Session/Reconnect/Tokens.antt =====
-- The tokens that a client presents.
use value_rpc.Prelude.{
  ℕ, suc, ◌-◌, ◌≤◌, ◌<◌, ◌≡◌, refl, subst, ◌⊎◌, inl, inr, true, false, List, [], ◌∷◌, none, some,
  length, sub64, is_neg, two63, arith,
}
use value_rpc.Session.Digest.{Digest}
use value_rpc.Session.HashChain.{
  HashChain, default_hash_chain_len, build, new_hash_chain, anchor, next,
}
use value_rpc.Session.HashChain.Verify.{iterate, get_elem?-build, length-build}
use value_rpc.Session.Client.{
  ChainState, presents, revealed, token_of, first_token, chain_token, handshake_token,
}

revealed_text : (text : List ℕ) → length text ≡ 64 → revealed (some text) ≡ presents text
revealed_text [] h = absurd (omega arith)
revealed_text (x ∷ xs) h = refl

module _ (d : Digest) (seed : d.Link) (n : ℕ) where
  open d use {Link, encode, length_encode}

  -- The chain of `n` links, with `left` tokens to reveal.
  abbrev pub chain : ℕ → HashChain Link
  chain left = record { links = build d n seed; next = sub64 left 1 }

  anchor_lem : anchor d (chain n) ≡ some (encode (iterate d n seed))
  unfolding anchor
  anchor_lem =
      let e : suc n - 1 ≡ n = omega arith in
      rw (length-build d n seed, e, get_elem?-build d n n seed (omega arith)) refl

  next_lem :
      (left : ℕ)
      → suc left ≤ n
      → n < two63
      → next d (chain (suc left)) ≡ (chain left, some (encode (iterate d left seed)))
  unfolding next
  next_lem left h small =
      let e : sub64 (suc left) 1 ≡ left = omega arith in
      let f : is_neg left ≡ false = ground arith in
      rw (e, f, get_elem?-build d n left seed (omega arith)) refl

  made_of : 0 < n → n < two63 → new_hash_chain d n (some seed) ≡ some (chain n)
  unfolding new_hash_chain
  made_of p h = ground arith

  made :
      n ≡ default_hash_chain_len
      → new_hash_chain d default_hash_chain_len (some seed) ≡ some (chain n)
  made e =
      subst (λ k. new_hash_chain d k (some seed) ≡ some (chain n)) e
        (made_of (omega arith) (omega arith))

  abbrev pub fresh : ChainState Link
  fresh = record { resume_chain = none; established = false }

  abbrev pub begun : ChainState Link
  begun = record { resume_chain = some (chain n); established = false }

  abbrev pub going : ℕ → ChainState Link
  going left = record { resume_chain = some (chain left); established = true }

  pub start_token :
      (c : ChainState Link)
      → n ≡ default_hash_chain_len
      → (c ≡ fresh) ⊎ (c ≡ begun)
      → handshake_token d (some seed) c ≡ (begun, presents (encode (iterate d n seed)))
  unfolding handshake_token chain_token first_token token_of
  start_token c e (inl f) = rw (f, handshake_token) (rw (made e, anchor_lem) refl)
  start_token c e (inr f) = rw (f, handshake_token) (rw anchor_lem refl)

  pub going_token :
      (c : ChainState Link) (left : ℕ)
      → suc left ≤ n
      → n < two63
      → c ≡ going (suc left)
      → handshake_token d (some seed) c ≡ (going left, presents (encode (iterate d left seed)))
  unfolding handshake_token chain_token token_of
  going_token c left h small f =
      rw (f, handshake_token)
        (rw (next_lem left h small)
          (rw (revealed_text (encode (iterate d left seed)) (length_encode _)) refl))
