-- ===== src/Session/HashChain.antt =====
-- valuerpc/hashchain.go. An index out of range, a panic in Go, is `none`.
pub mod Verify
use value_rpc.Prelude.{
  ℕ, zero, suc, ◌-◌, Bool, true, false, if◌then◌else◌, ◌==◌, List, [], ◌∷◌, Option, none, some,
  length, get_elem?, sub64, add64, sle, is_neg,
}
use mathlib.Core.Option
use value_rpc.Session.Digest.{Digest}

pub record HashChain (L : Type 0) : Type 0 where
  pub links : List L
  pub next : ℕ

abbrev pub default_hash_chain_len : ℕ
default_hash_chain_len = 10000

abbrev pub default_resync_window : ℕ
default_resync_window = 1024

module _ (d : Digest) where
  open d use {Link, sum256, same, encode, decode}

  -- links[i] = sha256.Sum256(links[i-1]), for n steps.
  unfoldable pub build : ℕ → Link → List Link
  build zero seed = seed ∷ []
  build (suc n) seed = seed ∷ build n (sum256 seed)

  -- `seed` is what rand.Read gives, or its error.
  unfoldable pub new_hash_chain : ℕ → Option Link → Option (HashChain Link)
  new_hash_chain n none = none
  new_hash_chain n (some seed) =
      let m = if sle n 0 then default_hash_chain_len else n in
      some (record { links = build m seed; next = sub64 m 1 })

  unfoldable pub anchor : HashChain Link → Option (List ℕ)
  anchor c = Option.map encode (get_elem? c.links (length c.links - 1))

  -- The empty token tells that the chain is used up.
  unfoldable pub next : HashChain Link → HashChain Link × Option (List ℕ)
  next c =
      if is_neg c.next
      then (c, some [])
      else (record c { next = sub64 c.next 1 }, Option.map encode (get_elem? c.links c.next))

  unfoldable pub remaining : HashChain Link → ℕ
  remaining c = add64 c.next 1

  unfoldable pub decode_link : List ℕ → Option Link
  decode_link s = if length s == 64 then decode s else none

  -- The loop of `VerifyHashStep`, with the rounds that are left.
  unfoldable pub hash_forward : ℕ → ℕ → Link → Link → ℕ × Bool
  hash_forward zero step h target = (0, false)
  hash_forward (suc rounds) step h target =
      let sum = sum256 h in
      let rest = hash_forward rounds (suc step) sum target in
      if same sum target then (step, true) else rest

  unfoldable pub verify_links : ℕ → Option Link → Option Link → ℕ × Bool
  verify_links window none target = (0, false)
  verify_links window (some cur) none = (0, false)
  verify_links window (some cur) (some target) =
      hash_forward (if sle window 0 then default_resync_window else window) 1 cur target

  unfoldable pub verify_hash_step : List ℕ → List ℕ → ℕ → ℕ × Bool
  unfolding verify_links
  verify_hash_step presented last_verified window =
      verify_links window (decode_link presented) (decode_link last_verified)

  unfoldable pub same_links : Option Link → Option Link → Bool
  same_links (some a) (some b) = same a b
  same_links _ _ = false

  unfoldable pub same_token : List ℕ → List ℕ → Bool
  unfolding same_links
  same_token a b = same_links (decode_link a) (decode_link b)
