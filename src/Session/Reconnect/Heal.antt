-- ===== src/Session/Reconnect/Heal.antt =====
-- A client keeps its session across lost handshakes.
use value_rpc.Prelude.{
  ℕ, zero, suc, ◌+◌, ◌≤◌, ◌<◌, ◌≡◌, ◌≢◌, refl, ap, ap₂, subst, ◌⊎◌, inl, inr, false, List, [], ◌∷◌,
  none, some, length, two63, arith,
}
use mathlib.Core.List.{map}
use value_rpc.Session.Digest.{Digest}
use value_rpc.Session.HashChain.{default_hash_chain_len, default_resync_window}
use value_rpc.Session.HashChain.Verify.{iterate}
use value_rpc.Session.Server.{Server, load, create_or_update_serving_client}
use value_rpc.Session.Client.{ChainState, presents, acknowledge}
use value_rpc.Session.Reconnect.{
  Fate, lost, unanswered, answered, Verdict, unseen, accepted, Pair, verdict_of, answer, deliver,
  present, attempt, attempts,
}
use value_rpc.Session.Reconnect.Accept.{Holds, Accepts, forward-Holds, again-Holds, first-Holds}
use value_rpc.Session.Reconnect.Tokens.{fresh, begun, going, start_token, going_token}

-- Fewer than the resync window's handshakes are lost in a row before one that arrives; `gap` of them
-- are lost already.
abbrev pub IsCalm : ℕ → List Fate → Type 0
IsCalm gap [] = Unit {0}
IsCalm gap (lost ∷ fs) = IsCalm (suc gap) fs
IsCalm gap (unanswered ∷ fs) = (gap < default_resync_window) × IsCalm 0 fs
IsCalm gap (answered ∷ fs) = (gap < default_resync_window) × IsCalm 0 fs

abbrev pub expected : Fate → Verdict
expected lost = unseen
expected unanswered = accepted
expected answered = accepted

module _ (d : Digest) (seed : d.Link) (n : ℕ) (id : ℕ) (principal : List ℕ) where
  open d use {Link, encode}

  -- Before the first acknowledgement the server has no session, or has accepted the anchor.
  abbrev Starting : Pair Link → Type 0
  Starting p =
      ((p.client ≡ fresh d seed n) ⊎ (p.client ≡ begun d seed n))
      × ((load id p.server.client_map ≡ none)
          ⊎ Holds d id principal (encode (iterate d n seed)) p.server)

  -- Then `left` tokens are left, and the server has accepted the link `gap` before the next to last.
  abbrev Going : ℕ → ℕ → Pair Link → Type 0
  Going gap left p =
      (p.client ≡ going d seed n left)
      × Holds d id principal (encode (iterate d (left + gap) seed)) p.server

  abbrev Stage : ℕ → ℕ → Pair Link → Type 0
  Stage gap left p = (Starting p × (left ≡ n)) ⊎ Going gap left p

  abbrev try : Fate → ℕ → Pair Link → Pair Link × Verdict
  try = attempt d (some seed) id principal

  -- What the server makes of the token, and where that leaves the two.
  delivered :
      (f : Fate) (conn : ℕ) (text : List ℕ) (c : ChainState Link) (s : Server)
      → f ≢ lost
      → Accepts d id principal text
          (create_or_update_serving_client d (λ q. q) id text principal conn s)
      → let (q, v) = deliver d (some seed) id principal f conn text c s in
        (v ≡ accepted)
        × Holds d id principal text q.server
        × (q.client ≡ answer d (some seed) id principal f none c)
  unfolding deliver
  delivered lost conn text c s h a = absurd (h refl)
  delivered unanswered conn text c s h a =
      (ap verdict_of a.0, a.1, ap (λ r. answer d (some seed) id principal unanswered r c) a.0)
  delivered answered conn text c s h a =
      (ap verdict_of a.0, a.1, ap (λ r. answer d (some seed) id principal answered r c) a.0)

  at_index :
      (i j : ℕ) (s : Server)
      → i ≡ j
      → Holds d id principal (encode (iterate d i seed)) s
      → Holds d id principal (encode (iterate d j seed)) s
  at_index i j s e h = subst (λ k. Holds d id principal (encode (iterate d k seed)) s) e h

  -- One attempt of a client that is not acknowledged yet.
  abbrev Started : Fate → Pair Link × Verdict → Type 0
  Started lost (q, v) = (v ≡ unseen) × Starting q
  Started unanswered (q, v) = (v ≡ accepted) × Starting q
  Started answered (q, v) = (v ≡ accepted) × Going 0 n q

  anchor_accepted :
      (conn : ℕ) (s : Server)
      → (load id s.client_map ≡ none) ⊎ Holds d id principal (encode (iterate d n seed)) s
      → let text = encode (iterate d n seed) in
        Accepts d id principal text
          (create_or_update_serving_client d (λ q. q) id text principal conn s)
  anchor_accepted conn s (inl e) = first-Holds d id conn principal _ s e
  anchor_accepted conn s (inr h) = again-Holds d id conn principal (iterate d n seed) s h

  start_present :
      (f : Fate) (conn : ℕ) (p : Pair Link)
      → Starting p
      → Started f (
          present d
            (some seed)
            id
            principal
            f
            conn
            (presents (encode (iterate d n seed)))
            (begun d seed n)
            p.server)
  unfolding present answer acknowledge
  start_present lost conn p h = unfold deliver in (refl, (inr refl, h.1))
  start_present unanswered conn p h =
      let (e, held, c) =
        delivered unanswered conn _ (begun d seed n) p.server (λ q. cc)
          (anchor_accepted conn p.server h.1) in
      (e, (inr c, inr held))
  start_present answered conn p h =
      let (e, held, c) =
        delivered answered conn _ (begun d seed n) p.server (λ q. cc)
          (anchor_accepted conn p.server h.1) in
      (e, (c, at_index n (n + 0) _ (omega arith) held))

  start_step :
      (f : Fate) (conn : ℕ) (p : Pair Link)
      → n ≡ default_hash_chain_len
      → Starting p
      → Started f (try f conn p)
  unfolding attempt
  start_step f conn p e h = rw (start_token d seed n p.client e h.0) (start_present f conn p h)

  abbrev Went : ℕ → ℕ → Fate → Pair Link × Verdict → Type 0
  Went gap left lost (q, v) = (v ≡ unseen) × Going (suc gap) left q
  Went gap left unanswered (q, v) = gap < default_resync_window → (v ≡ accepted) × Going 0 left q
  Went gap left answered (q, v) = gap < default_resync_window → (v ≡ accepted) × Going 0 left q

  link_accepted :
      (gap left conn : ℕ) (s : Server)
      → gap < default_resync_window
      → Holds d id principal (encode (iterate d (suc left + gap) seed)) s
      → let text = encode (iterate d left seed) in
        Accepts d id principal text
          (create_or_update_serving_client d (λ q. q) id text principal conn s)
  link_accepted gap left conn s small h =
      forward-Holds d id conn principal seed left gap s small
        (at_index (suc left + gap) (suc gap + left) s (omega arith) h)

  present-Going :
      (gap left : ℕ) (f : Fate) (conn : ℕ) (p : Pair Link)
      → Going gap (suc left) p
      → Went gap left f (
          present d
            (some seed)
            id
            principal
            f
            conn
            (presents (encode (iterate d left seed)))
            (going d seed n left)
            p.server)
  unfolding present answer acknowledge
  present-Going gap left lost conn p h =
      unfold deliver in
      (refl, (refl, at_index (suc left + gap) (left + suc gap) _ (omega arith) h.1))
  present-Going gap left unanswered conn p h = λ small.
      let (e, held, c) =
        delivered unanswered conn _ (going d seed n left) p.server (λ q. cc)
          (link_accepted gap left conn p.server small h.1) in
      (e, (c, at_index left (left + 0) _ (omega arith) held))
  present-Going gap left answered conn p h = λ small.
      let (e, held, c) =
        delivered answered conn _ (going d seed n left) p.server (λ q. cc)
          (link_accepted gap left conn p.server small h.1) in
      (e, (c, at_index left (left + 0) _ (omega arith) held))

  attempt-Going :
      (gap left : ℕ) (f : Fate) (conn : ℕ) (p : Pair Link)
      → suc left ≤ n
      → n < two63
      → Going gap (suc left) p
      → Went gap left f (try f conn p)
  unfolding attempt
  attempt-Going gap left f conn p le small h =
      rw (going_token d seed n p.client left le small h.0) (present-Going gap left f conn p h)

  attempts-Going :
      (gap left : ℕ) (fs : List Fate) (conn : ℕ) (p : Pair Link)
      → left ≤ n
      → n < two63
      → length fs ≤ left
      → IsCalm gap fs
      → Going gap left p
      → attempts d (some seed) id principal conn p fs ≡ map expected fs
  unfolding attempts
  attempts-Going gap left [] conn p le small room calm h = refl
  attempts-Going gap zero (f ∷ fs) conn p le small room calm h = absurd (omega arith)
  attempts-Going gap (suc left) (lost ∷ fs) conn p le small room calm h =
      let step = attempt-Going gap left lost conn p le small h in
      ap₂ ◌∷◌ step.0 (
        attempts-Going (suc gap) left fs (suc conn) _ (omega arith) small (omega arith) calm step.1)
  attempts-Going gap (suc left) (unanswered ∷ fs) conn p le small room calm h =
      let step = attempt-Going gap left unanswered conn p le small h calm.0 in
      ap₂ ◌∷◌ step.0
        (attempts-Going 0 left fs (suc conn) _ (omega arith) small (omega arith) calm.1 step.1)
  attempts-Going gap (suc left) (answered ∷ fs) conn p le small room calm h =
      let step = attempt-Going gap left answered conn p le small h calm.0 in
      ap₂ ◌∷◌ step.0
        (attempts-Going 0 left fs (suc conn) _ (omega arith) small (omega arith) calm.1 step.1)

  start_attempts :
      (gap : ℕ) (fs : List Fate) (conn : ℕ) (p : Pair Link)
      → n ≡ default_hash_chain_len
      → length fs ≤ n
      → IsCalm gap fs
      → Starting p
      → attempts d (some seed) id principal conn p fs ≡ map expected fs
  unfolding attempts
  start_attempts gap [] conn p e room calm h = refl
  start_attempts gap (lost ∷ fs) conn p e room calm h =
      let step = start_step lost conn p e h in
      ap₂ ◌∷◌ step.0 (start_attempts (suc gap) fs (suc conn) _ e (omega arith) calm step.1)
  start_attempts gap (unanswered ∷ fs) conn p e room calm h =
      let step = start_step unanswered conn p e h in
      ap₂ ◌∷◌ step.0 (start_attempts 0 fs (suc conn) _ e (omega arith) calm.1 step.1)
  start_attempts gap (answered ∷ fs) conn p e room calm h =
      let step = start_step answered conn p e h in
      ap₂ ◌∷◌ step.0
        (attempts-Going 0 n fs (suc conn) _ (omega arith) (omega arith) (omega arith) calm.1 step.1)

-- A new client whose id the server does not know, at most as many attempts as the chain has links, and
-- never as many handshakes lost in a row as the resync window: then every handshake that arrives is
-- accepted, whether or not the responses arrive, and the client always has a token to present.
pub reconnects_heal :
    (d : Digest) (seed : d.Link) (id conn : ℕ) (principal : List ℕ) (s : Server) (fs : List Fate)
    → load id s.client_map ≡ none
    → length fs ≤ default_hash_chain_len
    → IsCalm 0 fs
    → attempts d
        (some seed)
        id
        principal
        conn
        (record { client = record { resume_chain = none; established = false }; server = s })
        fs
      ≡ map expected fs
reconnects_heal d seed id conn principal s fs e room calm =
    start_attempts d seed default_hash_chain_len id principal 0 fs conn _ refl room calm
      (inl refl, inl e)
