-- ===== src/Session/Server/Authorize.antt =====
-- What a session accepts as proof of its continuity.
use value_rpc.Prelude.{
  ℕ, suc, ◌+◌, ◌≤◌, ◌<◌, ◌≡◌, ◌≢◌, refl, sym, ap, ◌∙◌, ◌⊎◌, inl, inr, List, none, some, Bool-cases,
  not_of_false, arith,
}
use value_rpc.Session.Digest.{Digest}
use value_rpc.Session.HashChain.{decode_link, verify_hash_step, same_token, default_resync_window}
use value_rpc.Session.HashChain.Verify.{
  iterate, iterate-add, Reaches, verify_hash_step_iff, same_token_iff, decode_link-encode,
}
use value_rpc.Session.Server.{Session, token_mismatch, authorize_resume}

module _ (d : Digest) where
  open d use {Link, encode}

  -- The presented text stands for the link that the session accepted last.
  abbrev pub IsRetry : List ℕ → List ℕ → Type 0
  IsRetry presented last =
      (l : Link) × (decode_link d presented ≡ some l) × (decode_link d last ≡ some l)

  -- A link that leads to the last accepted one is accepted and takes its place; otherwise the last
  -- accepted one itself is accepted and nothing changes; anything else is rejected, with no change.
  pub authorize_resume_cases :
      (presented : List ℕ) (t : Session)
      → (Reaches d default_resync_window presented t.resume_token
          × (authorize_resume d presented t ≡ (record t { resume_token = presented }, none)))
        ⊎ ((¬ Reaches d default_resync_window presented t.resume_token)
            × IsRetry presented t.resume_token
            × (authorize_resume d presented t ≡ (t, none)))
        ⊎ ((¬ Reaches d default_resync_window presented t.resume_token)
            × (¬ IsRetry presented t.resume_token)
            × (authorize_resume d presented t ≡ (t, some token_mismatch)))
  unfolding authorize_resume
  authorize_resume_cases presented t =
      let forward = verify_hash_step_iff d presented t.resume_token default_resync_window in
      let retry = same_token_iff d presented t.resume_token in
      elim (Bool-cases (verify_hash_step d presented t.resume_token default_resync_window).1) [
        | inl hit ↦ inl (forward.0 hit, rw hit)
        | inr miss ↦ elim (Bool-cases (same_token d presented t.resume_token)) [
          | inl again ↦ inr (inl (not_of_false _ forward miss, retry.0 again, rw (miss, again)))
          | inr other ↦
              inr (inr (not_of_false _ forward miss, not_of_false _ retry other, rw (miss, other)))
        ]
      ]

  accepts_retry :
      (presented : List ℕ) (t : Session)
      → IsRetry presented t.resume_token
      → (authorize_resume d presented t).1 ≡ none
  accepts_retry presented t r = elim (authorize_resume_cases presented t) [
    | inl (_, e) ↦ rw e
    | inr (inl (_, _, e)) ↦ rw e
    | inr (inr (_, other, e)) ↦ absurd (other r)
  ]

  -- authorizeResume, which looks at the token alone, accepts once more a token that it has just
  -- accepted: that of the retry of a handshake whose response was lost, and of a replay alike.
  pub authorize_resume_again :
      (presented : List ℕ) (t : Session)
      → (authorize_resume d presented t).1 ≡ none
      → (authorize_resume d presented (authorize_resume d presented t).0).1 ≡ none
  authorize_resume_again presented t h = elim (authorize_resume_cases presented t) [
    | inl ((cur, _, _, well_formed, _, _, _), e) ↦ rw e (
        accepts_retry presented (record t { resume_token = presented })
          (cur, well_formed, well_formed))
    | inr (inl (_, r, e)) ↦ rw e (accepts_retry presented t r)
    | inr (inr (_, _, e)) ↦ cc
  ]

  -- No two of the first `n` links after the seed are the same.
  abbrev pub IsRepeatFree : ℕ → Link → Type 0
  IsRepeatFree n seed = (i j : ℕ) → i < j → j ≤ n → iterate d i seed ≢ iterate d j seed

  same_link : (a b : Link) (text : List ℕ) → text ≡ encode a → decode_link d text ≡ some b → a ≡ b
  same_link a b text e f = cc (decode_link-encode d a)

  -- If the links of a chain do not repeat, up to the resync window past its anchor, then a link that was
  -- revealed before the last accepted one is rejected, and the session stays as it is.
  pub spent_link_rejected :
      (seed : Link) (n c j : ℕ) (t : Session)
      → IsRepeatFree (n + default_resync_window) seed
      → t.resume_token ≡ encode (iterate d c seed)
      → c < j
      → j ≤ n
      → authorize_resume d (encode (iterate d j seed)) t ≡ (t, some token_mismatch)
  spent_link_rejected seed n c j t free e lt le =
      elim (authorize_resume_cases (encode (iterate d j seed)) t) [
        | inl ((cur, target, k, f, g, small, at), _) ↦
            let there : iterate d c seed ≡ target =
              same_link (iterate d c seed) target t.resume_token e g in
            let here : iterate d j seed ≡ cur = same_link (iterate d j seed) cur _ refl f in
            let loop : iterate d c seed ≡ iterate d (suc k + j) seed =
              there
              ∙ sym at
              ∙ ap (iterate d (suc k)) (sym here)
              ∙ sym (iterate-add d (suc k) j seed) in
            absurd (free c (suc k + j) (omega arith) (omega arith) loop)
        | inr (inl (_, (l, f, g), _)) ↦ absurd (
            free c j lt (omega arith) (
              same_link (iterate d c seed) l t.resume_token e g
              ∙ sym (same_link (iterate d j seed) l _ refl f)))
        | inr (inr (_, _, r)) ↦ r
      ]
