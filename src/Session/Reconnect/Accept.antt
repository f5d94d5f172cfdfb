-- ===== src/Session/Reconnect/Accept.antt =====
-- The server accepts what a client of an unbroken chain presents.
use value_rpc.Prelude.{
  ℕ, suc, ◌+◌, ◌<◌, ◌≡◌, refl, sym, ap, subst, ◌∙◌, inl, inr, true, List, [], ◌∷◌, Option, none,
  some, arith,
}
use value_rpc.Session.Digest.{Digest}
use value_rpc.Session.HashChain.{decode_link, default_resync_window}
use value_rpc.Session.HashChain.Verify.{iterate, iterate-add, Reaches, decode_link-encode}
use value_rpc.Session.Server.{
  Session, Server, Rejection, same_text, load, authorize_resume, replace_conn, attach, resume,
  store_or_resume, found_or_new, create_or_update_serving_client,
}
use value_rpc.Session.Server.Authorize.{authorize_resume_cases}
use value_rpc.Session.Server.Isolation.{load-update_self}

same_text_refl : (xs : List ℕ) → same_text xs xs ≡ true
same_text_refl [] = refl
same_text_refl (x ∷ xs) = ground (arith, same_text_refl xs)

load_head : (k : ℕ) (t : Session) (m : List (ℕ × Session)) → load k ((k, t) ∷ m) ≡ some t
unfolding load
load_head k t m = ground arith

module _ (d : Digest) where
  open d use {Link, encode}

  -- The session with its last accepted link, as the server holds it for an id.
  pub record Holds (id : ℕ) (principal token : List ℕ) (s : Server) : Type 0 where
    pub session : Session
    pub found : load id s.client_map ≡ some session
    pub owner : session.principal ≡ principal
    pub at_token : session.resume_token ≡ token

  attach-Holds :
      (id conn : ℕ) (principal token : List ℕ) (t u : Session) (s : Server)
      → load id s.client_map ≡ some t
      → u.principal ≡ principal
      → u.resume_token ≡ token
      → Holds id principal token (attach d id conn s (u, none)).0
  unfolding attach replace_conn
  attach-Holds id conn principal token t u s e o k = record {
    session = record u { active_conn = conn };
    found = load-update_self id t (record u { active_conn = conn }) s.client_map e;
    owner = o;
    at_token = k;
  }

  same_text_of : (xs ys : List ℕ) → xs ≡ ys → same_text xs ys ≡ true
  same_text_of xs ys e = subst (λ zs. same_text xs zs ≡ true) e (same_text_refl xs)

  accept-attach :
      (id conn : ℕ) (principal presented : List ℕ) (t u : Session) (s : Server)
      → load id s.client_map ≡ some t
      → t.principal ≡ principal
      → authorize_resume d presented t ≡ (u, none)
      → create_or_update_serving_client d (λ q. q) id presented principal conn s
        ≡ attach d id conn s (u, none)
  unfolding create_or_update_serving_client found_or_new resume
  accept-attach id conn principal presented t u s e o a =
      rw (e, found_or_new) (rw (same_text_of t.principal principal o) (rw a refl))

  abbrev pub Accepts : ℕ → List ℕ → List ℕ → Server × Option Rejection → Type 0
  Accepts id principal token (s, r) = (r ≡ none) × Holds id principal token s

  accept-Holds :
      (id conn : ℕ) (principal presented token : List ℕ) (t u : Session) (s : Server)
      → load id s.client_map ≡ some t
      → t.principal ≡ principal
      → authorize_resume d presented t ≡ (u, none)
      → u.principal ≡ principal
      → u.resume_token ≡ token
      → Accepts id principal token
          (create_or_update_serving_client d (λ q. q) id presented principal conn s)
  accept-Holds id conn principal presented token t u s e o a w k =
      subst (Accepts id principal token)
        (sym (accept-attach id conn principal presented t u s e o a))
        ((unfold attach in refl), attach-Holds id conn principal token t u s e w k)

  authorize_forward :
      (presented : List ℕ) (t : Session)
      → Reaches d default_resync_window presented t.resume_token
      → authorize_resume d presented t ≡ (record t { resume_token = presented }, none)
  authorize_forward presented t r = elim (authorize_resume_cases d presented t) [
    | inl (_, e) ↦ e
    | inr (inl (f, _, _)) ↦ absurd (f r)
    | inr (inr (f, _, _)) ↦ absurd (f r)
  ]

  -- A link that is one to `default_resync_window` links before the last accepted one is accepted.
  pub forward-Holds :
      (id conn : ℕ) (principal : List ℕ) (seed : Link) (i k : ℕ) (s : Server)
      → k < default_resync_window
      → Holds id principal (encode (iterate d (suc k + i) seed)) s
      → Accepts id principal (encode (iterate d i seed)) (
          create_or_update_serving_client d
            (λ q. q)
            id
            (encode (iterate d i seed))
            principal
            conn
            s)
  forward-Holds id conn principal seed i k s lt h =
      let presented = encode (iterate d i seed) in
      let reaches : Reaches d default_resync_window presented h.session.resume_token = (
        iterate d i seed,
        iterate d (suc k + i) seed,
        k,
        decode_link-encode d (iterate d i seed),
        ap (decode_link d) h.at_token ∙ decode_link-encode d (iterate d (suc k + i) seed),
        lt,
        sym (iterate-add d (suc k) i seed),
      ) in
      accept-Holds id conn principal presented presented h.session _ s h.found h.owner
        (authorize_forward presented h.session reaches) h.owner refl

  -- So is the last accepted one itself.
  pub again-Holds :
      (id conn : ℕ) (principal : List ℕ) (a : Link) (s : Server)
      → Holds id principal (encode a) s
      → Accepts id principal
          (encode a)
          (create_or_update_serving_client d (λ q. q) id (encode a) principal conn s)
  again-Holds id conn principal a s h = elim (authorize_resume_cases d (encode a) h.session) [
    | inl (_, e) ↦
        accept-Holds id conn principal (encode a) (encode a) h.session _ s h.found h.owner e h.owner
          refl
    | inr (inl (_, _, e)) ↦
        accept-Holds id conn principal (encode a) (encode a) h.session _ s h.found h.owner e h.owner
          h.at_token
    | inr (inr (_, other, _)) ↦
        absurd (
          other (a, decode_link-encode d a, ap (decode_link d) h.at_token ∙ decode_link-encode d a))
  ]

  -- And so is a first token, where the server has no session for the id.
  pub first-Holds :
      (id conn : ℕ) (principal presented : List ℕ) (s : Server)
      → load id s.client_map ≡ none
      → Accepts id principal presented
          (create_or_update_serving_client d (λ q. q) id presented principal conn s)
  unfolding create_or_update_serving_client found_or_new store_or_resume
  first-Holds id conn principal presented s e =
      rw (e, found_or_new)
        (rw (e, store_or_resume)
          (
            refl,
            record {
              session = record {
                client_id = id;
                resume_token = presented;
                principal = principal;
                active_conn = conn;
              };
              found = load_head id _ s.client_map;
              owner = refl;
              at_token = refl;
            },
          ))
