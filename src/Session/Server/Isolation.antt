-- ===== src/Session/Server/Isolation.antt =====
-- Who may take over a session, and what a handshake does to the sessions of others.
use value_rpc.Prelude.{
  ℕ, ◌≡◌, ◌≢◌, refl, sym, subst, ◌⊎◌, inl, inr, true, List, [], ◌∷◌, Option, none, some, Bool-cases,
  arith,
}
use value_rpc.Session.Digest.{Digest}
use value_rpc.Session.HashChain.{default_resync_window}
use value_rpc.Session.HashChain.Verify.{Reaches}
use value_rpc.Session.Server.{
  Session, Server, Rejection, same_text, load, update, authorize_resume, replace_conn, attach,
  resume, store_or_resume, found_or_new, create_or_update_serving_client,
}
use value_rpc.Session.Server.Authorize.{IsRetry, authorize_resume_cases}

same_text_lem : (xs ys : List ℕ) → same_text xs ys ≡ true → xs ≡ ys
same_text_lem [] [] h = refl
same_text_lem [] (y ∷ ys) h = cc
same_text_lem (x ∷ xs) [] h = cc
same_text_lem (x ∷ xs) (y ∷ ys) h = ground (arith, same_text_lem xs ys)

load-update :
    (j k : ℕ) (t : Session) (m : List (ℕ × Session)) → j ≢ k → load j (update k t m) ≡ load j m
unfolding load update
load-update j k t [] h = refl
load-update j k t ((i, s) ∷ m) h = ground (arith, load-update j k t m h)

pub load-update_self :
    (k : ℕ) (s t : Session) (m : List (ℕ × Session))
    → load k m ≡ some s
    → load k (update k t m) ≡ some t
unfolding load update
load-update_self k s t [] h = cc
load-update_self k s t ((i, u) ∷ m) h = ground (arith, load-update_self k s t m)

module _ (d : Digest) where
  attach_other :
      (id other conn : ℕ) (s : Server) (r : Session × Option Rejection)
      → other ≢ id
      → load other (attach d id conn s r).0.client_map ≡ load other s.client_map
  unfolding attach replace_conn
  attach_other id other conn s (t, some r) h = refl
  attach_other id other conn s (t, none) h = load-update other id _ s.client_map h

  resume_other :
      (id other : ℕ) (presented principal : List ℕ) (conn : ℕ) (existing : Session) (s : Server)
      → other ≢ id
      → load other (resume d id presented principal conn existing s).0.client_map
        ≡ load other s.client_map
  unfolding resume
  resume_other id other presented principal conn existing s h =
      ground (arith, attach_other id other conn s (authorize_resume d presented existing) h)

  store_other :
      (id other : ℕ) (presented principal : List ℕ) (conn : ℕ) (o : Option Session) (s : Server)
      → other ≢ id
      → load other (store_or_resume d id presented principal conn o s).0.client_map
        ≡ load other s.client_map
  unfolding store_or_resume load
  store_other id other presented principal conn (some actual) s h =
      resume_other id other presented principal conn actual _ h
  store_other id other presented principal conn none s h = ground arith

  found_other :
      (id other : ℕ) (presented principal : List ℕ) (conn : ℕ) (o : Option Session) (s : Server)
      → other ≢ id
      → load other (found_or_new d (λ s. s) id presented principal conn o s).0.client_map
        ≡ load other s.client_map
  unfolding found_or_new
  found_other id other presented principal conn (some existing) s h =
      resume_other id other presented principal conn existing s h
  found_other id other presented principal conn none s h =
      store_other id other presented principal conn (load id s.client_map) s h

  -- A handshake, accepted or not, leaves the session of every other client id as it was.
  pub handshake_keeps_others :
      (id other : ℕ) (presented principal : List ℕ) (conn : ℕ) (s : Server)
      → other ≢ id
      → load other
          (create_or_update_serving_client d (λ s. s) id presented principal conn s).0.client_map
        ≡ load other s.client_map
  unfolding create_or_update_serving_client
  handshake_keeps_others id other presented principal conn s h =
      found_other id other presented principal conn (load id s.client_map) s h

  -- What a handshake does where the id has a session.
  abbrev pub Resumes :
      ℕ → List ℕ → List ℕ → ℕ → Session → Server → Server × Option Rejection → Type 0
  Resumes id presented principal conn existing s (t, none) =
      (existing.principal ≡ principal)
      × ((Reaches d default_resync_window presented existing.resume_token
            × (load id t.client_map
                ≡ some (record existing { resume_token = presented; active_conn = conn })))
          ⊎ (IsRetry d presented existing.resume_token
              × (load id t.client_map ≡ some (record existing { active_conn = conn }))))
      × (t.closed ≡ existing.active_conn ∷ s.closed)
  Resumes id presented principal conn existing s (t, some r) = t ≡ s

  attach-Resumes :
      (id : ℕ) (presented principal : List ℕ) (conn : ℕ) (existing : Session) (s : Server)
      → load id s.client_map ≡ some existing
      → existing.principal ≡ principal
      → Resumes id presented principal conn existing s
          (attach d id conn s (authorize_resume d presented existing))
  attach-Resumes id presented principal conn existing s e q =
      elim (authorize_resume_cases d presented existing) [
        | inl (r, f) ↦ rw f (
            unfold attach replace_conn in
            (q, inl (r, load-update_self id existing _ s.client_map e), refl))
        | inr (inl (_, r, f)) ↦ rw f (
            unfold attach replace_conn in
            (q, inr (r, load-update_self id existing _ s.client_map e), refl))
        | inr (inr (_, _, f)) ↦ rw f (unfold attach in refl)
      ]

  resume-Resumes :
      (id : ℕ) (presented principal : List ℕ) (conn : ℕ) (existing : Session) (s : Server)
      → load id s.client_map ≡ some existing
      → Resumes id presented principal conn existing s
          (resume d id presented principal conn existing s)
  unfolding resume
  resume-Resumes id presented principal conn existing s e =
      elim (Bool-cases (same_text existing.principal principal)) [
        | inl yes' ↦ rw yes' (
            attach-Resumes id presented principal conn existing s e
              (same_text_lem existing.principal principal yes'))
        | inr no' ↦ rw no' refl
      ]

  -- Where the id has a session, a handshake is accepted only from a peer of the same principal that
  -- presents a link leading to the last accepted one, or that one itself. The session then moves to the
  -- new connection, with the presented link as its last one, and its old connection is closed. A
  -- rejected handshake changes nothing on the server.
  pub handshake-Resumes :
      (meanwhile : Server → Server) (id : ℕ) (presented principal : List ℕ) (conn : ℕ)
      (existing : Session) (s : Server)
      → load id s.client_map ≡ some existing
      → Resumes id presented principal conn existing s
          (create_or_update_serving_client d meanwhile id presented principal conn s)
  unfolding create_or_update_serving_client found_or_new
  handshake-Resumes meanwhile id presented principal conn existing s e =
      rw (e, found_or_new) (resume-Resumes id presented principal conn existing s e)

  taken_over :
      (id : ℕ) (presented principal : List ℕ) (conn : ℕ) (existing : Session) (s : Server)
      (r : Server × Option Rejection)
      → Resumes id presented principal conn existing s r
      → r.1 ≡ none
      → (u : Session) × (load id r.0.client_map ≡ some u)
        × (u.active_conn ≡ conn)
        × (r.0.closed ≡ existing.active_conn ∷ s.closed)
  taken_over id presented principal conn existing s (t, none) (_, inl (_, e), c) h =
      (record existing { resume_token = presented; active_conn = conn }, e, refl, c)
  taken_over id presented principal conn existing s (t, none) (_, inr (_, e), c) h =
      (record existing { active_conn = conn }, e, refl, c)
  taken_over id presented principal conn existing s (t, some r) f h = cc

  race_loser_resumes :
      (meanwhile : Server → Server) (id : ℕ) (presented principal : List ℕ) (conn : ℕ)
      (winner : Session) (s : Server)
      → load id s.client_map ≡ none
      → load id (meanwhile s).client_map ≡ some winner
      → create_or_update_serving_client d meanwhile id presented principal conn s
        ≡ resume d id presented principal conn winner
            (record (meanwhile s) { closed = conn ∷ (meanwhile s).closed })
  unfolding create_or_update_serving_client found_or_new store_or_resume
  race_loser_resumes meanwhile id presented principal conn winner s e f =
      rw (e, found_or_new) (rw (f, store_or_resume) refl)

  -- A connection that loses the race for a new id is closed before its token is checked: if the
  -- handshake is accepted, the session's connection is one that the server has closed.
  pub race_loser_closed :
      (meanwhile : Server → Server) (id : ℕ) (presented principal : List ℕ) (conn : ℕ)
      (winner : Session) (s : Server)
      → load id s.client_map ≡ none
      → load id (meanwhile s).client_map ≡ some winner
      → let (t, r) = create_or_update_serving_client d meanwhile id presented principal conn s in
        r ≡ none
        → (u : Session) × (load id t.client_map ≡ some u)
          × (u.active_conn ≡ conn)
          × (t.closed ≡ winner.active_conn ∷ conn ∷ (meanwhile s).closed)
  race_loser_closed meanwhile id presented principal conn winner s e f h =
      let t = record (meanwhile s) { closed = conn ∷ (meanwhile s).closed } in
      let step = race_loser_resumes meanwhile id presented principal conn winner s e f in
      subst
        (λ (r : Server × Option Rejection).
          r.1 ≡ none
          → (u : Session) × (load id r.0.client_map ≡ some u)
            × (u.active_conn ≡ conn)
            × (r.0.closed ≡ winner.active_conn ∷ conn ∷ (meanwhile s).closed))
        (sym step)
        (taken_over id presented principal conn winner t _
          (resume-Resumes id presented principal conn winner t f))
        h
