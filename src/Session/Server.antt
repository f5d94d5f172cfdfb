-- ===== src/Session/Server.antt =====
-- The sessions of valueserver/server.go and their check in valueserver/serving_client.go. A connection
-- is a number, and `closed` lists those that the server has closed.
pub mod Authorize
pub mod Isolation
use value_rpc.Prelude.{ℕ, Bool, true, false, if◌then◌else◌, ◌==◌, List, [], ◌∷◌, Option, none, some}
use value_rpc.Session.Digest.{Digest}
use value_rpc.Session.HashChain.{verify_hash_step, same_token, default_resync_window}

-- The part of `servingClient` that concerns resumption. A principal is a text; the empty one is that of
-- a server without an authenticator.
pub record Session : Type 0 where
  pub client_id : ℕ
  pub resume_token : List ℕ
  pub principal : List ℕ
  pub active_conn : ℕ

pub data Rejection : Type 0 where
  principal_mismatch token_mismatch : Rejection

pub record Server : Type 0 where
  pub client_map : List (ℕ × Session)
  pub closed : List ℕ

-- Go's == on texts.
abbrev pub same_text : List ℕ → List ℕ → Bool
same_text [] [] = true
same_text [] (y ∷ ys) = false
same_text (x ∷ xs) [] = false
same_text (x ∷ xs) (y ∷ ys) = let rest = same_text xs ys in if x == y then rest else false

unfoldable pub load : ℕ → List (ℕ × Session) → Option Session
load id [] = none
load id ((k, s) ∷ m) = if k == id then some s else load id m

-- The session is an object that the map points to: an update is seen through the map.
unfoldable pub update : ℕ → Session → List (ℕ × Session) → List (ℕ × Session)
update id s [] = []
update id s ((k, t) ∷ m) = if k == id then (k, s) ∷ m else (k, t) ∷ update id s m

module _ (d : Digest) where
  unfoldable pub authorize_resume : List ℕ → Session → Session × Option Rejection
  authorize_resume presented t =
      if (verify_hash_step d presented t.resume_token default_resync_window).1
      then (record t { resume_token = presented }, none)
      else if same_token d presented t.resume_token
      then (t, none)
      else (t, some token_mismatch)

  -- `replaceConn`: the old connection is closed, and the sender goes on with the new one.
  unfoldable pub replace_conn : ℕ → ℕ → Session → Server → Server
  replace_conn id conn t s = record {
    client_map = update id (record t { active_conn = conn }) s.client_map;
    closed = t.active_conn ∷ s.closed;
  }

  unfoldable pub attach : ℕ → ℕ → Server → Session × Option Rejection → Server × Option Rejection
  attach id conn s (t, some r) = (s, some r)
  attach id conn s (t, none) = (replace_conn id conn t s, none)

  -- The closure `resume`.
  unfoldable pub resume : ℕ → List ℕ → List ℕ → ℕ → Session → Server → Server × Option Rejection
  resume id presented principal conn existing s =
      if same_text existing.principal principal
      then attach id conn s (authorize_resume presented existing)
      else (s, some principal_mismatch)

  -- LoadOrStore of a new session. Where another connection has stored one for the id meanwhile, the
  -- new session is closed first, and with it its connection.
  unfoldable pub store_or_resume :
      ℕ → List ℕ → List ℕ → ℕ → Option Session → Server → Server × Option Rejection
  store_or_resume id presented principal conn (some actual) s =
      resume id presented principal conn actual (record s { closed = conn ∷ s.closed })
  store_or_resume id presented principal conn none s = (
    record s {
      client_map =
          (
            id,
            record {
              client_id = id;
              resume_token = presented;
              principal = principal;
              active_conn = conn;
            },
          )
          ∷ s.client_map;
    },
    none,
  )

  unfoldable pub found_or_new :
      (Server → Server)
      → ℕ
      → List ℕ
      → List ℕ
      → ℕ
      → Option Session
      → Server
      → Server × Option Rejection
  found_or_new meanwhile id presented principal conn (some existing) s =
      resume id presented principal conn existing s
  found_or_new meanwhile id presented principal conn none s =
      let s' = meanwhile s in store_or_resume id presented principal conn (load id s'.client_map) s'

  -- `meanwhile` is what other connections do between the Load and the LoadOrStore.
  unfoldable pub create_or_update_serving_client :
      (Server → Server) → ℕ → List ℕ → List ℕ → ℕ → Server → Server × Option Rejection
  create_or_update_serving_client meanwhile id presented principal conn s =
      found_or_new meanwhile id presented principal conn (load id s.client_map) s
