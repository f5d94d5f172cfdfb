-- ===== src/Acceptor/Shutdown.antt =====
-- No connection outlives the shutdown.
use value_rpc.Prelude.{ℕ, ◌<◌, ◌≡◌, refl, ◌⊎◌, true, List, [], ◌∷◌, ◌++◌, arith}
use value_rpc.Serving.{has, delete_key}
use value_rpc.Acceptor.{
  Acceptor, Event, accept_fails, accepts, deletes, discounts, finishes, shuts_down, sweeps,
  accept_failed, accepted, shut, sweep, delete_conn, discount, finish, step, run,
}

-- A connection that is registered, closed by the server, or left by its own goroutine.
abbrev pub IsAccounted : ℕ → Acceptor → Type 0
IsAccounted c a = (has c a.closed ≡ true) ⊎ (has c a.gone ≡ true) ⊎ (has c a.conn_map ≡ true)

-- Close sweeps after its signal. No accepted connection is lost from sight, and once Close has swept,
-- each one is closed by the server or left by its own goroutine.
pub record IsSwept (a : Acceptor) : Type 0 where
  pub after : a.swept ≡ true → a.shut_down ≡ true
  pub known : (c : ℕ) → c < a.next_conn → IsAccounted c a
  pub all_closed :
      (c : ℕ) → a.swept ≡ true → c < a.next_conn → (has c a.closed ≡ true) ⊎ (has c a.gone ≡ true)

has-delete_key :
    (c x : ℕ) (cs : List ℕ)
    → has c cs ≡ true
    → (has c (x ∷ []) ≡ true) ⊎ (has c (delete_key x cs) ≡ true)
unfolding has delete_key
has-delete_key c x [] h = ground arith
has-delete_key c x (y ∷ cs) h = ground (arith, has-delete_key c x cs)

has-append :
    (c : ℕ) (cs ds : List ℕ) → (has c cs ≡ true) ⊎ (has c ds ≡ true) → has c (cs ++ ds) ≡ true
unfolding has
has-append c [] ds h = ground arith
has-append c (x ∷ cs) ds h = ground (arith, has-append c cs ds)

module _ (a : Acceptor) (inv : IsSwept a) where
  accept_failed-IsSwept : IsSwept (accept_failed a)
  unfolding accept_failed
  accept_failed-IsSwept = record {
    after = λ p. ground (arith, inv.after);
    known = λ c h. ground (arith, inv.known c);
    all_closed = λ c p h. ground (arith, inv.all_closed c);
  }

  accepted-IsSwept : (max_connections : ℕ) → IsSwept (accepted max_connections a)
  unfolding accepted has
  accepted-IsSwept max_connections = record {
    after = λ p. ground (arith, inv.after);
    known = λ c h. ground (arith, inv.known c);
    all_closed = λ c p h. ground (arith, inv.after, inv.all_closed c);
  }

  delete_conn-IsSwept : (x : ℕ) → IsSwept (delete_conn x a)
  unfolding delete_conn has
  delete_conn-IsSwept x = record {
    after = λ p. ground (arith, inv.after);
    known = λ c h. ground (arith, inv.known c, has-delete_key c x a.conn_map);
    all_closed = λ c p h. ground (arith, inv.all_closed c);
  }

  discount-IsSwept : IsSwept (discount a)
  unfolding discount
  discount-IsSwept = record {
    after = λ p. ground (arith, inv.after);
    known = λ c h. ground (arith, inv.known c);
    all_closed = λ c p h. ground (arith, inv.all_closed c);
  }

  finish-IsSwept : IsSwept (finish a)
  unfolding finish
  finish-IsSwept = record {
    after = λ p. ground (arith, inv.after);
    known = λ c h. ground (arith, inv.known c);
    all_closed = λ c p h. ground (arith, inv.all_closed c);
  }

  sweep-IsSwept : IsSwept (sweep a)
  unfolding sweep
  sweep-IsSwept = record {
    after = λ p. ground (arith, inv.after);
    known = λ c h. ground (arith, inv.known c, has-append c a.conn_map a.closed);
    all_closed =
        λ c p h. ground (arith, inv.known c, inv.all_closed c, has-append c a.conn_map a.closed);
  }

  step-IsSwept : (max_connections : ℕ) (e : Event) → IsSwept (step max_connections e a)
  unfolding step
  step-IsSwept max_connections accept_fails = ground (arith, inv, accept_failed-IsSwept)
  step-IsSwept max_connections accepts = ground (arith, inv, accepted-IsSwept max_connections)
  step-IsSwept max_connections (deletes c) = delete_conn-IsSwept c
  step-IsSwept max_connections discounts = discount-IsSwept
  step-IsSwept max_connections finishes = finish-IsSwept
  step-IsSwept max_connections shuts_down =
      unfold shut in record { after = λ p. refl; known = inv.known; all_closed = inv.all_closed }
  step-IsSwept max_connections sweeps = sweep-IsSwept

-- However the accepts, the ends of connections and Close interleave, this stays true if it was: Close goes
-- through the registered connections only after its signal; each connection that was accepted is
-- registered, closed by the server, or left by its own goroutine; and once Close has swept, each one is
-- closed or left by its goroutine, those included that are accepted while the server shuts down.
pub run-IsSwept :
    (max_connections : ℕ) (es : List Event) (a : Acceptor)
    → IsSwept a
    → IsSwept (run max_connections es a)
unfolding run
run-IsSwept max_connections [] a inv = inv
run-IsSwept max_connections (e ∷ es) a inv =
    run-IsSwept max_connections es _ (step-IsSwept a inv max_connections e)
