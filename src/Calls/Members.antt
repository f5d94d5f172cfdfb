-- ===== src/Calls/Members.antt =====
-- What is in the lists of requests after each change.
use value_rpc.Prelude.{ℕ, ◌≡◌, refl, true, false, ◌&&◌, ◌||◌, ◌==◌, ltb, List, [], ◌∷◌, ◌++◌, arith}
use value_rpc.Serving.{has, delete_key}
use value_rpc.Calls.{Call, has_call, delete_call, ids, kept, to_replay, delete_all, close_call}

pub has_call-delete_call :
    (i j : ℕ) (cs : List Call) → has_call i (delete_call j cs) ≡ true → has_call i cs ≡ true
unfolding has_call delete_call
has_call-delete_call i j [] h = h
has_call-delete_call i j (c ∷ cs) h = ground (arith, has_call-delete_call i j cs)

pub has_call-close_call :
    (i j : ℕ) (cs : List Call) → has_call i (close_call j cs) ≡ true → has_call i cs ≡ true
unfolding has_call close_call
has_call-close_call i j [] h = h
has_call-close_call i j (c ∷ cs) h = ground (arith, has_call-close_call i j cs)

has_call-deleted : (i : ℕ) (cs : List Call) → has_call i (delete_call i cs) ≡ false
unfolding has_call delete_call
has_call-deleted i [] = refl
has_call-deleted i (c ∷ cs) = ground (arith, has_call-deleted i cs)

-- What a failed Reconnect leaves is not one of those that it was to send again.
pub has_call-delete_all :
    (i : ℕ) (rs cs : List Call)
    → has_call i (delete_all rs cs) ≡ true
    → (has_call i cs ≡ true) × (has_call i rs ≡ false)
unfolding delete_all has_call
has_call-delete_all i [] cs h = (h, refl)
has_call-delete_all i (r ∷ rs) cs h =
    let below = has_call-delete_call i r.id (delete_all rs cs) h in
    let (p, q) = has_call-delete_all i rs cs below in
    (p, ground (arith, q, has_call-deleted i (delete_all rs cs)))

pub kept_lem :
    (cutoff i : ℕ) (cs : List Call)
    → has_call i (kept cutoff cs) ≡ true
    → ((has_call i cs && ltb cutoff i) || has_call i (to_replay cutoff cs)) ≡ true
unfolding has_call kept to_replay
kept_lem cutoff i [] h = ground arith
kept_lem cutoff i (c ∷ cs) h = ground (arith, kept_lem cutoff i cs)

pub has_call-kept :
    (cutoff i : ℕ) (cs : List Call) → has_call i (kept cutoff cs) ≡ true → has_call i cs ≡ true
unfolding has_call kept
has_call-kept cutoff i [] h = h
has_call-kept cutoff i (c ∷ cs) h = ground (arith, has_call-kept cutoff i cs)

pub has-ids : (i : ℕ) (cs : List Call) → has i (ids cs) ≡ has_call i cs
unfolding has has_call
has-ids i [] = refl
has-ids i (c ∷ cs) = ground (arith, has-ids i cs)

pub has-append : (i : ℕ) (xs ys : List ℕ) → has i (xs ++ ys) ≡ (has i xs || has i ys)
unfolding has
has-append i [] ys = refl
has-append i (x ∷ xs) ys = ground (arith, has-append i xs ys)

pub has-delete_key :
    (i j : ℕ) (xs : List ℕ) → has i xs ≡ true → (has i (delete_key j xs) || (j == i)) ≡ true
unfolding has delete_key
has-delete_key i j [] h = ground arith
has-delete_key i j (x ∷ xs) h = ground (arith, has-delete_key i j xs)
