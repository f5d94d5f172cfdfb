-- ===== src/Prelude/Maps.antt =====
-- Maps from numbers to numbers as lists of their entries, in which a key stands once.
use value_rpc.Prelude.{
  ℕ, ◌≡◌, refl, ◌⊎◌, ◌==◌, if◌then◌else◌, List, [], ◌∷◌, Option, none, some, arith,
}
use mathlib.Core.Option.{none-ne-some}

unfoldable pub load : ℕ → List (ℕ × ℕ) → Option ℕ
load id [] = none
load id ((k, i) ∷ m) = let rest = load id m in if k == id then some i else rest

unfoldable pub delete : ℕ → List (ℕ × ℕ) → List (ℕ × ℕ)
delete id [] = []
delete id ((k, i) ∷ m) = let rest = delete id m in if k == id then rest else (k, i) ∷ rest

unfoldable pub store : ℕ → ℕ → List (ℕ × ℕ) → List (ℕ × ℕ)
unfolding delete
store id i m = (id, i) ∷ delete id m

pub load-delete_self : (id : ℕ) (m : List (ℕ × ℕ)) → load id (delete id m) ≡ none
unfolding load delete
load-delete_self id [] = refl
load-delete_self id ((k, i) ∷ m) = ground (arith, load-delete_self id m)

pub load-delete :
    (id k i : ℕ) (m : List (ℕ × ℕ))
    → load k (delete id m) ≡ some i
    → ¬ (k ≡ id) × (load k m ≡ some i)
unfolding load delete
load-delete id k i [] h = absurd (none-ne-some _ h)
load-delete id k i ((j, x) ∷ m) h = ground (arith, load-delete id k i m)

pub load-store :
    (id k i j : ℕ) (m : List (ℕ × ℕ))
    → load k (store id i m) ≡ some j
    → ((k ≡ id) × (j ≡ i)) ⊎ (load k m ≡ some j)
unfolding load store
load-store id k i j m h = ground (arith, load-delete id k j m)

pub load-delete_other : (id k : ℕ) (m : List (ℕ × ℕ)) → ¬ (k ≡ id) → load k (delete id m) ≡ load k m
unfolding load delete
load-delete_other id k [] h = refl
load-delete_other id k ((j, x) ∷ m) h = ground (arith, load-delete_other id k m h)

pub load-store_self : (id i : ℕ) (m : List (ℕ × ℕ)) → load id (store id i m) ≡ some i
unfolding load store
load-store_self id i m = ground arith

pub load-store_other :
    (id k i : ℕ) (m : List (ℕ × ℕ)) → ¬ (k ≡ id) → load k (store id i m) ≡ load k m
unfolding load store
load-store_other id k i m h = ground (arith, load-delete_other id k m h)
