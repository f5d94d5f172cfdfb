-- ===== src/Prelude/Lists.antt =====
-- Lists measured and indexed by native numbers, under the library's names.
use Prim.Native.Nat.{ℕ, zero, suc, ◌+◌, ◌-◌, ◌<◌, ◌≤◌}
use mathlib.Core.Path.{◌≡◌, refl, ap}
use mathlib.Core.List.{List, [], ◌∷◌, ◌++◌}
use mathlib.Core.Logic.{◌⊎◌, inl, inr}
use mathlib.Core.Option.{Option, none, some, none-ne-some}
use native.Mathlib.Omega.{arith}

module _ {ℓ} {A : Type ℓ} where
  abbrev pub length : List A → ℕ
  length [] = 0
  length (x ∷ xs) = suc (length xs)

  abbrev pub get_elem? : List A → ℕ → Option A
  get_elem? [] i = none
  get_elem? (x ∷ xs) zero = some x
  get_elem? (x ∷ xs) (suc i) = get_elem? xs i

  -- A write out of bounds changes nothing.
  abbrev pub set : List A → ℕ → A → List A
  set [] i v = []
  set (x ∷ xs) zero v = v ∷ xs
  set (x ∷ xs) (suc i) v = x ∷ set xs i v

  abbrev pub drop : ℕ → List A → List A
  drop zero xs = xs
  drop (suc n) [] = []
  drop (suc n) (x ∷ xs) = drop n xs

  pub length-append : (xs ys : List A) → length (xs ++ ys) ≡ length xs + length ys
  length-append [] ys = omega arith
  length-append (x ∷ xs) ys = omega (arith, length-append xs ys)

  pub length-drop : (n : ℕ) (xs : List A) → length (drop n xs) ≡ length xs - n
  length-drop zero xs = omega arith
  length-drop (suc n) [] = omega arith
  length-drop (suc n) (x ∷ xs) = omega (arith, length-drop n xs)

  pub length-set : (xs : List A) (i : ℕ) (v : A) → length (set xs i v) ≡ length xs
  length-set [] i v = refl
  length-set (x ∷ xs) zero v = refl
  length-set (x ∷ xs) (suc i) v = ap suc (length-set xs i v)

  -- The part of a list from an index on is that element and the part from the next index on.
  pub drop-get :
      (n : ℕ) (xs : List A) (v : A) → get_elem? xs n ≡ some v → drop n xs ≡ v ∷ drop (suc n) xs
  drop-get zero [] v h = ground arith
  drop-get zero (x ∷ xs) v h = ground arith
  drop-get (suc n) [] v h = ground arith
  drop-get (suc n) (x ∷ xs) v h = drop-get n xs v h

  pub drop-set : (n : ℕ) (xs : List A) (v : A) → drop (suc n) (set xs n v) ≡ drop (suc n) xs
  drop-set n [] v = refl
  drop-set zero (x ∷ xs) v = refl
  drop-set (suc n) (x ∷ xs) v = drop-set n xs v

  pub drop-append : (n : ℕ) (xs ys : List A) → n ≤ length xs → drop n (xs ++ ys) ≡ drop n xs ++ ys
  drop-append zero xs ys h = refl
  drop-append (suc n) [] ys h = absurd (omega arith)
  drop-append (suc n) (x ∷ xs) ys h = drop-append n xs ys (omega arith)

  pub drop-length : (n : ℕ) (xs : List A) → length xs ≤ n → drop n xs ≡ []
  drop-length zero [] h = refl
  drop-length zero (x ∷ xs) h = absurd (omega arith)
  drop-length (suc n) [] h = refl
  drop-length (suc n) (x ∷ xs) h = drop-length n xs (omega arith)

  pub get_elem?-lt : (n : ℕ) (xs : List A) → n < length xs → (v : A) × (get_elem? xs n ≡ some v)
  get_elem?-lt n [] h = absurd (omega arith)
  get_elem?-lt zero (x ∷ xs) h = (x, refl)
  get_elem?-lt (suc n) (x ∷ xs) h = get_elem?-lt n xs (omega arith)

  -- What is at an index after a write at another, or after an element was added.
  pub get_elem?-set :
      (xs : List A) (i j : ℕ) (v w : A)
      → get_elem? (set xs i v) j ≡ some w
      → ((j ≡ i) × (w ≡ v)) ⊎ (¬ (j ≡ i) × (get_elem? xs j ≡ some w))
  get_elem?-set [] i j v w h = absurd (none-ne-some _ h)
  get_elem?-set (x ∷ xs) zero zero v w h = inl (refl, ground arith)
  get_elem?-set (x ∷ xs) zero (suc j) v w h = inr (omega arith, h)
  get_elem?-set (x ∷ xs) (suc i) zero v w h = inr (omega arith, h)
  get_elem?-set (x ∷ xs) (suc i) (suc j) v w h = ground (arith, get_elem?-set xs i j v w)

  pub get_elem?-set_self :
      (xs : List A) (i : ℕ) (x v : A) → get_elem? xs i ≡ some x → get_elem? (set xs i v) i ≡ some v
  get_elem?-set_self [] i x v h = absurd (none-ne-some _ h)
  get_elem?-set_self (y ∷ xs) zero x v h = refl
  get_elem?-set_self (y ∷ xs) (suc i) x v h = get_elem?-set_self xs i x v h

  pub get_elem?-set_ne :
      (xs : List A) (i j : ℕ) (v : A) → ¬ (j ≡ i) → get_elem? (set xs i v) j ≡ get_elem? xs j
  get_elem?-set_ne [] i j v h = refl
  get_elem?-set_ne (x ∷ xs) zero zero v h = absurd (h refl)
  get_elem?-set_ne (x ∷ xs) zero (suc j) v h = refl
  get_elem?-set_ne (x ∷ xs) (suc i) zero v h = refl
  get_elem?-set_ne (x ∷ xs) (suc i) (suc j) v h = get_elem?-set_ne xs i j v (λ e. h (omega arith))

  pub get_elem?-append :
      (xs : List A) (j : ℕ) (v w : A)
      → get_elem? (xs ++ v ∷ []) j ≡ some w
      → (w ≡ v) ⊎ (get_elem? xs j ≡ some w)
  get_elem?-append [] zero v w h = inl (ground arith)
  get_elem?-append [] (suc j) v w h = absurd (none-ne-some _ h)
  get_elem?-append (x ∷ xs) zero v w h = inr h
  get_elem?-append (x ∷ xs) (suc j) v w h = get_elem?-append xs j v w h

  pub get_elem?-append_at :
      (xs : List A) (j : ℕ) (v w : A)
      → get_elem? (xs ++ v ∷ []) j ≡ some w
      → ((j ≡ length xs) × (w ≡ v)) ⊎ (get_elem? xs j ≡ some w)
  get_elem?-append_at [] zero v w h = inl (refl, ground arith)
  get_elem?-append_at [] (suc j) v w h = absurd (none-ne-some _ h)
  get_elem?-append_at (x ∷ xs) zero v w h = inr h
  get_elem?-append_at (x ∷ xs) (suc j) v w h = ground (arith, get_elem?-append_at xs j v w)

  pub get_elem?-append_old :
      (xs : List A) (j : ℕ) (v w : A)
      → get_elem? xs j ≡ some w
      → get_elem? (xs ++ v ∷ []) j ≡ some w
  get_elem?-append_old [] j v w h = absurd (none-ne-some _ h)
  get_elem?-append_old (x ∷ xs) zero v w h = h
  get_elem?-append_old (x ∷ xs) (suc j) v w h = get_elem?-append_old xs j v w h

  pub get_elem?-append_new : (xs : List A) (v : A) → get_elem? (xs ++ v ∷ []) (length xs) ≡ some v
  get_elem?-append_new [] v = refl
  get_elem?-append_new (x ∷ xs) v = get_elem?-append_new xs v

abbrev pub sum : List ℕ → ℕ
sum [] = 0
sum (n ∷ ns) = n + sum ns

pub sum-append : (xs ys : List ℕ) → sum (xs ++ ys) ≡ sum xs + sum ys
sum-append [] ys = omega arith
sum-append (x ∷ xs) ys = omega (arith, sum-append xs ys)
