-- ===== src/Serving/Totals.antt =====
-- Totals over a list, under the changes that the handlers of a session go through.
use value_rpc.Prelude.{
  ℕ, zero, suc, ◌+◌, ◌≤◌, ◌≡◌, List, [], ◌∷◌, ◌++◌, some, get_elem?, set, ap, arith,
}
use mathlib.Core.Option.{some-injective, none-ne-some}
use value_rpc.Serving.{remove_at}

module _ {A : Type 0} (w : A → ℕ) where
  -- The total of a weight over a list.
  abbrev pub total : List A → ℕ
  total [] = 0
  total (x ∷ xs) = w x + total xs

  pub total-append : (xs ys : List A) → total (xs ++ ys) ≡ total xs + total ys
  total-append [] ys = omega arith
  total-append (x ∷ xs) ys = let e = total-append xs ys in omega arith

  pub total-set :
      (xs : List A) (i : ℕ) (x y : A)
      → get_elem? xs i ≡ some x
      → total (set xs i y) + w x ≡ total xs + w y
  total-set [] i x y h = absurd (none-ne-some x h)
  total-set (z ∷ xs) zero x y h = let e = ap w (some-injective z x h) in omega arith
  total-set (z ∷ xs) (suc i) x y h = let e = total-set xs i x y h in omega arith

  pub total-remove_at :
      (xs : List A) (i : ℕ) (x : A)
      → get_elem? xs i ≡ some x
      → total (remove_at xs i) + w x ≡ total xs
  unfolding remove_at
  total-remove_at [] i x h = absurd (none-ne-some x h)
  total-remove_at (z ∷ xs) zero x h = let e = ap w (some-injective z x h) in omega arith
  total-remove_at (z ∷ xs) (suc i) x h = let e = total-remove_at xs i x h in omega arith

pub total_mono :
    {A : Type 0} (w u : A → ℕ) (xs : List A) → ((x : A) → w x ≤ u x) → total w xs ≤ total u xs
total_mono w u [] le = omega arith
total_mono w u (x ∷ xs) le = let e = total_mono w u xs le in let l = le x in omega arith
