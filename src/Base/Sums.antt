-- ===== src/Base/Sums.antt =====
-- Sums of weights over lists. An equation for every weight is an equation of multisets.
use Prim.Native.Nat.{ℕ, zero, suc, ◌+◌, ◌<◌}
use mathlib.Core.Path.{◌≡◌}
use mathlib.Core.List.{List, [], ◌∷◌, ◌++◌}
use native.Mathlib.Omega.{arith}
use molto.Base.Lists.{length, set, get_or, erase_at}

module _ {ℓ} {A : Type ℓ} (w : A → ℕ) where
  abbrev pub sum_by : List A → ℕ
  sum_by [] = 0
  sum_by (x ∷ xs) = w x + sum_by xs

  pub sum_by-append : (xs ys : List A) → sum_by (xs ++ ys) ≡ sum_by xs + sum_by ys
  sum_by-append [] ys = omega arith
  sum_by-append (x ∷ xs) ys = omega (arith, sum_by-append xs ys)

  -- Replacing one element moves the sum by the difference of the two weights.
  pub sum_by-set :
      (xs : List A) (i : ℕ) (v d : A)
      → i < length xs
      → sum_by (set xs i v) + w (get_or xs i d) ≡ sum_by xs + w v
  sum_by-set [] i v d h = absurd (omega arith)
  sum_by-set (x ∷ xs) zero v d h = omega arith
  sum_by-set (x ∷ xs) (suc i) v d h = omega (arith, sum_by-set xs i v d)

  pub sum_by-erase_at :
      (xs : List A) (i : ℕ) (d : A)
      → i < length xs
      → sum_by (erase_at xs i) + w (get_or xs i d) ≡ sum_by xs
  sum_by-erase_at [] i d h = absurd (omega arith)
  sum_by-erase_at (x ∷ xs) zero d h = omega arith
  sum_by-erase_at (x ∷ xs) (suc i) d h = omega (arith, sum_by-erase_at xs i d)
