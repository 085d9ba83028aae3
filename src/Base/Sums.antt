-- ===== src/Base/Sums.antt =====
-- Sums of lists of natural numbers: Python's `sum`.
use Prim.Native.Nat.{ℕ, zero, suc, ◌+◌, ◌≤◌}
use mathlib.Core.Path.{◌≡◌, refl}
use mathlib.Core.List.{List, [], ◌∷◌, ◌++◌}
use mathlib.Core.Option.{some}
use native.Mathlib.Omega.{arith}
use bonded_subsat_channel.Base.Lists.{get_elem?, set, replicate}

abbrev pub sum : List ℕ → ℕ
sum [] = 0
sum (x ∷ xs) = x + sum xs

pub sum-append : (xs ys : List ℕ) → sum (xs ++ ys) ≡ sum xs + sum ys
sum-append [] ys = omega arith
sum-append (x ∷ xs) ys = omega (arith, sum-append xs ys)

-- An item that is replaced moves the sum by the difference.
pub sum-set :
    (xs : List ℕ) (i v : ℕ) {old : ℕ}
    → get_elem? xs i ≡ some old
    → sum (set xs i v) + old ≡ sum xs + v
sum-set [] i v h = cc
sum-set (x ∷ xs) zero v h = ground arith
sum-set (x ∷ xs) (suc i) v h = omega (arith, sum-set xs i v h)

pub get_elem?-le-sum : (xs : List ℕ) (i : ℕ) {v : ℕ} → get_elem? xs i ≡ some v → v ≤ sum xs
get_elem?-le-sum [] i h = cc
get_elem?-le-sum (x ∷ xs) zero h = ground arith
get_elem?-le-sum (x ∷ xs) (suc i) h = omega (arith, get_elem?-le-sum xs i h)

pub sum-replicate_zero : (n : ℕ) → sum (replicate n 0) ≡ 0
sum-replicate_zero zero = refl
sum-replicate_zero (suc n) = omega (arith, sum-replicate_zero n)
