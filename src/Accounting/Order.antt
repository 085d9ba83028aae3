-- ===== src/Accounting/Order.antt =====
-- `range`, `in` and `sorted` of Python on lists of indices. `sorted` is stable: it is read as an
-- insertion sort that puts an item before the first one that it does not come after.
pub mod Counts
pub mod Sorted
use bonded_subsat_channel.Base.{ℕ, zero, suc, ◌+◌, Bool, List, [], ◌∷◌, arith, if◌then◌else◌}

-- `range(n)`, in order
unfoldable pub range_from : ℕ → ℕ → List ℕ
range_from i zero = []
range_from i (suc n) = i ∷ range_from (i + 1) n

unfoldable pub range : ℕ → List ℕ
unfolding range_from
range n = range_from 0 n

unfoldable pub insert_by {ℓ} : {A : Type ℓ} → (A → A → Bool) → A → List A → List A
insert_by le x [] = x ∷ []
insert_by le x (y ∷ ys) = if le x y then x ∷ y ∷ ys else y ∷ insert_by le x ys

unfoldable pub sort_by {ℓ} : {A : Type ℓ} → (A → A → Bool) → List A → List A
unfolding insert_by
sort_by le [] = []
sort_by le (x ∷ xs) = insert_by le x (sort_by le xs)
