-- ===== src/Accounting/Order/Counts.antt =====
-- Sums and counts over a sorted list of indices, for src/channel/accounting.py.
use bonded_subsat_channel.Base.{
  mem, ℕ, zero, suc, ◌+◌, ◌≤◌, ◌<◌, ◌≡◌, refl, ap, sym, ◌∙◌, Bool, true, false, List, [], ◌∷◌, ◌++◌,
  take, drop, length, take-append-drop, arith, ◌==◌, if◌then◌else◌,
}
use bonded_subsat_channel.Accounting.Order.{range, range_from, sort_by, insert_by}

-- A sum over a list, which a sort leaves alone.
abbrev pub sum_over {ℓ} : {A : Type ℓ} → (A → ℕ) → List A → ℕ
sum_over f [] = 0
sum_over f (x ∷ xs) = f x + sum_over f xs

module _ {ℓ} {A : Type ℓ} (f : A → ℕ) (le : A → A → Bool) where
  pub sum_over-insert_by :
      (x : A) (xs : List A) → sum_over f (insert_by le x xs) ≡ f x + sum_over f xs
  unfolding insert_by
  sum_over-insert_by x [] = refl
  sum_over-insert_by x (y ∷ ys) = ground (arith, sum_over-insert_by x ys)

  pub sum_over-sort_by : (xs : List A) → sum_over f (sort_by le xs) ≡ sum_over f xs
  unfolding sort_by
  sum_over-sort_by [] = refl
  sum_over-sort_by (x ∷ xs) =
      omega (arith, sum_over-insert_by x (sort_by le xs), sum_over-sort_by xs)

abbrev pub one {ℓ} : {A : Type ℓ} → A → ℕ
one _ = 1

pub sum_over-one {ℓ} : {A : Type ℓ} (xs : List A) → sum_over one xs ≡ length xs
sum_over-one [] = refl
sum_over-one (x ∷ xs) = omega (arith, sum_over-one xs)

-- 1 where an index is in the list
abbrev pub hit : List ℕ → ℕ → ℕ
hit w i = if mem i w then 1 else 0

-- How often an index occurs.
abbrev pub occurs : ℕ → ℕ → ℕ
occurs i x = if i == x then 1 else 0

abbrev pub count : ℕ → List ℕ → ℕ
count i = sum_over (occurs i)

abbrev pub IsDistinct : List ℕ → Type 0
IsDistinct xs = (i : ℕ) → count i xs ≤ 1

pub sum_over-append {ℓ} :
    {A : Type ℓ} (f : A → ℕ) (xs ys : List A)
    → sum_over f (xs ++ ys) ≡ sum_over f xs + sum_over f ys
sum_over-append f [] ys = omega arith
sum_over-append f (x ∷ xs) ys = omega (arith, sum_over-append f xs ys)

pub count_zero-mem : (i : ℕ) (xs : List ℕ) → count i xs ≡ 0 → mem i xs ≡ false
unfolding mem
count_zero-mem i [] h = refl
count_zero-mem i (x ∷ xs) h = ground (arith, count_zero-mem i xs)

pub count_pos-mem : (i : ℕ) (xs : List ℕ) → 1 ≤ count i xs → mem i xs ≡ true
unfolding mem
count_pos-mem i [] h = absurd (omega arith)
count_pos-mem i (x ∷ xs) h = ground (arith, count_pos-mem i xs)

-- The indices of `ys` are missed by `w` if none stands in both lists.
abbrev pub IsDisjoint : List ℕ → List ℕ → Type 0
IsDisjoint w ys = (i : ℕ) → count i w + count i ys ≤ 1

pub hits_outside : (w ys : List ℕ) → IsDisjoint w ys → sum_over (hit w) ys ≡ 0
hits_outside w [] h = refl
hits_outside w (y ∷ ys) h =
    let missed : mem y w ≡ false = count_zero-mem y w (ground (arith, h y)) in
    ground (arith, missed, hits_outside w ys (λ i. omega (arith, h i)))

-- Every index of a part of `w` is hit.
pub hits_inside :
    (w xs : List ℕ) → ((i : ℕ) → count i xs ≤ count i w) → sum_over (hit w) xs ≡ length xs
hits_inside w [] h = refl
hits_inside w (x ∷ xs) h =
    let found : mem x w ≡ true = count_pos-mem x w (ground (arith, h x)) in
    ground (arith, found, hits_inside w xs (λ i. omega (arith, h i)))

-- In a list with no repetition the first `r` items are hit, and nothing else is.
pub hits_take :
    (r : ℕ) (xs : List ℕ) → IsDistinct xs → sum_over (hit (take r xs)) xs ≡ length (take r xs)
hits_take r xs h =
    let w : List ℕ = take r xs in
    let d : List ℕ = drop r xs in
    let apart : IsDisjoint w d = λ i.
      omega (arith, h i, sum_over-append (occurs i) w d, ap (count i) (take-append-drop r xs)) in
    omega (
      arith,
      ap (sum_over (hit w)) (take-append-drop r xs),
      sum_over-append (hit w) w d,
      hits_outside w d apart,
      hits_inside w w (λ i. omega arith),
    )

pub count-range_below : (i a n : ℕ) → i < a → count i (range_from a n) ≡ 0
unfolding range_from
count-range_below i a zero h = refl
count-range_below i a (suc n) h = ground (arith, count-range_below i (a + 1) n)

range_from-IsDistinct : (a n : ℕ) → IsDistinct (range_from a n)
unfolding range_from
range_from-IsDistinct a zero i = omega arith
range_from-IsDistinct a (suc n) i =
    ground (arith, range_from-IsDistinct (a + 1) n i, count-range_below i (a + 1) n)

pub range-IsDistinct : (n : ℕ) → IsDistinct (range n)
unfolding range
range-IsDistinct n = range_from-IsDistinct 0 n

mem-range_from : (i a n : ℕ) → a ≤ i → i < a + n → mem i (range_from a n) ≡ true
unfolding mem range_from
mem-range_from i a zero h k = absurd (omega arith)
mem-range_from i a (suc n) h k = ground (arith, mem-range_from i (a + 1) n)

pub mem-range : (i n : ℕ) → i < n → mem i (range n) ≡ true
unfolding range
mem-range i n h = mem-range_from i 0 n (omega arith) (omega arith)

length-range_from : (a n : ℕ) → length (range_from a n) ≡ n
unfolding range_from
length-range_from a zero = refl
length-range_from a (suc n) = ap suc (length-range_from (a + 1) n)

pub length-range : (n : ℕ) → length (range n) ≡ n
unfolding range
length-range n = length-range_from 0 n

pub mem-count : (i : ℕ) (xs : List ℕ) → mem i xs ≡ true → 1 ≤ count i xs
unfolding mem
mem-count i [] h = cc
mem-count i (x ∷ xs) h = ground (arith, mem-count i xs)

module _ (le : ℕ → ℕ → Bool) where
  pub sort_by-IsDistinct : (xs : List ℕ) → IsDistinct xs → IsDistinct (sort_by le xs)
  sort_by-IsDistinct xs h i = omega (arith, h i, sum_over-sort_by (occurs i) le xs)

  pub mem-sort_by : (i : ℕ) (xs : List ℕ) → mem i xs ≡ true → mem i (sort_by le xs) ≡ true
  mem-sort_by i xs h =
      count_pos-mem i (sort_by le xs)
        (omega (arith, mem-count i xs h, sum_over-sort_by (occurs i) le xs))

  pub length-sort_by : (xs : List ℕ) → length (sort_by le xs) ≡ length xs
  length-sort_by xs =
      sym (sum_over-one (sort_by le xs)) ∙ sum_over-sort_by one le xs ∙ sum_over-one xs
