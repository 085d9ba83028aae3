-- ===== src/Accounting/Order/Sorted.antt =====
-- The order of a sorted list, for the winners of src/channel/accounting.py.
use bonded_subsat_channel.Base.{
  mem, ℕ, zero, suc, ◌≡◌, Bool, true, false, List, [], ◌∷◌, take, arith,
}
use bonded_subsat_channel.Accounting.Order.{sort_by, insert_by}

module _ (le : ℕ → ℕ → Bool) where
  abbrev pub AllAfter : ℕ → List ℕ → Type 0
  AllAfter x [] = Unit {0}
  AllAfter x (y ∷ ys) = (le x y ≡ true) × AllAfter x ys

  abbrev pub IsSorted : List ℕ → Type 0
  IsSorted [] = Unit {0}
  IsSorted (x ∷ xs) = AllAfter x xs × IsSorted xs

  pub AllAfter-mem : (i j : ℕ) (xs : List ℕ) → AllAfter i xs → mem j xs ≡ true → le i j ≡ true
  unfolding mem
  AllAfter-mem i j [] h m = cc
  AllAfter-mem i j (x ∷ xs) h m = ground (arith, AllAfter-mem i j xs h.1)

  -- What is in the first `r` comes before what is in the list and not in the first `r`.
  pub take-first :
      (r : ℕ) (xs : List ℕ) (i j : ℕ)
      → IsSorted xs
      → mem i (take r xs) ≡ true
      → mem j xs ≡ true
      → mem j (take r xs) ≡ false
      → le i j ≡ true
  unfolding mem
  take-first zero xs i j s m k o = cc
  take-first (suc r) [] i j s m k o = cc
  take-first (suc r) (x ∷ xs) i j s m k o =
      ground (arith, AllAfter-mem i j xs, take-first r xs i j s.1)

  module _ (total : (a b : ℕ) → le a b ≡ false → le b a ≡ true)
      (trans : (a b c : ℕ) → le a b ≡ true → le b c ≡ true → le a c ≡ true) where
    AllAfter-trans : (x y : ℕ) (ys : List ℕ) → le x y ≡ true → AllAfter y ys → AllAfter x ys
    AllAfter-trans x y [] e h = tt
    AllAfter-trans x y (z ∷ ys) e h = (trans x y z e h.0, AllAfter-trans x y ys e h.1)

    AllAfter-insert_by :
        (z x : ℕ) (xs : List ℕ) → le z x ≡ true → AllAfter z xs → AllAfter z (insert_by le x xs)
    unfolding insert_by
    AllAfter-insert_by z x [] e h = (e, tt)
    AllAfter-insert_by z x (y ∷ ys) e h = ground (arith, AllAfter-insert_by z x ys)

    insert_by-IsSorted : (x : ℕ) (xs : List ℕ) → IsSorted xs → IsSorted (insert_by le x xs)
    unfolding insert_by
    insert_by-IsSorted x [] h = (tt, tt)
    insert_by-IsSorted x (y ∷ ys) h = ground (
      arith,
      AllAfter-trans x y ys,
      total x y,
      AllAfter-insert_by y x ys,
      insert_by-IsSorted x ys,
    )

    pub sort_by-IsSorted : (xs : List ℕ) → IsSorted (sort_by le xs)
    unfolding sort_by
    sort_by-IsSorted [] = tt
    sort_by-IsSorted (x ∷ xs) = insert_by-IsSorted x (sort_by le xs) (sort_by-IsSorted xs)
