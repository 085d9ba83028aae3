-- ===== src/Node/Block/Merkle.antt =====
-- The levels of `merkle_root` in src/channel/node/block.py.
use bonded_subsat_channel.Base.{
  ℕ, zero, suc, ◌+◌, ◌≤◌, ◌≡◌, refl, some, List, [], ◌∷◌, ◌++◌, length, arith,
}
use bonded_subsat_channel.Chain.{Bytes}
use bonded_subsat_channel.Node.Block.{pair_up, merkle_level, merkle_root}

-- the root is that of a tree of pairs over the leaves, where an odd one out is paired with itself
pub data RootOf (double_sha256 : Bytes → Bytes) : List Bytes → Bytes → Type 0 where
  leaf : (x : Bytes) → RootOf double_sha256 (x ∷ []) x
  above :
      (x y : Bytes) (rest : List Bytes) (root : Bytes)
      → RootOf double_sha256 (pair_up double_sha256 (x ∷ y ∷ rest)) root
      → RootOf double_sha256 (x ∷ y ∷ rest) root

module _ (double_sha256 : Bytes → Bytes) where
  length-pair_up :
      (xs : List Bytes)
      → length (pair_up double_sha256 xs) + length (pair_up double_sha256 xs) ≤ length xs + 1
  unfolding pair_up
  length-pair_up [] = omega arith
  length-pair_up (x ∷ []) = omega arith
  length-pair_up (x ∷ y ∷ rest) = omega (arith, length-pair_up rest)

  level_ends :
      (fuel : ℕ) (x : Bytes) (xs : List Bytes)
      → length xs ≤ fuel
      → (root : Bytes) × (merkle_level double_sha256 fuel (x ∷ xs) ≡ some root)
        × RootOf double_sha256 (x ∷ xs) root
  unfolding merkle_level pair_up
  level_ends fuel x [] h = (x, refl, leaf x)
  level_ends zero x (y ∷ rest) h = absurd (omega arith)
  level_ends (suc fuel) x (y ∷ rest) h =
      let (root, ends, is) =
        level_ends fuel (double_sha256 (x ++ y)) (pair_up double_sha256 rest)
          (omega (arith, h, length-pair_up rest)) in
      (root, ends, above x y rest root is)

  -- `merkle_root` of a list with a transaction at least comes to an end, with the root of the tree
  -- over it.
  pub merkle_root_ends :
      (x : Bytes) (xs : List Bytes)
      → (root : Bytes) × (merkle_root double_sha256 (x ∷ xs) ≡ some root)
        × RootOf double_sha256 (x ∷ xs) root
  unfolding merkle_root
  merkle_root_ends x xs = level_ends (length xs) x xs (omega arith)
