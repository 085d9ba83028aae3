-- ===== src/Node/Mempool/Outbid.antt =====
-- When a transaction outbids an entry of the pool in src/channel/node/mempool.py, and which entries
-- its inputs meet.
use bonded_subsat_channel.Base.{
  ℕ, mem, ◌≡◌, ◌≢◌, refl, ap, ◌⊎◌, inl, inr, ◌<◌, true, none, some, List, [], ◌∷◌, arith,
  Option-cases,
}
use bonded_subsat_channel.Base.Dict.{Dict, lookup, outpoint_eq, nat_eq}
use bonded_subsat_channel.Chain.{Hash, Outpoint, TxInput, outpoint}
use bonded_subsat_channel.Node.Mempool.{conflicts, add_id, outbids}
use bonded_subsat_channel.Node.Mempool.Invariant.{spends, mem-conflicts}

-- Each input has a higher sequence than the one recorded for its output, if one is.
abbrev pub AllAbove : List TxInput → Dict Outpoint ℕ → Type 0
AllAbove [] seqs = Unit {0}
AllAbove (t ∷ ts) seqs =
    ((old : ℕ) → lookup (outpoint t) seqs ≡ some old → old < t.sequence) × AllAbove ts seqs

pub outbids-AllAbove :
    (ts : List TxInput) (seqs : Dict Outpoint ℕ) → outbids ts seqs ≡ true → AllAbove ts seqs
unfolding outbids
outbids-AllAbove [] seqs h = tt
outbids-AllAbove (t ∷ ts) seqs h = (
  λ old e. ground (arith, e),
  outbids-AllAbove ts seqs (ground (arith, Option-cases (lookup (outpoint t) seqs))),
)

pub AllAbove-outbids :
    (ts : List TxInput) (seqs : Dict Outpoint ℕ) → AllAbove ts seqs → outbids ts seqs ≡ true
unfolding outbids
AllAbove-outbids [] seqs h = refl
AllAbove-outbids (t ∷ ts) seqs h = elim (Option-cases (lookup (outpoint t) seqs)) [
  | inl free ↦ ground (arith, free, AllAbove-outbids ts seqs h.1)
  | inr (old, e) ↦ ground (arith, e, h.0 old e, AllAbove-outbids ts seqs h.1)
]

-- Every output that the inputs spend is unmarked or marked by `old`.
abbrev pub OnlyBy : Hash → List TxInput → Dict Outpoint Hash → Type 0
OnlyBy old [] d = Unit {0}
OnlyBy old (t ∷ ts) d =
    ((lookup (outpoint t) d ≡ none) ⊎ (lookup (outpoint t) d ≡ some old)) × OnlyBy old ts d

pub conflicts_at_most :
    (old txid : Hash) (ts : List TxInput) (d : Dict Outpoint Hash)
    → OnlyBy old ts d
    → (conflicts txid ts d ≡ []) ⊎ (conflicts txid ts d ≡ old ∷ [])
unfolding conflicts add_id
conflicts_at_most old txid [] d h = inl refl
conflicts_at_most old txid (t ∷ ts) d h = ground (arith, conflicts_at_most old txid ts d h.1)

pub conflicts_only :
    (old txid : Hash) (ts : List TxInput) (d : Dict Outpoint Hash) (op : Outpoint)
    → OnlyBy old ts d
    → spends op ts ≡ true
    → lookup op d ≡ some old
    → old ≢ txid
    → conflicts txid ts d ≡ old ∷ []
unfolding mem
conflicts_only old txid ts d op h s e ne = elim (conflicts_at_most old txid ts d h) [
  | inl empty ↦ cc (ap (mem old) empty, mem-conflicts op old txid ts d s e ne)
  | inr one ↦ one
]

-- A list of ids has none, one or more.
pub ids-cases :
    (xs : List Hash)
    → (xs ≡ [])
      ⊎ ((x : Hash) × (xs ≡ x ∷ []))
      ⊎ ((x : Hash) × (y : Hash) × (ys : List Hash) × (xs ≡ x ∷ y ∷ ys))
ids-cases [] = inl refl
ids-cases (x ∷ []) = inr (inl (x, refl))
ids-cases (x ∷ y ∷ ys) = inr (inr (x, y, ys, refl))
