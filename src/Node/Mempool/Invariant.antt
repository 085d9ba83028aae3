-- ===== src/Node/Mempool/Invariant.antt =====
-- The index `spent_by` of the mempool (src/channel/node/mempool.py) and its entries.
use bonded_subsat_channel.Base.{
  mem, ◌≡◌, ◌≢◌, refl, sym, ap, ◌∙◌, inl, inr, Bool, true, false, Option, none, some, List, [], ◌∷◌,
  arith, if◌then◌else◌, ◌==◌, ==_iff, Bool-cases, Option-cases,
}
use bonded_subsat_channel.Base.Dict.{
  Dict, lookup, insert, erase, outpoint_eq, nat_eq, ◌=?◌, lookup-insert, lookup-erase, beq_refl,
}
use bonded_subsat_channel.Chain.{Hash, Outpoint, TxInput, Bitcoinx, outpoint}
use bonded_subsat_channel.Node.Mempool.{
  Mempool, MempoolEntry, mark_spent, unmark, add_id, conflicts,
}

-- whether one of the inputs spends the output
abbrev pub spends : Outpoint → List TxInput → Bool
spends op [] = false
spends op (t ∷ ts) = if op =? outpoint t then true else spends op ts

pub record Inv (lib : Bitcoinx) (m : Mempool) : Type 0 where
  pub hashed :
      (txid : Hash) (e : MempoolEntry) → lookup txid m.entries ≡ some e → lib.tx_hash e.tx ≡ txid
  pub marked :
      (txid : Hash) (e : MempoolEntry) (op : Outpoint)
      → lookup txid m.entries ≡ some e
      → spends op e.tx.inputs ≡ true
      → lookup op m.spent_by ≡ some txid
  pub owned :
      (op : Outpoint) (txid : Hash)
      → lookup op m.spent_by ≡ some txid
      → (e : MempoolEntry) × (lookup txid m.entries ≡ some e) × (spends op e.tx.inputs ≡ true)

-- No two entries spend one output.
pub spent_once :
    (lib : Bitcoinx) (m : Mempool) (a b : Hash) (e f : MempoolEntry) (op : Outpoint)
    → Inv lib m
    → lookup a m.entries ≡ some e
    → lookup b m.entries ≡ some f
    → spends op e.tx.inputs ≡ true
    → spends op f.tx.inputs ≡ true
    → a ≡ b
spent_once lib m a b e f op v ha hb se sf = cc (v.marked a e op ha se, v.marked b f op hb sf)

pub lookup-mark_spent :
    (op : Outpoint) (ts : List TxInput) (txid : Hash) (d : Dict Outpoint Hash)
    → lookup op (mark_spent ts txid d) ≡ (if spends op ts then some txid else lookup op d)
unfolding mark_spent
lookup-mark_spent op [] txid d = refl
lookup-mark_spent op (t ∷ ts) txid d = ground (
  arith,
  lookup-mark_spent op ts txid (insert (outpoint t) txid d),
  lookup-insert op (outpoint t) txid d,
)

-- whether an answer of `spent_by` names the transaction
abbrev pub names : Hash → Option Hash → Bool
names txid none = false
names txid (some owner) = owner == txid

-- `unmark` clears the transaction's own marks and no others.
abbrev pub cleared : Hash → Option Hash → Option Hash
cleared txid o = if names txid o then none else o

clear_one : Outpoint → Hash → Dict Outpoint Hash → Dict Outpoint Hash
clear_one key txid d = elim (lookup key d) [
  | none ↦ d
  | some owner ↦ if owner == txid then erase key d else d
]

lookup-clear_one :
    (op key : Outpoint) (txid : Hash) (d : Dict Outpoint Hash)
    → lookup op (clear_one key txid d)
      ≡ (if op =? key then cleared txid (lookup op d) else lookup op d)
unfolding clear_one
lookup-clear_one op key txid d = elim (Bool-cases (op =? key)) [
  | inl same ↦
      let e : op ≡ key = (outpoint_eq.beq_iff op key).0 same in
      ground (arith, same, ap (λ x. lookup x d) e, lookup-erase op key d)
  | inr other ↦ ground (arith, other, lookup-erase op key d)
]

pub lookup-unmark :
    (op : Outpoint) (ts : List TxInput) (txid : Hash) (d : Dict Outpoint Hash)
    → lookup op (unmark ts txid d)
      ≡ (if spends op ts then cleared txid (lookup op d) else lookup op d)
unfolding unmark clear_one
lookup-unmark op [] txid d = refl
lookup-unmark op (t ∷ ts) txid d = ground (
  arith,
  lookup-unmark op ts txid (clear_one (outpoint t) txid d),
  lookup-clear_one op (outpoint t) txid d,
)

-- A mark of another transaction on an input is among the conflicts.
mem-add_id :
    (x t : Hash) (xs : List Hash) → mem x (add_id t xs) ≡ (if x == t then true else mem x xs)
unfolding mem add_id
mem-add_id x t [] = refl
mem-add_id x t (y ∷ ys) = ground (arith, mem-add_id x t ys)

pub mem-conflicts :
    (op : Outpoint) (owner txid : Hash) (ts : List TxInput) (d : Dict Outpoint Hash)
    → spends op ts ≡ true
    → lookup op d ≡ some owner
    → owner ≢ txid
    → mem owner (conflicts txid ts d) ≡ true
unfolding conflicts
mem-conflicts op owner txid [] d s e ne = cc
mem-conflicts op owner txid (t ∷ ts) d s e ne = elim (Bool-cases (op =? outpoint t)) [
  | inl same ↦
      let q : op ≡ outpoint t = (outpoint_eq.beq_iff op (outpoint t)).0 same in
      ground (arith, ap (λ x. lookup x d) q, ne, mem-add_id owner owner (conflicts txid ts d))
  | inr other ↦
      let ih = mem-conflicts op owner txid ts d (ground (arith, other)) e ne in
      elim (Option-cases (lookup (outpoint t) d)) [
        | inl free ↦ ground (arith, ih)
        | inr (x, found) ↦ ground (arith, ih, mem-add_id owner x (conflicts txid ts d))
      ]
]

-- An output that one of the inputs spends and another transaction has marked.
abbrev pub Contested : Hash → Hash → List TxInput → Dict Outpoint Hash → Type 0
Contested owner txid ts d =
    (op : Outpoint) × (spends op ts ≡ true) × (lookup op d ≡ some owner) × (owner ≢ txid)

Contested-cons :
    (owner txid : Hash) (t : TxInput) (ts : List TxInput) (d : Dict Outpoint Hash)
    → Contested owner txid ts d
    → Contested owner txid (t ∷ ts) d
Contested-cons owner txid t ts d (op, s, e, ne) = (op, ground (arith, s), e, ne)

-- Every conflict marks one of the inputs.
pub conflicts-Contested :
    (owner txid : Hash) (ts : List TxInput) (d : Dict Outpoint Hash)
    → mem owner (conflicts txid ts d) ≡ true
    → Contested owner txid ts d
unfolding conflicts mem
conflicts-Contested owner txid [] d h = cc
conflicts-Contested owner txid (t ∷ ts) d h = elim (Option-cases (lookup (outpoint t) d)) [
  | inl free ↦
      Contested-cons owner txid t ts d (conflicts-Contested owner txid ts d (ground (arith, free)))
  | inr (x, found) ↦ elim (Bool-cases (x == txid)) [
    | inl own ↦
        Contested-cons owner txid t ts d
          (conflicts-Contested owner txid ts d (ground (arith, found, own)))
    | inr foreign ↦ elim (Bool-cases (owner == x)) [
      | inl here ↦ (
        outpoint t,
        rw (beq_refl outpoint_eq (outpoint t)),
        found ∙ ap some (sym ((==_iff owner x).0 here)),
        ground (arith, foreign, here),
      )
      | inr there ↦ Contested-cons owner txid t ts d (
          conflicts-Contested owner txid ts d
            (ground (arith, found, foreign, there, mem-add_id owner x (conflicts txid ts d))))
    ]
  ]
]
