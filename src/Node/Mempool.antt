-- ===== src/Node/Mempool.antt =====
-- src/channel/node/mempool.py: admission, replacement and eviction. An observer is called in the
-- middle of a step and may call the mempool again, so what all observers do on an event is the
-- parameter `notify`, a function on the mempool and on whatever state `W` the observers keep.
-- The set of conflicting ids is the list of them without repetition.
pub mod Invariant
pub mod Outbid
pub mod Evict
pub mod Admit
pub mod Replace
pub mod States
use bonded_subsat_channel.Base.{
  ℕ, Bool, true, false, Option, none, some, List, [], ◌∷◌, map, if◌then◌else◌, ◌==◌, leb, length,
  Result, ok, err, Error,
}
use bonded_subsat_channel.Base.Int.{ℤ, pos}
use bonded_subsat_channel.Base.Dict.{Dict, lookup, contains, insert, erase, outpoint_eq, nat_eq}
use bonded_subsat_channel.Chain.{Hash, Outpoint, Tx, TxInput, Bitcoinx, outpoint}
use bonded_subsat_channel.Node.BlockStore.{BlockStore}
use bonded_subsat_channel.Node.Validation.{ValidationResult, Reason, refusal, fee, validate_tx}

pub record MempoolEntry : Type 0 where
  pub tx : Tx
  pub fee : ℤ
  pub sequence_by_input : List ℕ

pub record Mempool : Type 0 where
  pub store : BlockStore
  pub entries : Dict Hash MempoolEntry
  pub spent_by : Dict Outpoint Hash

pub data Event : Type 0 where
  admitted evicted replaced : Event

-- `set.add` on the ids, kept as a list
unfoldable pub add_id : Hash → List Hash → List Hash
add_id t [] = t ∷ []
add_id t (x ∷ xs) = if t == x then x ∷ xs else x ∷ add_id t xs

-- the ids of the entries that spend an input of the transaction
unfoldable pub conflicts : Hash → List TxInput → Dict Outpoint Hash → List Hash
conflicts txid [] spent_by = []
conflicts txid (t ∷ ts) spent_by =
    let rest = conflicts txid ts spent_by in
    elim (lookup (outpoint t) spent_by) [
      | none ↦ rest
      | some owner ↦ if owner == txid then rest else add_id owner rest
    ]

-- `old_seqs`, the sequence of the last input at each outpoint
unfoldable pub old_seqs : List TxInput → Dict Outpoint ℕ → Dict Outpoint ℕ
old_seqs [] d = d
old_seqs (t ∷ ts) d = old_seqs ts (insert (outpoint t) t.sequence d)

-- whether no input that conflicts has a sequence that is too low
unfoldable pub outbids : List TxInput → Dict Outpoint ℕ → Bool
outbids [] seqs = true
outbids (t ∷ ts) seqs =
    let rest = outbids ts seqs in
    elim (lookup (outpoint t) seqs) [
      | none ↦ rest
      | some old ↦ if leb t.sequence old then false else rest
    ]

unfoldable pub mark_spent : List TxInput → Hash → Dict Outpoint Hash → Dict Outpoint Hash
mark_spent [] txid d = d
mark_spent (t ∷ ts) txid d = mark_spent ts txid (insert (outpoint t) txid d)

-- the loop of `_evict_internal` over the inputs
unfoldable pub unmark : List TxInput → Hash → Dict Outpoint Hash → Dict Outpoint Hash
unmark [] txid d = d
unmark (t ∷ ts) txid d = unmark ts txid (elim (lookup (outpoint t) d) [
  | none ↦ d
  | some owner ↦ if owner == txid then erase (outpoint t) d else d
])

-- `MempoolEntry(tx=tx, fee=result.fee, sequence_by_input=seqs)`
abbrev pub entry_for : Tx → ValidationResult → MempoolEntry
entry_for tx result = record {
  tx = tx;
  fee = fee result;
  sequence_by_input = map (λ t. t.sequence) tx.inputs;
}

unfoldable pub insert_entry : Bitcoinx → Tx → ValidationResult → Mempool → Mempool
insert_entry lib tx result m =
    let txid = lib.tx_hash tx in
    record m {
      entries = insert txid (entry_for tx result) m.entries;
      spent_by = mark_spent tx.inputs txid m.spent_by;
    }

-- `_evict_internal` up to its notification
unfoldable pub drop_entry : Hash → MempoolEntry → Mempool → Mempool
drop_entry txid e m = record m {
  entries = erase txid m.entries;
  spent_by = unmark e.tx.inputs txid m.spent_by;
}

unfoldable pub size : Mempool → ℕ
size m = length m.entries

unfoldable pub contains_tx : Hash → Mempool → Bool
contains_tx txid m = contains txid m.entries

unfoldable pub get_tx : Hash → Mempool → Option Tx
get_tx txid m = elim (lookup txid m.entries) [ none ↦ none | some e ↦ some e.tx ]

abbrev pub txs_of : Dict Hash MempoolEntry → List Tx
txs_of [] = []
txs_of ((_, e) ∷ d) = e.tx ∷ txs_of d

unfoldable pub all_txs : Mempool → List Tx
all_txs m = txs_of m.entries

-- `ValidationResult(True, "already in mempool")`
abbrev pub already : ValidationResult
already = record {
  passed = true;
  reason = Reason.already_in_mempool;
  inputs_value = pos 0;
  outputs_value = pos 0;
  spent_inputs = [];
}

module _ {W : Type 0} (lib : Bitcoinx) (notify : Event → Tx → Mempool × W → Mempool × W) where
  -- `evict` and `_evict_internal`
  unfoldable pub evict : Hash → Mempool × W → Option Tx × (Mempool × W)
  evict txid (m, w) = elim (lookup txid m.entries) [
    | none ↦ (none, (m, w))
    | some e ↦ (some e.tx, notify Event.evicted e.tx (drop_entry txid e m, w))
  ]

  -- the admission of a transaction with no conflict
  unfoldable pub admit_straight : Tx → Mempool × W → Result ValidationResult × (Mempool × W)
  admit_straight tx (m, w) =
      let result = validate_tx lib m.store tx false in
      if result.passed
      then (ok result, notify Event.admitted tx (insert_entry lib tx result m, w))
      else (ok result, (m, w))

  -- `self._insert(tx, result)` and the notification behind it
  unfoldable pub put_replacement : Tx → ValidationResult → Mempool × W → Mempool × W
  put_replacement tx result (m, w) = notify Event.replaced tx (insert_entry lib tx result m, w)

  -- the replacement of the one entry that conflicts; the lookup of a missing entry raises
  unfoldable pub admit_replacing : Tx → Hash → Mempool × W → Result ValidationResult × (Mempool × W)
  admit_replacing tx old_txid (m, w) = elim (lookup old_txid m.entries) [
    | none ↦ (err Error.index_error, (m, w))
    | some old ↦
        let result = validate_tx lib m.store tx false in
        if outbids tx.inputs (old_seqs old.tx.inputs [])
        then (if result.passed
            then (ok result, put_replacement tx result (evict old_txid (m, w)).1)
            else (ok result, (m, w)))
        else (ok (refusal Reason.sequence_too_low), (m, w))
  ]

  unfoldable pub admit : Tx → Mempool × W → Result ValidationResult × (Mempool × W)
  admit tx (m, w) =
      let txid = lib.tx_hash tx in
      if contains txid m.entries
      then (ok already, (m, w))
      else elim (conflicts txid tx.inputs m.spent_by) [
        | [] ↦ admit_straight tx (m, w)
        | old_txid ∷ others ↦ elim others [
          | [] ↦ admit_replacing tx old_txid (m, w)
          | _ ∷ _ ↦ (ok (refusal Reason.multi_conflict), (m, w))
        ]
      ]
