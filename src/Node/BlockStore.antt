-- ===== src/Node/BlockStore.antt =====
-- src/channel/node/blockstore.py: the tables of blocks and of unspent outputs. A table is the
-- dictionary from its primary key to the rest of the row, and a transaction of SQLite, which commits
-- as a whole under the store's lock, is one step.
use bonded_subsat_channel.Base.{length, ℕ, ◌+◌, Option, none, some, List, [], ◌∷◌, if◌then◌else◌}
use bonded_subsat_channel.Base.Int.{ℤ}
use bonded_subsat_channel.Base.Bytes.{same_bytes}
use bonded_subsat_channel.Base.Dict.{Dict, lookup, insert, erase, outpoint_eq, nat_eq}
use bonded_subsat_channel.Chain.{Bytes, Hash, Outpoint, Tx, TxInput, TxOutput, Bitcoinx}

pub record UtxoEntry : Type 0 where
  pub txid : Hash
  pub vout : ℕ
  pub value : ℤ
  pub script_pubkey : Bytes
  pub height : ℤ

unfoldable pub as_txoutput : UtxoEntry → TxOutput
as_txoutput e = record { value = e.value; script_pubkey = e.script_pubkey }

-- a row of the table `utxos` behind its key
pub record Row : Type 0 where
  pub value : ℤ
  pub script_pubkey : Bytes
  pub height : ℤ

pub record BlockStore : Type 0 where
  pub blocks : Dict Hash (ℤ × Bytes)
  pub utxos : Dict Outpoint Row

unfoldable pub store_block : Hash → ℤ → Bytes → BlockStore → BlockStore
unfolding insert
store_block h height raw s = record s { blocks = insert h (height, raw) s.blocks }

unfoldable pub get_block : Hash → BlockStore → Option Bytes
unfolding lookup
get_block h s = elim (lookup h s.blocks) [ none ↦ none | some (_, raw) ↦ some raw ]

unfoldable pub block_height : Hash → BlockStore → Option ℤ
unfolding lookup
block_height h s = elim (lookup h s.blocks) [ none ↦ none | some (height, _) ↦ some height ]

abbrev pub entry_of : Outpoint → Row → UtxoEntry
entry_of (txid, vout) r = record {
  txid = txid;
  vout = vout;
  value = r.value;
  script_pubkey = r.script_pubkey;
  height = r.height;
}

unfoldable pub add_utxo : UtxoEntry → BlockStore → BlockStore
unfolding insert
add_utxo e s = record s {
  utxos =
      insert (e.txid, e.vout)
        (record { value = e.value; script_pubkey = e.script_pubkey; height = e.height }) s.utxos;
}

unfoldable pub get_utxo : Hash → ℕ → BlockStore → Option UtxoEntry
unfolding lookup
get_utxo txid vout s = elim (lookup (txid, vout) s.utxos) [
  | none ↦ none
  | some r ↦ some (entry_of (txid, vout) r)
]

unfoldable pub spend_utxo : Hash → ℕ → BlockStore → Option UtxoEntry × BlockStore
unfolding lookup erase
spend_utxo txid vout s = elim (lookup (txid, vout) s.utxos) [
  | none ↦ (none, s)
  | some r ↦ (some (entry_of (txid, vout) r), record s { utxos = erase (txid, vout) s.utxos })
]

unfoldable pub rows_for_script : Bytes → Dict Outpoint Row → List UtxoEntry
unfolding same_bytes
rows_for_script script [] = []
rows_for_script script ((key, r) ∷ rows) =
    let rest = rows_for_script script rows in
    if same_bytes r.script_pubkey script then entry_of key r ∷ rest else rest

unfoldable pub utxos_for_script : Bytes → BlockStore → List UtxoEntry
unfolding rows_for_script
utxos_for_script script s = rows_for_script script s.utxos

unfoldable pub delete_inputs : List TxInput → Dict Outpoint Row → Dict Outpoint Row
unfolding erase
delete_inputs [] u = u
delete_inputs (t ∷ ts) u = delete_inputs ts (erase (t.prev_hash, t.prev_idx) u)

unfoldable pub insert_outputs : Hash → ℕ → ℤ → List TxOutput → Dict Outpoint Row → Dict Outpoint Row
unfolding insert
insert_outputs txid i height [] u = u
insert_outputs txid i height (o ∷ os) u = insert_outputs txid (i + 1) height os (
    insert (txid, i) (record { value = o.value; script_pubkey = o.script_pubkey; height = height })
      u)

unfoldable pub utxo_count : BlockStore → ℕ
utxo_count s = length s.utxos

-- the deletion of a transaction's outputs, from output `i` on
unfoldable pub delete_outputs : Hash → ℕ → List TxOutput → Dict Outpoint Row → Dict Outpoint Row
unfolding erase
delete_outputs txid i [] u = u
delete_outputs txid i (o ∷ os) u = delete_outputs txid (i + 1) os (erase (txid, i) u)

-- the loop over `spent_inputs`
unfoldable pub restore_inputs : Dict Outpoint UtxoEntry → Dict Outpoint Row → Dict Outpoint Row
unfolding insert
restore_inputs [] u = u
restore_inputs ((key, e) ∷ rest) u =
    restore_inputs rest (
      insert key (record { value = e.value; script_pubkey = e.script_pubkey; height = e.height }) u)

module _ (lib : Bitcoinx) where
  -- one round of the loop over the block's transactions
  unfoldable pub connect_tx : ℤ → Tx → Dict Outpoint Row → Dict Outpoint Row
  unfolding delete_inputs insert_outputs
  connect_tx height tx u =
      insert_outputs (lib.tx_hash tx) 0 height tx.outputs
        (if lib.is_coinbase tx then u else delete_inputs tx.inputs u)

  unfoldable pub connect_txs : ℤ → List Tx → Dict Outpoint Row → Dict Outpoint Row
  unfolding connect_tx
  connect_txs height [] u = u
  connect_txs height (tx ∷ txs) u = connect_txs height txs (connect_tx height tx u)

  unfoldable pub connect_block_utxos : ℤ → List Tx → BlockStore → BlockStore
  unfolding connect_txs
  connect_block_utxos height txs s = record s { utxos = connect_txs height txs s.utxos }

  unfoldable pub disconnect_txs : List Tx → Dict Outpoint Row → Dict Outpoint Row
  unfolding delete_outputs
  disconnect_txs [] u = u
  disconnect_txs (tx ∷ txs) u = disconnect_txs txs (delete_outputs (lib.tx_hash tx) 0 tx.outputs u)

  unfoldable pub disconnect_block_utxos :
      List Tx → Dict Outpoint UtxoEntry → BlockStore → BlockStore
  unfolding disconnect_txs restore_inputs
  disconnect_block_utxos txs spent_inputs s = record s {
    utxos = restore_inputs spent_inputs (disconnect_txs txs s.utxos);
  }
