-- ===== src/Node/Network.antt =====
-- src/channel/node/network.py: the node of a local network, and what a block does to the unspent
-- outputs and back. `blockstore` of the node is the store that its mempool reads, so it stands there
-- once.
pub mod Undo
pub mod Blocks
pub mod Forks
pub mod Reorg
pub mod Tips
pub mod Mining
pub mod Kept
use bonded_subsat_channel.Base.{
  ℕ, ◌+◌, Option, none, some, List, [], ◌∷◌, ◌++◌, ◌>>=◌, if◌then◌else◌,
}
use bonded_subsat_channel.Base.Int.{ℤ}
use bonded_subsat_channel.Base.Dict.{Dict, lookup, insert, erase, nat_eq, outpoint_eq}
use bonded_subsat_channel.Chain.{Hash, Outpoint, Tx, TxInput, TxOutput, Bitcoinx}
use bonded_subsat_channel.Node.BlockStore.{
  BlockStore, UtxoEntry, get_utxo, add_utxo, spend_utxo, connect_block_utxos,
}
use bonded_subsat_channel.Node.Headers.{HeaderStore}
use bonded_subsat_channel.Node.Mempool.{Mempool}

pub record EmbeddedNode : Type 0 where
  pub headers : HeaderStore
  pub mempool : Mempool
  pub undo_log : Dict Hash (List UtxoEntry)
  pub created_log : Dict Hash (List Outpoint)

-- the entries that the inputs find
unfoldable pub undo_inputs : BlockStore → List TxInput → List UtxoEntry
undo_inputs s [] = []
undo_inputs s (t ∷ ts) =
    let rest = undo_inputs s ts in
    elim (get_utxo t.prev_hash t.prev_idx s) [ none ↦ rest | some e ↦ e ∷ rest ]

-- `(txid, i)` for each output, from output `i` on
unfoldable pub created_outputs : Hash → ℕ → List TxOutput → List Outpoint
created_outputs txid i [] = []
created_outputs txid i (o ∷ os) = (txid, i) ∷ created_outputs txid (i + 1) os

-- the loops of `_disconnect_block`
unfoldable pub remove_created : List Outpoint → BlockStore → BlockStore
remove_created [] s = s
remove_created ((txid, vout) ∷ ops) s = elim (get_utxo txid vout s) [
  | none ↦ remove_created ops s
  | some _ ↦ remove_created ops (spend_utxo txid vout s).1
]

unfoldable pub restore : List UtxoEntry → BlockStore → BlockStore
restore [] s = s
restore (e ∷ es) s = restore es (add_utxo e s)

-- `self.undo_log.get(block_hash, [])`
abbrev pub logged {ℓ} : {A : Type ℓ} → Option (List A) → List A
logged none = []
logged (some xs) = xs

module _ (lib : Bitcoinx) where
  unfoldable pub undo_of : BlockStore → List Tx → List UtxoEntry
  undo_of s [] = []
  undo_of s (tx ∷ txs) =
      let rest = undo_of s txs in
      if lib.is_coinbase tx then rest else undo_inputs s tx.inputs ++ rest

  unfoldable pub created_of : List Tx → List Outpoint
  created_of [] = []
  created_of (tx ∷ txs) = created_outputs (lib.tx_hash tx) 0 tx.outputs ++ created_of txs

  unfoldable pub connect_block_with_undo : Hash → ℤ → List Tx → EmbeddedNode → EmbeddedNode
  connect_block_with_undo h height txs node =
      let s = node.mempool.store in
      record node {
        mempool = record node.mempool { store = connect_block_utxos lib height txs s };
        undo_log = insert h (undo_of s txs) node.undo_log;
        created_log = insert h (created_of txs) node.created_log;
      }

unfoldable pub disconnect_block : Hash → EmbeddedNode → EmbeddedNode
disconnect_block h node =
    let created = logged (lookup h node.created_log) in
    let undo = logged (lookup h node.undo_log) in
    record node {
      mempool = record node.mempool {
        store = restore undo (remove_created created node.mempool.store);
      };
      undo_log = erase h node.undo_log;
      created_log = erase h node.created_log;
    }
