-- ===== src/Node/Network/Forks.antt =====
-- src/channel/node/network.py: accepting a block, and moving the unspent outputs to a heavier chain.
-- A method that raises hands back the node that it leaves.
use bonded_subsat_channel.Base.{
  ℕ, zero, suc, Option, none, some, List, [], ◌∷◌, Result, ok, err, Error, ◌>>=◌, or_raise, ◌==◌,
  if◌then◌else◌, mem,
}
use bonded_subsat_channel.Base.Int.{pos}
use bonded_subsat_channel.Base.Bytes.{from_le}
use bonded_subsat_channel.Base.Dict.{lookup, nat_eq}
use bonded_subsat_channel.Chain.{Bytes, Hash, Tx}
use bonded_subsat_channel.Crypto.{Crypto}
use bonded_subsat_channel.Node.Block.{parse_block}
use bonded_subsat_channel.Node.BlockStore.{get_block}
use bonded_subsat_channel.Node.Headers.{Header, HeaderStore, prev_hash, connect}
use bonded_subsat_channel.Node.Mempool.{Mempool, Event}
use bonded_subsat_channel.Node.Network.{EmbeddedNode, disconnect_block}
use bonded_subsat_channel.Node.Network.Blocks.{connect_and_evict, store_raw}

-- the hashes of `xs` before `stop`
unfoldable pub until : Hash → List Hash → List Hash
until stop [] = []
until stop (x ∷ xs) = let rest = until stop xs in if x == stop then [] else x ∷ rest

-- the first hash of `new_path` in `old_path`
unfoldable pub ancestor_of : List Hash → List Hash → Option Hash
ancestor_of old_path [] = none
ancestor_of old_path (h ∷ hs) =
    let rest = ancestor_of old_path hs in if mem h old_path then some h else rest

abbrev pub reverse_onto : List Hash → List Hash → List Hash
reverse_onto [] acc = acc
reverse_onto (x ∷ xs) acc = reverse_onto xs (x ∷ acc)

unfoldable pub disconnect_all : List Hash → EmbeddedNode → EmbeddedNode
disconnect_all [] node = node
disconnect_all (h ∷ hs) node = disconnect_all hs (disconnect_block h node)

module _ (c : Crypto) (double_sha256 : Bytes → Bytes) where
  open c use {lib}

  -- `while cur is not None and cur.height > 0`, and the genesis behind it; `none` is a loop that has
  -- not ended when the fuel is out, and the hash of an entry is that of its 80 bytes
  unfoldable pub path_walk : ℕ → HeaderStore → Hash → Option Header → Option (List Hash)
  path_walk fuel headers genesis none = some (genesis ∷ [])
  path_walk zero headers genesis (some e) = none
  path_walk (suc fuel) headers genesis (some e) =
      let rest = path_walk fuel headers genesis (lookup (prev_hash e.raw) headers.by_hash) in
      if e.height == 0
      then some (genesis ∷ [])
      else elim rest [ none ↦ none | some hs ↦ some (from_le (double_sha256 e.raw) ∷ hs) ]

  -- `path_to`, with a round for each height
  unfoldable pub path_to : HeaderStore → Hash → Hash → Option (List Hash)
  path_to headers genesis h = elim (lookup h headers.by_hash) [
    | none ↦ some (genesis ∷ [])
    | some e ↦ path_walk (suc e.height) headers genesis (some e)
  ]

  module _ {W : Type 0} (tx_bytes : Tx → Bytes) (read_tx : Bytes → Result (Tx × Bytes))
      (notify : Event → Tx → Mempool × W → Mempool × W) where
    -- the loop that connects the blocks of the new chain
    unfoldable pub connect_chain :
        List Hash → EmbeddedNode × W → Result (Unit {0}) × (EmbeddedNode × W)
    connect_chain [] s = (ok tt, s)
    connect_chain (h ∷ hs) (node, w) =
        let block : Result (List Tx × ℕ) = (do
          raw_block ← or_raise (get_block h node.mempool.store) Error.runtime_error
          (_, txs) ← parse_block tx_bytes read_tx raw_block
          e ← or_raise (lookup h node.headers.by_hash) Error.index_error
          ok (txs, e.height)) in
        elim block [
          | err e ↦ (err e, (node, w))
          | ok found ↦ connect_chain hs (
              connect_and_evict c double_sha256 tx_bytes read_tx notify h (pos found.1) found.0
                found.0 (node, w))
        ]

    -- `_reorg_utxos`; the outer `none` is a walk that has not ended
    unfoldable pub reorg_utxos :
        Hash → Hash → Hash → EmbeddedNode × W → Option (Result (Unit {0}) × (EmbeddedNode × W))
    reorg_utxos genesis from_tip to_tip (node, w) = elim (path_to node.headers genesis from_tip) [
      | none ↦ none
      | some old_path ↦ elim (path_to node.headers genesis to_tip) [
        | none ↦ none
        | some new_path ↦ some (elim (ancestor_of old_path new_path) [
          | none ↦ (err Error.runtime_error, (node, w))
          | some ancestor ↦
              connect_chain (reverse_onto (until ancestor new_path) [])
                (disconnect_all (until ancestor old_path) node, w)
        ])
      ]
    ]

    -- what `accept_block` does once the block is stored, by the tip before and after
    unfoldable pub apply_block :
        Hash
        → Hash
        → Hash
        → Header
        → List Tx
        → EmbeddedNode × W
        → Option (Result (Unit {0}) × (EmbeddedNode × W))
    apply_block genesis prev_tip h e txs (node, w) =
        if node.headers.tip_hash == h
        then (if prev_tip == prev_hash e.raw
            then some (
              ok tt,
              connect_and_evict c double_sha256 tx_bytes read_tx notify h (pos e.height) txs txs
                  (node, w),
            )
            else reorg_utxos genesis prev_tip h (node, w))
        else some (ok tt, (node, w))

    -- the header and the bytes of a block go in
    unfoldable pub accept_header :
        Bytes → List Tx → EmbeddedNode → Result (Hash × Header) × EmbeddedNode
    accept_header raw_header txs node = elim (connect double_sha256 node.headers raw_header) [
      | err e ↦ (err e, node)
      | ok found ↦
          let h = from_le (double_sha256 raw_header) in
          let connected : EmbeddedNode = record node { headers = found.1 } in
          elim (lookup h found.1.by_hash) [
            | none ↦ (err Error.index_error, connected)
            | some e ↦
                elim (store_raw c double_sha256 tx_bytes read_tx notify h (pos e.height) raw_header
                  txs connected) [ err e ↦ (err e, connected) | ok stored ↦ (ok (h, e), stored) ]
          ]
    ]

    unfoldable pub accept_block :
        Hash → Bytes → List Tx → EmbeddedNode × W → Option (Result (Unit {0}) × (EmbeddedNode × W))
    accept_block genesis raw_header txs (node, w) =
        let (answer, after) = accept_header raw_header txs node in
        elim answer [
          | err e ↦ some (err e, (after, w))
          | ok found ↦ apply_block genesis node.headers.tip_hash found.0 found.1 txs (after, w)
        ]
