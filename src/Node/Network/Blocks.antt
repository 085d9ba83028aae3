-- ===== src/Node/Network/Blocks.antt =====
-- src/channel/node/network.py: a new node, and mining a block. `time.time()` is the argument
-- `timestamp`; a method that raises hands back the node that it leaves.
use bonded_subsat_channel.Base.{
  ℕ, zero, suc, ◌+◌, ◌/◌, ◌%◌, Bool, true, false, Option, none, some, List, [], ◌∷◌, map, replicate,
  Result, ok, err, Error, ◌>>=◌, or_raise, leb, ltb, ◌==◌, if◌then◌else◌,
}
use bonded_subsat_channel.Base.Int.{ℤ, pos, ◌+ℤ◌}
use bonded_subsat_channel.Base.Bytes.{le}
use bonded_subsat_channel.Base.Dict.{nat_eq}
use bonded_subsat_channel.Chain.{Bytes, Hash, Tx}
use bonded_subsat_channel.Crypto.{Crypto}
use bonded_subsat_channel.Node.Block.{merkle_root, serialise_block}
use bonded_subsat_channel.Node.BlockStore.{BlockStore, store_block}
use bonded_subsat_channel.Node.Headers.{
  HeaderStore, header_hash, bits_to_target, build_raw_header, with_genesis, connect, tip,
}
use bonded_subsat_channel.Node.Mempool.{Mempool, Event, all_txs, evict}
use bonded_subsat_channel.Node.Network.{EmbeddedNode, connect_block_with_undo}
use bonded_subsat_channel.Node.Validation.{fee, validate_tx}

abbrev pub regtest_bits : ℕ
regtest_bits = 0x207FFFFF

abbrev pub regtest_version : ℕ
regtest_version = 1

abbrev pub coinbase_reward : ℕ
coinbase_reward = 5000000000

-- the bytes of a height from the low one on, over as many rounds as the height has bits at most
unfoldable pub height_digits : ℕ → ℕ → Bytes
height_digits zero n = []
height_digits (suc fuel) n =
    let rest = height_digits fuel (n / 256) in if n == 0 then [] else (n % 256) ∷ rest

-- `if h_buf[-1] & 0x80: h_buf.append(0)`
unfoldable pub padded_sign : Bytes → Bytes
padded_sign [] = []
padded_sign (b ∷ []) = if ltb 127 b then b ∷ 0 ∷ [] else b ∷ []
padded_sign (b ∷ d ∷ rest) = b ∷ padded_sign (d ∷ rest)

unfoldable pub make_regtest_genesis : Option ℕ → Result Bytes
make_regtest_genesis timestamp =
    let ts : ℕ = elim timestamp [ none ↦ 1700000000 | some t ↦ t ] in
    build_raw_header (pos regtest_version) (replicate 32 0) (replicate 32 0) ts regtest_bits 0

-- `self.headers`, `self.mempool` and the two logs of a new node
unfoldable pub fresh_node : (Bytes → Bytes) → Result EmbeddedNode
fresh_node double_sha256 = do
  genesis ← make_regtest_genesis none
  headers ← with_genesis double_sha256 genesis
  h ← header_hash double_sha256 genesis
  let store : BlockStore = store_block h (pos 0) genesis (record { blocks = []; utxos = [] })
  let pool : Mempool = record { store = store; entries = []; spent_by = [] }
  ok (record { headers = headers; mempool = pool; undo_log = []; created_log = [] })

module _ (c : Crypto) where
  open c use {lib, push_data}

  unfoldable pub make_coinbase : ℤ → Bytes → ℕ → Bytes → Tx
  make_coinbase payout_value payout_script height extra =
      let h_bytes = padded_sign (height_digits height height) in
      let script_sig = push_data [] h_bytes in
      record {
        version = 1;
        inputs =
            record {
              prev_hash = 0;
              prev_idx = 0xFFFFFFFF;
              script_sig = elim extra [ [] ↦ script_sig | b ∷ bs ↦ push_data script_sig (b ∷ bs) ];
              sequence = 0xFFFFFFFF;
            }
            ∷ [];
        outputs = record { value = payout_value; script_pubkey = payout_script } ∷ [];
        locktime = 0;
      }

  -- the fees of the transactions that validate
  unfoldable pub fee_total : BlockStore → ℤ → List Tx → ℤ
  fee_total s total [] = total
  fee_total s total (tx ∷ txs) =
      let r = validate_tx lib s tx false in
      fee_total s (if r.passed then total +ℤ fee r else total) txs

module _ (c : Crypto) (double_sha256 : Bytes → Bytes) where
  open c use {lib}

  module _ (prev root : Bytes) (timestamp : ℕ) where
    -- the loop over the nonces, with the number of those left
    unfoldable pub mine : ℕ → ℕ → Result (Bytes × Hash)
    mine zero nonce = err Error.runtime_error
    mine (suc left) nonce = do
      raw ← build_raw_header (pos regtest_version) prev root timestamp regtest_bits nonce
      h ← header_hash double_sha256 raw
      elim (leb h (bits_to_target regtest_bits)) [
        | true ↦ ok (raw, h)
        | false ↦ mine left (nonce + 1)
      ]

  module _ {W : Type 0} (tx_bytes : Tx → Bytes) (read_tx : Bytes → Result (Tx × Bytes))
      (notify : Event → Tx → Mempool × W → Mempool × W) where
    -- `self.mempool.evict(tx.hash())` for each transaction
    unfoldable pub evict_all : List Tx → EmbeddedNode × W → EmbeddedNode × W
    evict_all [] s = s
    evict_all (tx ∷ txs) (node, w) =
        let after = (evict lib notify (lib.tx_hash tx) (node.mempool, w)).1 in
        evict_all txs (record node { mempool = after.0 }, after.1)

    -- `self._connect_block_with_undo(h, height, txs)` and the evictions behind it
    unfoldable pub connect_and_evict :
        Hash → ℤ → List Tx → List Tx → EmbeddedNode × W → EmbeddedNode × W
    connect_and_evict h height txs included (node, w) =
        evict_all included (connect_block_with_undo lib h height txs node, w)

    -- `self.blockstore.store_block(...)` for a block that may not serialise
    unfoldable pub store_raw : Hash → ℤ → Bytes → List Tx → EmbeddedNode → Result EmbeddedNode
    store_raw h height raw_header txs node = do
      raw ← serialise_block tx_bytes read_tx raw_header txs
      let pool = node.mempool
      ok (record node { mempool = record pool { store = store_block h height raw pool.store } })

    -- the block that `generate_block` finds, up to its connection to the headers
    unfoldable pub mined_block :
        Bytes
        → Bool
        → Bytes
        → ℕ
        → EmbeddedNode
        → Result (Bytes × Hash × ℕ × List Tx × List Tx × HeaderStore)
    mined_block payout_script include_mempool extra timestamp node = do
      t ← tip double_sha256 node.headers
      let included = if include_mempool then all_txs node.mempool else []
      let value = fee_total c node.mempool.store (pos 0) included
      let coinbase =
          make_coinbase c (pos coinbase_reward +ℤ value) payout_script (t.height + 1) extra
      let txs = coinbase ∷ included
      root ←
          or_raise (merkle_root double_sha256 (map (λ tx. le 32 (lib.tx_hash tx)) txs))
            Error.runtime_error
      (raw, h) ← mine (double_sha256 t.raw) root timestamp 1000001 0
      (_, headers) ← connect double_sha256 node.headers raw
      ok (raw, h, t.height + 1, txs, included, headers)

    unfoldable pub generate_block :
        Bytes → Bool → Bytes → ℕ → EmbeddedNode × W → Result (Hash × List Tx) × (EmbeddedNode × W)
    generate_block payout_script include_mempool extra timestamp (node, w) =
        elim (mined_block payout_script include_mempool extra timestamp node) [
          | err e ↦ (err e, (node, w))
          | ok found ↦
              let (raw, h, height, txs, included, headers) = found in
              let connected : EmbeddedNode = record node { headers = headers } in
              elim (store_raw h (pos height) raw txs connected) [
                | err e ↦ (err e, (connected, w))
                | ok stored ↦
                    (ok (h, txs), connect_and_evict h (pos height) txs included (stored, w))
              ]
        ]
