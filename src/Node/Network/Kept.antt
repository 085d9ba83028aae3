-- ===== src/Node/Network/Kept.antt =====
-- What `generate_block` of src/channel/node/network.py keeps of the headers, whatever its outcome.
use mathlib.Core.Path.{subst}
use bonded_subsat_channel.Base.{
  ℕ, ◌+◌, ◌≡◌, inl, inr, Bool, Option, List, [], ◌∷◌, map, Result, ok, Error, or_raise,
  Result-cases, >>=-eq-ok, if◌then◌else◌,
}
use bonded_subsat_channel.Base.Int.{pos, ◌+ℤ◌}
use bonded_subsat_channel.Base.Bytes.{le}
use bonded_subsat_channel.Base.Dict.{nat_eq}
use bonded_subsat_channel.Chain.{Bytes, Hash, Tx}
use bonded_subsat_channel.Crypto.{Crypto}
use bonded_subsat_channel.Node.Block.{merkle_root}
use bonded_subsat_channel.Node.Headers.{Header, HeaderStore, connect, tip}
use bonded_subsat_channel.Node.Headers.Connect.{connect-ConnectOutcome}
use bonded_subsat_channel.Node.Network.Reorg.{store_raw-headers, connect-Kept}
use bonded_subsat_channel.Node.Network.Mining.{evict_all-headers, ok_injective}
use bonded_subsat_channel.Node.Headers.Invariant.{Inv}
use bonded_subsat_channel.Node.Mempool.{Mempool, Event, all_txs}
use bonded_subsat_channel.Node.Network.{EmbeddedNode, connect_block_with_undo}
use bonded_subsat_channel.Node.Network.Blocks.{
  coinbase_reward, make_coinbase, fee_total, mine, connect_and_evict, store_raw, mined_block,
  generate_block,
}

module _ (c : Crypto) (double_sha256 : Bytes → Bytes) where
  open c use {lib}

  module _ {W : Type 0} (tx_bytes : Tx → Bytes) (read_tx : Bytes → Result (Tx × Bytes))
      (notify : Event → Tx → Mempool × W → Mempool × W) (payout_script : Bytes)
      (include_mempool : Bool) (extra : Bytes) (timestamp : ℕ) where
    mined_block-connects :
        (node : EmbeddedNode) {found : Bytes × Hash × ℕ × List Tx × List Tx × HeaderStore}
        → mined_block c double_sha256 tx_bytes read_tx notify payout_script include_mempool extra
            timestamp node
          ≡ ok found
        → (e : Header) × (connect double_sha256 node.headers found.0 ≡ ok (e, found.5))
    unfolding mined_block
    mined_block-connects node e =
        let (t, _, e1) = >>=-eq-ok (tip double_sha256 node.headers) _ e in
        let picked : List Tx = (if include_mempool then all_txs node.mempool else []) in
        let value = fee_total c node.mempool.store (pos 0) picked in
        let block : List Tx =
          make_coinbase c (pos coinbase_reward +ℤ value) payout_script (t.height + 1) extra
          ∷ picked in
        let root_of : Option Bytes =
          merkle_root double_sha256 (map (λ tx. le 32 (lib.tx_hash tx)) block) in
        let (root, _, e3) = >>=-eq-ok (or_raise root_of Error.runtime_error) _ e1 in
        let (mined, _, e5) =
          >>=-eq-ok (mine c double_sha256 (double_sha256 t.raw) root timestamp 1000001 0) _ e3 in
        let (after, e6, e7) = >>=-eq-ok (connect double_sha256 node.headers mined.0) _ e5 in
        subst (λ x. (e : Header) × (connect double_sha256 node.headers x.0 ≡ ok (e, x.5)))
          (ok_injective c double_sha256 e7) (after.0, e6)

    -- `generate_block` keeps the headers linked up, whether it finds a block or raises.
    pub generate_block-Inv :
        (node : EmbeddedNode) (w : W)
        → Inv double_sha256 node.headers
        → Inv double_sha256
            (generate_block c double_sha256 tx_bytes read_tx notify payout_script include_mempool
              extra timestamp
              (node, w)).1.0.headers
    unfolding generate_block connect_and_evict connect_block_with_undo
    generate_block-Inv node w v =
        elim (Result-cases (
          mined_block c double_sha256 tx_bytes read_tx notify payout_script include_mempool extra
            timestamp node)) [
              | inr (raised, fails) ↦ rw (generate_block, fails) v
              | inl ((raw, k, height, block, included, headers), finds) ↦
                  let connected : EmbeddedNode = record node { headers = headers } in
                  let (e, goes) = mined_block-connects node finds in
                  let u : Inv double_sha256 headers = rw goes at (
                    connect-Kept double_sha256 node.headers v raw
                      (connect-ConnectOutcome double_sha256 node.headers v raw)) in
                  elim (Result-cases (
                    store_raw c double_sha256 tx_bytes read_tx notify k (pos height) raw block
                      connected)) [
                        | inr (raised, fails) ↦ rw (generate_block, finds, fails) u
                        | inl (stored, stores) ↦
                            rw
                              (
                                generate_block,
                                finds,
                                stores,
                                evict_all-headers c double_sha256 tx_bytes read_tx notify included
                                    (connect_block_with_undo lib k (pos height) block stored) w,
                                store_raw-headers c double_sha256 tx_bytes read_tx notify k k
                                    (pos height) raw block connected stores,
                              )
                              u
                      ]
            ]
