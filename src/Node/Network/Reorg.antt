-- ===== src/Node/Network/Reorg.antt =====
-- The walks of a reorganisation in src/channel/node/network.py.
use bonded_subsat_channel.Base.{
  ℕ, zero, suc, ◌≡◌, refl, sym, ap, inl, inr, true, false, Option, some, List, [], ◌∷◌, Result, ok,
  err, ◌==◌, arith, Option-cases, Bool-cases, Result-cases,
}
use bonded_subsat_channel.Base.Int.{ℤ, pos}
use bonded_subsat_channel.Base.Dict.{lookup, nat_eq}
use bonded_subsat_channel.Base.Bytes.{from_le}
use bonded_subsat_channel.Chain.{Bytes, Hash, Tx}
use bonded_subsat_channel.Crypto.{Crypto}
use bonded_subsat_channel.Node.Block.{serialise_block}
use bonded_subsat_channel.Node.Headers.{Header, HeaderStore, prev_hash, connect}
use bonded_subsat_channel.Node.Headers.Invariant.{Inv}
use bonded_subsat_channel.Node.Headers.Connect.{
  ConnectOutcome, connect-ConnectOutcome, known, joined, refused,
}
use bonded_subsat_channel.Node.Mempool.{Mempool, Event}
use bonded_subsat_channel.Node.Network.{EmbeddedNode}
use bonded_subsat_channel.Node.Network.Forks.{
  path_walk, path_to, reorg_utxos, apply_block, accept_header, accept_block,
}
use bonded_subsat_channel.Node.Network.Blocks.{store_raw}

module _ (double_sha256 : Bytes → Bytes) where
  -- the store of a result, if there is one, has its entries linked up
  abbrev pub Kept : Result (Header × HeaderStore) → Type 0
  Kept (err raised) = Unit {0}
  Kept (ok found) = Inv double_sha256 found.1

  pub connect-Kept :
      (s : HeaderStore) (v : Inv double_sha256 s) (raw : Bytes) {r : Result (Header × HeaderStore)}
      → ConnectOutcome double_sha256 s v raw r
      → Kept r
  connect-Kept s v raw (known h e hashes there) = v
  connect-Kept s v raw (joined h e s' hashes fresh same k j) = j.inv
  connect-Kept s v raw (refused why) = tt

-- the headers of a node, if there is one
abbrev headers_of : HeaderStore → Result EmbeddedNode → HeaderStore
headers_of default (err raised) = default
headers_of default (ok node) = node.headers

module _ (c : Crypto) (double_sha256 : Bytes → Bytes) where
  module _ (headers : HeaderStore) (v : Inv double_sha256 headers) (genesis : Hash) where
    path_walk_ends :
        (n : ℕ) (h : Hash) (e : Header)
        → lookup h headers.by_hash ≡ some e
        → e.height ≡ n
        → (hs : List Hash) × (path_walk c double_sha256 (suc n) headers genesis (some e) ≡ some hs)
    unfolding path_walk
    path_walk_ends zero h e there high =
        let low : (e.height == 0) ≡ true = ground (arith, high) in (genesis ∷ [], rw low)
    path_walk_ends (suc n) h e there high = elim (v.links h e there).linked [
      | inl low ↦ absurd (omega arith)
      | inr k ↦
          let above : (e.height == 0) ≡ false = ground (arith, high) in
          let (hs, walks) =
            path_walk_ends n (prev_hash e.raw) k.parent k.found (omega (arith, k.higher)) in
          (from_le (double_sha256 e.raw) ∷ hs, rw (above, k.found, walks))
    ]

    path_to_ends :
        (h : Hash) → (hs : List Hash) × (path_to c double_sha256 headers genesis h ≡ some hs)
    unfolding path_to
    path_to_ends h = elim (Option-cases (lookup h headers.by_hash)) [
      | inl missing ↦ (genesis ∷ [], rw (path_to, missing))
      | inr (e, there) ↦
          let (hs, walks) = path_walk_ends e.height h e there refl in
          (hs, rw (path_to, there, walks))
    ]

  module _ {W : Type 0} (tx_bytes : Tx → Bytes) (read_tx : Bytes → Result (Tx × Bytes))
      (notify : Event → Tx → Mempool × W → Mempool × W) (genesis : Hash) where
    -- what `accept_block` hands back, or `none` for a walk that does not end
    abbrev Outcome : Type 0
    Outcome = Option (Result (Unit {0}) × (EmbeddedNode × W))

    reorg_utxos_ends :
        (from_tip to_tip : Hash) (node : EmbeddedNode) (w : W)
        → Inv double_sha256 node.headers
        → (r : Result (Unit {0}) × (EmbeddedNode × W)) × (reorg_utxos c double_sha256 tx_bytes
              read_tx notify genesis from_tip to_tip
              (node, w)
            ≡ some r)
    unfolding reorg_utxos
    reorg_utxos_ends from_tip to_tip node w v =
        let (old_path, olds) = path_to_ends node.headers v genesis from_tip in
        let (new_path, news) = path_to_ends node.headers v genesis to_tip in
        rw (reorg_utxos, olds, news) (_, refl)

    apply_block_ends :
        (prev_tip h : Hash) (e : Header) (txs : List Tx) (node : EmbeddedNode) (w : W)
        → Inv double_sha256 node.headers
        → (r : Result (Unit {0}) × (EmbeddedNode × W)) × (apply_block c double_sha256 tx_bytes
              read_tx notify genesis prev_tip h e txs
              (node, w)
            ≡ some r)
    unfolding apply_block
    apply_block_ends prev_tip h e txs node w v = elim (Bool-cases (node.headers.tip_hash == h)) [
      | inr stays ↦ rw (apply_block, stays) (_, refl)
      | inl moved ↦ elim (Bool-cases (prev_tip == prev_hash e.raw)) [
        | inl extends ↦ rw (apply_block, moved, extends) (_, refl)
        | inr forks ↦
            let (r, ends) = reorg_utxos_ends prev_tip h node w v in
            (r, rw (apply_block, moved, forks) ends)
      ]
    ]

    pub store_raw-headers :
        (h : Hash) (height : ℤ) (raw_header : Bytes) (txs : List Tx) (node : EmbeddedNode)
        {stored : EmbeddedNode}
        → store_raw c double_sha256 tx_bytes read_tx notify h height raw_header txs node ≡ ok stored
        → stored.headers ≡ node.headers
    unfolding store_raw
    store_raw-headers h height raw_header txs node e =
        elim (Result-cases (serialise_block tx_bytes read_tx raw_header txs)) [
          | inl (raw, writes) ↦ sym (ap (headers_of node.headers) (rw (store_raw, writes) at e))
          | inr (raised, fails) ↦ let never = rw (store_raw, fails) at e in absurd (cc never)
        ]

    accept_header-Inv :
        (raw_header : Bytes) (txs : List Tx) (node : EmbeddedNode)
        → Inv double_sha256 node.headers
        → Inv double_sha256
            (accept_header c double_sha256 tx_bytes read_tx notify raw_header txs node).1.headers
    unfolding accept_header
    accept_header-Inv raw_header txs node v =
        elim (Result-cases (connect double_sha256 node.headers raw_header)) [
          | inr (raised, fails) ↦ rw (accept_header, fails) v
          | inl (found, goes) ↦
              let u : Inv double_sha256 found.1 = rw goes at (
                connect-Kept double_sha256 node.headers v raw_header
                  (connect-ConnectOutcome double_sha256 node.headers v raw_header)) in
              let h : Hash = from_le (double_sha256 raw_header) in
              let connected : EmbeddedNode = record node { headers = found.1 } in
              elim (Option-cases (lookup h found.1.by_hash)) [
                | inl missing ↦ rw (accept_header, goes, missing) u
                | inr (e, there) ↦
                    elim (Result-cases (
                      store_raw c double_sha256 tx_bytes read_tx notify h (pos e.height) raw_header
                        txs connected)) [
                          | inr (raised, fails) ↦ rw (accept_header, goes, there, fails) u
                          | inl (stored, stores) ↦
                              rw
                                (
                                  accept_header,
                                  goes,
                                  there,
                                  stores,
                                  store_raw-headers h (pos e.height) raw_header txs connected
                                      stores,
                                )
                                u
                        ]
              ]
        ]

    -- On a node whose headers are linked up `accept_block` comes to an end, through a
    -- reorganisation too.
    pub accept_block_ends :
        (raw_header : Bytes) (txs : List Tx) (node : EmbeddedNode) (w : W)
        → Inv double_sha256 node.headers
        → (r : Result (Unit {0}) × (EmbeddedNode × W)) × (accept_block c double_sha256 tx_bytes
              read_tx notify genesis raw_header txs
              (node, w)
            ≡ some r)
    unfolding accept_block
    accept_block_ends raw_header txs node w v =
        let after = (accept_header c double_sha256 tx_bytes read_tx notify raw_header txs node).1 in
        let u = accept_header-Inv raw_header txs node v in
        elim (Result-cases
          (accept_header c double_sha256 tx_bytes read_tx notify raw_header txs node).0) [
            | inr (raised, fails) ↦ rw (accept_block, fails) (_, refl)
            | inl (found, goes) ↦
                rw (accept_block, goes)
                  (apply_block_ends node.headers.tip_hash found.0 found.1 txs after w u)
          ]
