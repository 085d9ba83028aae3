-- ===== src/Node/Network/Mining.antt =====
-- Mining in src/channel/node/network.py: the block that `generate_block` finds becomes the tip.
use mathlib.Core.Path.{subst}
use bonded_subsat_channel.Base.{
  ℕ, zero, suc, ◌+◌, ◌≡◌, ◌∙◌, refl, sym, ap, inl, inr, Bool, none, some, Option, List, [], ◌∷◌,
  map, Result, ok, Error, or_raise, leb, Bool-cases, Result-cases, >>=-eq-ok, if◌then◌else◌,
}
use bonded_subsat_channel.Base.Int.{pos, ◌+ℤ◌}
use bonded_subsat_channel.Base.Bytes.{le}
use bonded_subsat_channel.Base.Dict.{lookup, nat_eq}
use bonded_subsat_channel.Chain.{Bytes, Hash, Tx}
use bonded_subsat_channel.Crypto.{Crypto}
use bonded_subsat_channel.Node.Block.{merkle_root}
use bonded_subsat_channel.Node.Headers.{
  Header, HeaderStore, header_hash, prev_hash, header_merkle_root, bits_to_target, build_raw_header,
  connect, tip,
}
use bonded_subsat_channel.Node.Headers.Connect.{connect-ConnectOutcome}
use bonded_subsat_channel.Node.Network.Tips.{header_hash-from_le, connect-on_tip}
use bonded_subsat_channel.Node.Network.Reorg.{store_raw-headers}
use bonded_subsat_channel.Node.Headers.Fields.{HoldsFields, build_raw_header-HoldsFields}
use bonded_subsat_channel.Node.Headers.Invariant.{Inv}
use bonded_subsat_channel.Node.Mempool.{Mempool, Event, all_txs, evict}
use bonded_subsat_channel.Node.Network.{EmbeddedNode, connect_block_with_undo}
use bonded_subsat_channel.Node.Network.Blocks.{
  regtest_bits, regtest_version, coinbase_reward, make_coinbase, fee_total, mine, evict_all,
  connect_and_evict, store_raw, mined_block, generate_block,
}

module _ (c : Crypto) (double_sha256 : Bytes → Bytes) where
  open c use {lib}

  -- A header that mining finds is built from the parent and the root, and meets the target.
  mine-ok :
      (prev root : Bytes) (timestamp left nonce : ℕ) {raw : Bytes} {h : Hash}
      → mine c double_sha256 prev root timestamp left nonce ≡ ok (raw, h)
      → HoldsFields prev root regtest_bits raw × (header_hash double_sha256 raw ≡ ok h)
  unfolding mine
  mine-ok prev root timestamp zero nonce e = absurd (cc e)
  mine-ok prev root timestamp (suc left) nonce {raw} {h} e =
      let (found, e0, e1) =
        >>=-eq-ok (build_raw_header (pos regtest_version) prev root timestamp regtest_bits nonce) _
          e in
      let (digest, e2, e3) = >>=-eq-ok (header_hash double_sha256 found) _ e1 in
      elim (Bool-cases (leb digest (bits_to_target regtest_bits))) [
        | inl met ↦
            let made : ok (found, digest) ≡ ok (raw, h) = rw met at e3 in
            let raw_is : found ≡ raw = cc made in
            let h_is : digest ≡ h = cc made in
            (
              rw (← raw_is) (
                  build_raw_header-HoldsFields (pos regtest_version) prev root timestamp
                    regtest_bits nonce e0),
              ap (header_hash double_sha256) (sym raw_is) ∙ e2 ∙ ap ok h_is,
            )
        | inr missed ↦ mine-ok prev root timestamp left (nonce + 1) (rw missed at e3)
      ]

  -- the headers behind a block that was found on those of `s`
  pub record Extended (s : HeaderStore) (v : Inv double_sha256 s) (h : Hash) (txs : List Tx)
      (s' : HeaderStore) : Type 0 where
    pub entry : Header
    pub tip_at : s'.tip_hash ≡ h
    pub there : lookup h s'.by_hash ≡ some entry
    pub above : entry.height ≡ v.top.height + 1
    pub on : prev_hash entry.raw ≡ s.tip_hash
    pub root_of :
        merkle_root double_sha256 (map (λ tx. le 32 (lib.tx_hash tx)) txs)
        ≡ some (header_merkle_root entry.raw)
    pub inv : Inv double_sha256 s'

  or_raise-ok :
      {A : Type 0} (o : Option A) (raised : Error) {x : A} → or_raise o raised ≡ ok x → o ≡ some x
  or_raise-ok none raised e = absurd (cc e)
  or_raise-ok (some x) raised e = ap some (cc e)

  pub ok_injective : {A : Type 0} {x y : A} → ok x ≡ ok y → x ≡ y
  ok_injective e = cc e

  tip-ok :
      (s : HeaderStore) {t : Header}
      → tip double_sha256 s ≡ ok t
      → lookup s.tip_hash s.by_hash ≡ some t
  unfolding tip
  tip-ok s e = or_raise-ok (lookup s.tip_hash s.by_hash) Error.index_error e

  connected-Extended :
      (s : HeaderStore) (v : Inv double_sha256 s) (raw root : Bytes) (h : Hash) (txs : List Tx)
      → header_hash double_sha256 raw ≡ ok h
      → lookup h s.by_hash ≡ none
      → HoldsFields (double_sha256 v.top.raw) root regtest_bits raw
      → merkle_root double_sha256 (map (λ tx. le 32 (lib.tx_hash tx)) txs) ≡ some root
      → {after : Header × HeaderStore} → connect double_sha256 s raw ≡ ok after
      → Extended s v h txs after.1
  connected-Extended s v raw root h txs hashed fresh held root_of {after} goes =
      let (tip_at, there, above, raw_is, u) =
        connect-on_tip double_sha256 s v raw root h hashed fresh held
          (connect-ConnectOutcome double_sha256 s v raw) goes in
      record {
        entry = after.0;
        tip_at = tip_at;
        there = there;
        above = above;
        on =
            ap prev_hash raw_is
            ∙ held.parent
            ∙ header_hash-from_le double_sha256 v.top.raw
                (v.links s.tip_hash v.top v.at_tip).hashed;
        root_of = root_of ∙ ap some (sym held.root_is ∙ ap header_merkle_root (sym raw_is));
        inv = u;
      }

  module _ {W : Type 0} (tx_bytes : Tx → Bytes) (read_tx : Bytes → Result (Tx × Bytes))
      (notify : Event → Tx → Mempool × W → Mempool × W) where
    mined_block-Extended :
        (payout_script : Bytes) (include_mempool : Bool) (extra : Bytes) (timestamp : ℕ)
        (node : EmbeddedNode) (v : Inv double_sha256 node.headers) {raw : Bytes} {h : Hash}
        {height : ℕ} {txs included : List Tx} {s' : HeaderStore}
        → mined_block c double_sha256 tx_bytes read_tx notify payout_script include_mempool extra
            timestamp node
          ≡ ok (raw, h, height, txs, included, s')
        → lookup h node.headers.by_hash ≡ none
        → Extended node.headers v h txs s'
    unfolding mined_block
    mined_block-Extended payout_script include_mempool extra timestamp node v {h = h} {txs = txs}
          {s' = s'} e fresh =
        let (t, e0, e1) = >>=-eq-ok (tip double_sha256 node.headers) _ e in
        let picked : List Tx = (if include_mempool then all_txs node.mempool else []) in
        let value = fee_total c node.mempool.store (pos 0) picked in
        let block : List Tx =
          make_coinbase c (pos coinbase_reward +ℤ value) payout_script (t.height + 1) extra
          ∷ picked in
        let root_of : Option Bytes =
          merkle_root double_sha256 (map (λ tx. le 32 (lib.tx_hash tx)) block) in
        let (root, e2, e3) = >>=-eq-ok (or_raise root_of Error.runtime_error) _ e1 in
        let (found, e4, e5) =
          >>=-eq-ok (mine c double_sha256 (double_sha256 t.raw) root timestamp 1000001 0) _ e3 in
        let (after, e6, e7) = >>=-eq-ok (connect double_sha256 node.headers found.0) _ e5 in
        let at_top : t ≡ v.top = cc (tip-ok node.headers e0, v.at_tip) in
        let all = ok_injective e7 in
        let (fields, hashed) = mine-ok (double_sha256 t.raw) root timestamp 1000001 0 e4 in
        subst (λ x. lookup x.1 node.headers.by_hash ≡ none → Extended node.headers v x.1 x.3 x.5)
          all
          (λ new.
            connected-Extended node.headers v found.0 root found.1 block hashed new
              (subst (λ x. HoldsFields (double_sha256 x.raw) root regtest_bits found.0) at_top
                fields)
              (or_raise-ok root_of Error.runtime_error e2) e6)
          fresh

    pub evict_all-headers :
        (txs : List Tx) (node : EmbeddedNode) (w : W)
        → (evict_all c double_sha256 tx_bytes read_tx notify txs (node, w)).0.headers ≡ node.headers
    unfolding evict_all
    evict_all-headers [] node w = refl
    evict_all-headers (tx ∷ txs) node w =
        let after = (evict lib notify (lib.tx_hash tx) (node.mempool, w)).1 in
        evict_all-headers txs (record node { mempool = after.0 }) after.1

    -- On a node whose headers are linked up, a block that `generate_block` finds under a new hash
    -- becomes the tip, one above the tip it was mined on: its header names that tip and the merkle
    -- root of the block's transactions, and the headers stay linked up.
    pub generate_block-Extended :
        (payout_script : Bytes) (include_mempool : Bool) (extra : Bytes) (timestamp : ℕ)
        (node : EmbeddedNode) (w : W) (v : Inv double_sha256 node.headers) {h : Hash}
        {txs : List Tx} {after : EmbeddedNode × W}
        → generate_block c double_sha256 tx_bytes read_tx notify payout_script include_mempool extra
            timestamp
            (node, w)
          ≡ (ok (h, txs), after)
        → lookup h node.headers.by_hash ≡ none
        → Extended node.headers v h txs after.0.headers
    unfolding generate_block connect_and_evict connect_block_with_undo
    generate_block-Extended payout_script include_mempool extra timestamp node w v {h} {txs} {after}
          e fresh =
        elim (Result-cases (
          mined_block c double_sha256 tx_bytes read_tx notify payout_script include_mempool extra
            timestamp node)) [
              | inr (raised, fails) ↦
                  let e0 = rw (generate_block, fails) at e in absurd (cc (ap (λ x. x.0) e0))
              | inl ((raw, k, height, block, included, headers), finds) ↦
                  let connected : EmbeddedNode = record node { headers = headers } in
                  let e0 = rw (generate_block, finds) at e in
                  elim (Result-cases (
                    store_raw c double_sha256 tx_bytes read_tx notify k (pos height) raw block
                      connected)) [
                        | inr (raised, fails) ↦
                            let e1 = rw fails at e0 in absurd (cc (ap (λ x. x.0) e1))
                        | inl (stored, stores) ↦
                            let e1 = rw stores at e0 in
                            let made = ok_injective (ap (λ x. x.0) e1) in
                            let grown =
                              mined_block-Extended payout_script include_mempool extra timestamp
                                node v finds in
                            let same : after.0.headers ≡ headers =
                              sym (ap (λ x. x.1.0.headers) e1)
                              ∙ evict_all-headers included
                                  (connect_block_with_undo lib k (pos height) block stored) w
                              ∙ store_raw-headers c double_sha256 tx_bytes read_tx notify k k
                                  (pos height) raw block connected stores in
                            subst
                              (λ x.
                                lookup x.0 node.headers.by_hash ≡ none
                                → Extended node.headers v x.0 x.1 after.0.headers)
                              made
                              (λ new.
                                subst (Extended node.headers v k block) (sym same) (grown new))
                              fresh
                      ]
            ]
