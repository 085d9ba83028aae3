-- ===== src/Node/Network/Undo.antt =====
-- Connecting a block and disconnecting it again in src/channel/node/network.py.
use bonded_subsat_channel.Base.{
  ℕ, ◌+◌, ◌≡◌, ◌∙◌, refl, ap, inl, inr, Bool, true, false, Option, none, some, List, [], ◌∷◌, ◌++◌,
  if◌then◌else◌, arith, Bool-cases, Option-cases,
}
use bonded_subsat_channel.Base.Int.{ℤ}
use bonded_subsat_channel.Base.Dict.{
  Dict, lookup, insert, erase, nat_eq, outpoint_eq, ◌=?◌, lookup-insert, lookup-erase,
  lookup-insert_self,
}
use bonded_subsat_channel.Chain.{Hash, Outpoint, Tx, TxInput, TxOutput, Bitcoinx, outpoint}
use bonded_subsat_channel.Node.BlockStore.{
  BlockStore, UtxoEntry, Row, entry_of, get_utxo, add_utxo, spend_utxo, delete_inputs,
  insert_outputs, connect_tx, connect_txs, connect_block_utxos,
}
use bonded_subsat_channel.Node.Mempool.Invariant.{spends}
use bonded_subsat_channel.Node.Network.{
  EmbeddedNode, undo_inputs, created_outputs, remove_created, restore, undo_of, created_of,
  connect_block_with_undo, disconnect_block,
}

-- whether the outpoint is one of the list
abbrev pub is_one : Outpoint → List Outpoint → Bool
is_one op [] = false
is_one op (o ∷ os) = if op =? o then true else is_one op os

abbrev or_else : Option Row → Option Row → Option Row
or_else none b = b
or_else (some r) b = some r

is_one-append :
    (op : Outpoint) (xs ys : List Outpoint)
    → is_one op (xs ++ ys) ≡ (if is_one op xs then true else is_one op ys)
is_one-append op [] ys = refl
is_one-append op (x ∷ xs) ys = ground (arith, is_one-append op xs ys)

at_key :
    (op key : Outpoint) (d : Dict Outpoint Row) {o : Option Row}
    → (op =? key) ≡ true
    → lookup key d ≡ o
    → lookup op d ≡ o
at_key op key d same h = rw ((outpoint_eq.beq_iff op key).0 same) h

lookup-delete_inputs :
    (op : Outpoint) (ts : List TxInput) (u : Dict Outpoint Row)
    → lookup op (delete_inputs ts u) ≡ (if spends op ts then none else lookup op u)
unfolding delete_inputs
lookup-delete_inputs op [] u = refl
lookup-delete_inputs op (t ∷ ts) u =
    ground
      (arith, lookup-delete_inputs op ts (erase (outpoint t) u), lookup-erase op (outpoint t) u)

lookup-insert_outputs :
    (op : Outpoint) (txid : Hash) (i : ℕ) (height : ℤ) (os : List TxOutput) (u : Dict Outpoint Row)
    → is_one op (created_outputs txid i os) ≡ false
    → lookup op (insert_outputs txid i height os u) ≡ lookup op u
unfolding insert_outputs created_outputs
lookup-insert_outputs op txid i height [] u h = refl
lookup-insert_outputs op txid i height (o ∷ os) u h =
    let r : Row = record { value = o.value; script_pubkey = o.script_pubkey; height = height } in
    ground (
      arith,
      h,
      lookup-insert_outputs op txid (i + 1) height os (insert (txid, i) r u),
      lookup-insert op (txid, i) r u,
    )

lookup-remove_created :
    (op : Outpoint) (ops : List Outpoint) (s : BlockStore)
    → lookup op (remove_created ops s).utxos ≡ (if is_one op ops then none else lookup op s.utxos)
unfolding remove_created get_utxo spend_utxo
lookup-remove_created op [] s = refl
lookup-remove_created op ((txid, vout) ∷ ops) s =
    let rest = lookup-remove_created op ops s in
    elim (Option-cases (lookup (txid, vout) s.utxos)) [
      | inl missing ↦
          rw (remove_created, missing)
            (elim (Bool-cases (op =? (txid, vout))) [
              | inl same ↦ ground (arith, same, rest, at_key op (txid, vout) s.utxos same missing)
              | inr other ↦ ground (arith, other, rest)
            ])
      | inr (r, there) ↦
          let t : BlockStore = record s { utxos = erase (txid, vout) s.utxos } in
          let rest_t = lookup-remove_created op ops t in
          let spent : (spend_utxo txid vout s).1 ≡ t = rw (spend_utxo, there) in
          rw (remove_created, there, spent)
            (elim (Bool-cases (op =? (txid, vout))) [
              | inl same ↦ ground (arith, same, rest_t, lookup-erase op (txid, vout) s.utxos)
              | inr other ↦ ground (arith, other, rest_t, lookup-erase op (txid, vout) s.utxos)
            ])
    ]

restore-append :
    (xs ys : List UtxoEntry) (s : BlockStore) → restore (xs ++ ys) s ≡ restore ys (restore xs s)
unfolding restore
restore-append [] ys s = refl
restore-append (e ∷ xs) ys s = restore-append xs ys (add_utxo e s)

lookup-restore_inputs :
    (op : Outpoint) (u s : BlockStore) (ts : List TxInput)
    → lookup op (restore (undo_inputs u ts) s).utxos ≡ (
        if spends op ts then or_else (lookup op u.utxos) (lookup op s.utxos) else lookup op s.utxos)
unfolding restore undo_inputs get_utxo add_utxo
lookup-restore_inputs op u s [] = refl
lookup-restore_inputs op u s (t ∷ ts) = elim (Option-cases (lookup (outpoint t) u.utxos)) [
  | inl missing ↦
      let rest = lookup-restore_inputs op u s ts in
      rw (undo_inputs, missing)
        (elim (Bool-cases (op =? outpoint t)) [
          | inl same ↦ ground (arith, same, rest, at_key op (outpoint t) u.utxos same missing)
          | inr other ↦ ground (arith, other, rest)
        ])
  | inr (r, there) ↦
      let e : UtxoEntry = entry_of (outpoint t) r in
      let rest = lookup-restore_inputs op u (add_utxo e s) ts in
      let put = lookup-insert op (outpoint t) r s.utxos in
      rw (undo_inputs, there, restore)
        (elim (Bool-cases (op =? outpoint t)) [
          | inl same ↦ ground (arith, same, rest, put, at_key op (outpoint t) u.utxos same there)
          | inr other ↦ ground (arith, other, rest, put)
        ])
]

module _ (lib : Bitcoinx) where
  -- whether an input of a transaction that is no coinbase spends the output
  abbrev pub spent_by_any : Outpoint → List Tx → Bool
  spent_by_any op [] = false
  spent_by_any op (tx ∷ txs) =
      if (if lib.is_coinbase tx then false else spends op tx.inputs)
      then true
      else spent_by_any op txs

  lookup-connect_txs :
      (op : Outpoint) (height : ℤ) (txs : List Tx) (u : Dict Outpoint Row)
      → is_one op (created_of lib txs) ≡ false
      → lookup op (connect_txs lib height txs u)
        ≡ (if spent_by_any op txs then none else lookup op u)
  unfolding connect_txs created_of
  lookup-connect_txs op height [] u h = refl
  lookup-connect_txs op height (tx ∷ txs) u h =
      let split =
        is_one-append op (created_outputs (lib.tx_hash tx) 0 tx.outputs) (created_of lib txs) in
      let left : Dict Outpoint Row = if lib.is_coinbase tx then u else delete_inputs tx.inputs u in
      let next : Dict Outpoint Row = connect_tx lib height tx u in
      let mine : is_one op (created_outputs (lib.tx_hash tx) 0 tx.outputs) ≡ false =
        ground (arith, h, split) in
      let others : is_one op (created_of lib txs) ≡ false = ground (arith, h, split) in
      let rest = lookup-connect_txs op height txs next others in
      let put : lookup op next ≡ lookup op left =
        unfold connect_tx in
        lookup-insert_outputs op (lib.tx_hash tx) 0 height tx.outputs left mine in
      elim (Bool-cases (lib.is_coinbase tx)) [
        | inl coinbase ↦ let same : left ≡ u = rw coinbase in rw (rest, put, same, coinbase)
        | inr plain ↦
            let same : left ≡ delete_inputs tx.inputs u = rw plain in
            rw (rest, put, same, plain, lookup-delete_inputs op tx.inputs u) (ground arith)
      ]

  lookup-restore :
      (op : Outpoint) (u s : BlockStore) (txs : List Tx)
      → lookup op (restore (undo_of lib u txs) s).utxos ≡ (
          if spent_by_any op txs
          then or_else (lookup op u.utxos) (lookup op s.utxos)
          else lookup op s.utxos)
  unfolding undo_of restore
  lookup-restore op u s [] = refl
  lookup-restore op u s (tx ∷ txs) = elim (Bool-cases (lib.is_coinbase tx)) [
    | inl coinbase ↦ rw coinbase (lookup-restore op u s txs)
    | inr plain ↦
        let mid : BlockStore = restore (undo_inputs u tx.inputs) s in
        rw
          (
            plain,
            restore-append (undo_inputs u tx.inputs) (undo_of lib u txs) s,
            lookup-restore op u mid txs,
            lookup-restore_inputs op u s tx.inputs,
          )
          (ground (arith, Option-cases (lookup op u.utxos)))
  ]

  logged_undo :
      (h : Hash) (height : ℤ) (txs : List Tx) (node : EmbeddedNode)
      → (disconnect_block h (connect_block_with_undo lib h height txs node)).mempool.store
        ≡ restore (undo_of lib node.mempool.store txs) (
            remove_created
              (created_of lib txs)
              (connect_block_utxos lib height txs node.mempool.store))
  unfolding disconnect_block connect_block_with_undo
  logged_undo h height txs node = rw (
    lookup-insert_self h (undo_of lib node.mempool.store txs) node.undo_log,
    lookup-insert_self h (created_of lib txs) node.created_log,
  )

  -- A block that is connected and then disconnected leaves every unspent output as it was, when the
  -- outputs that it creates were not there before: what it created is gone, what it spent is back,
  -- also where it spends its own outputs.
  pub disconnect_block-connect_block_with_undo :
      (h : Hash) (height : ℤ) (txs : List Tx) (node : EmbeddedNode)
      → ((op : Outpoint)
          → is_one op (created_of lib txs) ≡ true
          → lookup op node.mempool.store.utxos ≡ none)
      → (op : Outpoint)
      → lookup op
          (disconnect_block h (connect_block_with_undo lib h height txs node)).mempool.store.utxos
        ≡ lookup op node.mempool.store.utxos
  unfolding connect_block_utxos
  disconnect_block-connect_block_with_undo h height txs node fresh op =
      let s : BlockStore = node.mempool.store in
      let after : BlockStore = connect_block_utxos lib height txs s in
      let mid : BlockStore = remove_created (created_of lib txs) after in
      let back = lookup-restore op s mid txs in
      let gone = lookup-remove_created op (created_of lib txs) after in
      ap (λ (x : BlockStore). lookup op x.utxos) (logged_undo h height txs node)
      ∙ (elim (Bool-cases (is_one op (created_of lib txs))) [
        | inl made ↦ rw (back, gone, made, fresh op made) (ground arith)
        | inr other ↦
            rw (back, gone, other, lookup-connect_txs op height txs s.utxos other)
              (ground (arith, Option-cases (lookup op s.utxos)))
      ])
