-- ===== src/Node/Validation/Accepts.antt =====
-- `validate_tx` of src/channel/node/validation.py, against a description of what the node accepts.
use bonded_subsat_channel.Base.{
  ℕ, ◌+◌, ◌≡◌, ◌↔◌, refl, ◌⊎◌, inl, inr, Bool, true, false, some, List, [], ◌∷◌, ◌++◌, ok, arith,
  Bool-cases, Option-cases, Result-cases,
}
use bonded_subsat_channel.Base.Int.{ℤ, pos, ◌+ℤ◌, ◌≤ℤ◌}
use bonded_subsat_channel.Chain.{Tx, TxInput, TxOutput, Bitcoinx}
use bonded_subsat_channel.Verify.{verify_spend}
use bonded_subsat_channel.Node.BlockStore.{BlockStore, UtxoEntry, get_utxo, as_txoutput}
use bonded_subsat_channel.Node.Validation.{
  Reason, Tally, Scan, done, stopped, sum_outputs, scan_inputs, conclude, validate_tx,
}

-- The values of the entries, added to what comes before.
abbrev pub values_from : ℤ → List UtxoEntry → ℤ
values_from total [] = total
values_from total (e ∷ es) = values_from (total +ℤ e.value) es

Scan-cases : (s : Scan) → ((why : Reason) × (s ≡ stopped why)) ⊎ ((last : Tally) × (s ≡ done last))
Scan-cases (stopped why) = inl (why, refl)
Scan-cases (done last) = inr (last, refl)

module _ (lib : Bitcoinx) (store : BlockStore) where
  -- The inputs from `idx` on find the entries, and the interpreter accepts each of them.
  abbrev pub Resolves : Tx → ℕ → List TxInput → List UtxoEntry → Type 0
  Resolves tx idx [] [] = Unit {0}
  Resolves tx idx [] (e ∷ es) = ⊥
  Resolves tx idx (t ∷ ts) [] = ⊥
  Resolves tx idx (t ∷ ts) (e ∷ es) =
      (get_utxo t.prev_hash t.prev_idx store ≡ some e)
      × (verify_spend lib tx idx (as_txoutput e) ≡ ok true)
      × Resolves tx (idx + 1) ts es

  verify_spend-true :
      (tx : Tx) (idx : ℕ) (u : TxOutput) {b : Bool} → verify_spend lib tx idx u ≡ ok b → b ≡ true
  unfolding verify_spend
  verify_spend-true tx idx u h = elim (Result-cases (lib.verify_input tx idx u)) [
    | inl (r, e) ↦ ground (arith, e, h, Bool-cases r)
    | inr (x, e) ↦ ground (arith, e, h)
  ]

  scan-Resolves :
      (tx : Tx) (idx : ℕ) (ts : List TxInput) (tally last : Tally)
      → scan_inputs lib store tx idx ts tally ≡ done last
      → (es : List UtxoEntry) × Resolves tx idx ts es × (last.0 ≡ values_from tally.0 es)
  unfolding scan_inputs
  scan-Resolves tx idx [] tally last h = ([], tt, ground (arith, h))
  scan-Resolves tx idx (t ∷ ts) (total, spent) last h =
      elim (Option-cases (get_utxo t.prev_hash t.prev_idx store)) [
        | inl missing ↦ ground (arith, missing, h)
        | inr (e, found) ↦ elim (Result-cases (verify_spend lib tx idx (as_txoutput e))) [
          | inr (x, refused) ↦ ground (arith, found, refused, h)
          | inl (b, accepted) ↦
              let (es, rs, q) =
                scan-Resolves tx (idx + 1) ts
                  (total +ℤ e.value, spent ++ (e.txid, e.vout, e.value, e.script_pubkey) ∷ []) last
                  (ground (arith, found, accepted, h)) in
              (
                e ∷ es,
                (found, rw (verify_spend-true tx idx (as_txoutput e) accepted) at accepted, rs),
                q,
              )
        ]
      ]

  Resolves-scan :
      (tx : Tx) (idx : ℕ) (ts : List TxInput) (es : List UtxoEntry) (tally : Tally)
      → Resolves tx idx ts es
      → (last : Tally) × (scan_inputs lib store tx idx ts tally ≡ done last)
        × (last.0 ≡ values_from tally.0 es)
  unfolding scan_inputs
  Resolves-scan tx idx [] [] tally h = (tally, refl, refl)
  Resolves-scan tx idx [] (e ∷ es) tally h = absurd h
  Resolves-scan tx idx (t ∷ ts) [] tally h = absurd h
  Resolves-scan tx idx (t ∷ ts) (e ∷ es) (total, spent) (found, accepted, rest) =
      let (last, q, sums) =
        Resolves-scan tx (idx + 1) ts es
          (total +ℤ e.value, spent ++ (e.txid, e.vout, e.value, e.script_pubkey) ∷ []) rest in
      (last, ground (arith, found, accepted, q), sums)

  -- What the node accepts: outputs of whole satoshis, an unspent entry that the interpreter accepts
  -- for each input, and entries that are worth the outputs at least.
  abbrev pub Accepts : Tx → Type 0
  Accepts tx =
      (total : ℕ) × (es : List UtxoEntry) × (sum_outputs 0 tx.outputs ≡ some total)
      × Resolves tx 0 tx.inputs es
      × (pos total ≤ℤ values_from (pos 0) es)

  conclude_passed :
      (total : ℕ) (last : Tally)
      → ((conclude lib store total (done last)).passed ≡ true) ↔ (pos total ≤ℤ last.0)
  unfolding conclude
  conclude_passed total (worth, spent) = (λ h. ground (arith, h), λ h. ground (arith, h))

  judged :
      (tx : Tx) {total : ℕ} {last : Tally}
      → lib.is_coinbase tx ≡ false
      → sum_outputs 0 tx.outputs ≡ some total
      → scan_inputs lib store tx 0 tx.inputs (pos 0, []) ≡ done last
      → validate_tx lib store tx false ≡ conclude lib store total (done last)
  unfolding validate_tx
  judged tx ordinary outs q = rw (ordinary, outs, q)

  passed-Accepts :
      (tx : Tx)
      → lib.is_coinbase tx ≡ false
      → (validate_tx lib store tx false).passed ≡ true
      → Accepts tx
  unfolding validate_tx conclude
  passed-Accepts tx ordinary h = elim (Option-cases (sum_outputs 0 tx.outputs)) [
    | inl bad ↦ ground (arith, ordinary, bad, h)
    | inr (total, outs) ↦ elim (Scan-cases (scan_inputs lib store tx 0 tx.inputs (pos 0, []))) [
      | inl (why, q) ↦ ground (arith, ordinary, outs, q, h)
      | inr (last, q) ↦
          let (es, rs, sums) = scan-Resolves tx 0 tx.inputs (pos 0, []) last q in
          let passed = rw (judged tx ordinary outs q) at h in
          (total, es, outs, rs, rw sums at ((conclude_passed total last).0 passed))
    ]
  ]

  Accepts-passed :
      (tx : Tx)
      → lib.is_coinbase tx ≡ false
      → Accepts tx
      → (validate_tx lib store tx false).passed ≡ true
  Accepts-passed tx ordinary (total, es, outs, rs, enough) =
      let (last, q, sums) = Resolves-scan tx 0 tx.inputs es (pos 0, []) rs in
      rw (judged tx ordinary outs q) ((conclude_passed total last).1 (rw sums enough))

  -- A transaction that is no coinbase passes exactly when the node accepts it: its outputs are whole
  -- satoshis, each input finds an unspent entry under which the interpreter accepts it, and the
  -- entries, counted once for each input, are worth the outputs at least.
  pub validate_tx-Accepts :
      (tx : Tx)
      → lib.is_coinbase tx ≡ false
      → (validate_tx lib store tx false).passed ≡ true ↔ Accepts tx
  validate_tx-Accepts tx ordinary = (passed-Accepts tx ordinary, Accepts-passed tx ordinary)
