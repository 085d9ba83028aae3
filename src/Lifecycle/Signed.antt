-- ===== src/Lifecycle/Signed.antt =====
-- The signed cooperative close of src/channel/lifecycle.py: what the signatures leave of the
-- transaction that is built.
use bonded_subsat_channel.Base.{
  ℕ, suc, ◌+◌, ◌<◌, ◌≡◌, refl, sym, ap, ◌∙◌, true, Option, List, [], ◌∷◌, map, length, length-map,
  get_elem?-lt, arith, ok, ◌>>=◌, traverse,
}
use bonded_subsat_channel.Base.Int.{pos}
use bonded_subsat_channel.Base.Sums.{sum}
use bonded_subsat_channel.Config.{final_sequence}
use bonded_subsat_channel.Accounting.{State, ensure_whole_satoshi}
use bonded_subsat_channel.Accounting.Order.{range}
use bonded_subsat_channel.Accounting.Order.Counts.{length-range}
use bonded_subsat_channel.Accounting.Conserved.{IsConserved}
use bonded_subsat_channel.Bond.{sign_bond_return}
use bonded_subsat_channel.Chain.{Bytes, Hash, Tx, TxOutput}
use bonded_subsat_channel.Crypto.{Crypto, sign_input}
use bonded_subsat_channel.Keys.{KeyBook, private}
use bonded_subsat_channel.Lifecycle.{Channel, unsigned, require_confirmed, funding_txid}
use bonded_subsat_channel.Lifecycle.Closing.{
  sign_all, with_unlock, sign_bonds, state_or, cooperative_close, build_close_tx,
}
use bonded_subsat_channel.Lifecycle.Payouts.{Sums}
use bonded_subsat_channel.Lifecycle.Settlement.{
  IsFunded, AllBelow, range_from-AllBelow, build_close_tx_pays,
}
use bonded_subsat_channel.Node.Validation.{sum_outputs}
use bonded_subsat_channel.Scripts.{channel_funding_unlock, bond_return_unlock}
use bonded_subsat_channel.Lifecycle.Signatures.{
  stripped, stripped-unlock_at, length-unlock_at, unlock_at_self, sign_bonds-AllSigned, SignedClose,
}
use bonded_subsat_channel.Verify.{verify_all_inputs}

module _ (c : Crypto) where
  open c use {PrivateKey}

  -- Each party of the key book signs.
  sign_all-ok :
      (tx : Tx) (spent : TxOutput) (book : KeyBook c) (is : List ℕ)
      → AllBelow c (length book) is
      → (sigs : List Bytes) × (traverse (sign_all c tx spent book) is ≡ ok sigs)
        × (length sigs ≡ length is)
  unfolding traverse sign_all private
  sign_all-ok tx spent book [] h = ([], refl, refl)
  sign_all-ok tx spent book (i ∷ is) h =
      let (k, ek) = get_elem?-lt book i h.0 in
      let (sigs, e, w) = sign_all-ok tx spent book is h.1 in
      (
        sign_input c tx 0 spent.value spent.script_pubkey k ∷ sigs,
        ground (arith, ek, e, h.0),
        ap suc w,
      )

  channel_funding_unlock-ok :
      (sigs : List Bytes)
      → 0 < length sigs
      → (script : Bytes) × (channel_funding_unlock c sigs ≡ ok script)
  unfolding channel_funding_unlock
  channel_funding_unlock-ok [] h = absurd (omega arith)
  channel_funding_unlock-ok (x ∷ xs) h = (_, refl)

  -- The loop that signs the inputs of the bonds changes nothing but unlocking scripts.
  sign_bonds-ok :
      (ch : Channel PrivateKey) (is : List ℕ) (tx : Tx)
      → AllBelow c (length ch.keybook) is
      → AllBelow c (length ch.bonds) is
      → (signed : Tx) × (sign_bonds c ch is tx ≡ ok signed)
        × (signed.outputs ≡ tx.outputs)
        × (map stripped signed.inputs ≡ map stripped tx.inputs)
  unfolding sign_bonds private sign_bond_return ensure_whole_satoshi with_unlock
  sign_bonds-ok ch [] tx h k = (tx, refl, refl, refl)
  sign_bonds-ok ch (i ∷ is) tx h k =
      let (key, ek) = get_elem?-lt ch.keybook i h.0 in
      let (bond, eb) = get_elem?-lt ch.bonds i k.0 in
      let script : Bytes =
        bond_return_unlock c (sign_input c tx (1 + i) (pos bond.value) bond.locking_script key) in
      let (signed, e, outs, ins) = sign_bonds-ok ch is (with_unlock c (1 + i) script tx) h.1 k.1 in
      (
        signed,
        ground (arith, ek, eb, h.0, e),
        outs,
        ins ∙ stripped-unlock_at c (1 + i) script tx.inputs,
      )

  first_of_Sums :
      (outs : List TxOutput) (n : ℕ)
      → 0 < n
      → Sums outs n
      → (o : TxOutput) × (os : List TxOutput) × (outs ≡ o ∷ os)
  unfolding sum_outputs
  first_of_Sums [] n h sums = absurd (ground (arith, sums 0))
  first_of_Sums (o ∷ os) n h sums = (o, os, refl)

  stripped-unsigned :
      (txid : Hash) (is : List ℕ)
      → map stripped (map (λ i. unsigned txid (1 + i) final_sequence) is)
        ≡ map (λ i. unsigned txid (1 + i) final_sequence) is
  stripped-unsigned txid [] = refl
  stripped-unsigned txid (i ∷ is) =
      ap (◌∷◌ (unsigned txid (1 + i) final_sequence)) (stripped-unsigned txid is)

  close_runs :
      (ch : Channel PrivateKey) (state : Option State) {tx signed : Tx}
      {spent others : List TxOutput} {first : TxOutput} {sigs : List Bytes} {script : Bytes}
      → ch.funding_confirmed ≡ true
      → build_close_tx c ch (state_or c state ch) ≡ ok (tx, spent)
      → spent ≡ first ∷ others
      → traverse (sign_all c tx first ch.keybook) (range ch.cfg.n) ≡ ok sigs
      → channel_funding_unlock c sigs ≡ ok script
      → sign_bonds c ch (range ch.cfg.n) (with_unlock c 0 script tx) ≡ ok signed
      → cooperative_close c ch state
        ≡ (verify_all_inputs c.lib signed spent >>= λ _. ok (signed, spent))
  unfolding cooperative_close require_confirmed
  close_runs ch state confirmed e first_is es eu eb = ground arith

  pub cooperative_close_pays :
      (ch : Channel PrivateKey) (state : Option State)
      → IsFunded c ch
      → IsConserved (state_or c state ch) ch.cfg
      → ch.funding_confirmed ≡ true
      → (signed : Tx) × (spent : List TxOutput) × (cooperative_close c ch state
          ≡ (verify_all_inputs c.lib signed spent >>= λ _. ok (signed, spent)))
        × Sums signed.outputs (ch.cfg.s + sum ch.cfg.bonds)
        × Sums spent (ch.cfg.s + sum ch.cfg.bonds)
        × (map stripped signed.inputs
            ≡ unsigned (funding_txid c ch) 0 final_sequence
              ∷ map (λ i. unsigned (funding_txid c ch) (1 + i) final_sequence) (range ch.cfg.n))
        × SignedClose c ch (state_or c state ch) signed spent
  unfolding with_unlock range
  cooperative_close_pays ch state f v confirmed =
      let n : ℕ = ch.cfg.n in
      let (tx, spent, e, so, ss, ins) = build_close_tx_pays c ch (state_or c state ch) f v in
      let (first, others, first_is) =
        first_of_Sums spent (ch.cfg.s + sum ch.cfg.bonds) (omega (arith, f.valid.funded)) ss in
      let keyed : AllBelow c (length ch.keybook) (range n) =
        rw f.keyed (unfold range in range_from-AllBelow c 0 n n (omega arith)) in
      let bonded : AllBelow c (length ch.bonds) (range n) =
        rw (sym (length-map ch.bonds (λ b. b.value)) ∙ ap length f.bonded ∙ f.valid.bonded)
          (unfold range in range_from-AllBelow c 0 n n (omega arith)) in
      let (sigs, es, ws) = sign_all-ok tx first ch.keybook (range n) keyed in
      let (script, eu) =
        channel_funding_unlock-ok sigs (omega (arith, ws, length-range n, f.valid.parties)) in
      let (signed, eb, outs, same) =
        sign_bonds-ok ch (range n) (with_unlock c 0 script tx) keyed bonded in
      let wide : length tx.inputs ≡ suc n =
        (ap length ins
          ∙ ap suc (
              length-map (range n) (λ i. unsigned (funding_txid c ch) (1 + i) final_sequence)
              ∙ length-range n)) in
      let (kept, bonds_signed) =
        sign_bonds-AllSigned c ch tx 0 n (with_unlock c 0 script tx) eb refl
          (stripped-unlock_at c 0 script tx.inputs)
          (omega (arith, wide, length-unlock_at c 0 script tx.inputs)) in
      (
        signed,
        spent,
        close_runs ch state confirmed e first_is es eu eb,
        rw outs so,
        ss,
        same
            ∙ stripped-unlock_at c 0 script tx.inputs
            ∙ ap (map stripped) ins
            ∙ ap (◌∷◌ (unsigned (funding_txid c ch) 0 final_sequence))
                (stripped-unsigned (funding_txid c ch) (range n)),
        record {
          base = tx;
          first = first;
          others = others;
          sigs = sigs;
          script = script;
          built = e;
          first_is = first_is;
          all_sign = es;
          joins = eu;
          unlocked =
              kept 0 (omega arith) ∙ unlock_at_self c 0 script tx.inputs (omega (arith, wide));
          bonds_signed = bonds_signed;
        },
      )
