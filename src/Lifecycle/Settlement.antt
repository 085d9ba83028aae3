-- ===== src/Lifecycle/Settlement.antt =====
-- What the state transaction and the cooperative close of src/channel/lifecycle.py spend and pay.
use bonded_subsat_channel.Base.{
  ℕ, zero, suc, ◌+◌, ◌≤◌, ◌<◌, ◌≡◌, refl, sym, ap, ap₂, ◌∙◌, inl, inr, some, List, [], ◌∷◌, map,
  length, length-map, get_elem?, get_elem?-lt, arith, Result, ok, ltb, traverse, Bool-cases,
}
use bonded_subsat_channel.Base.Sums.{sum}
use bonded_subsat_channel.Config
use bonded_subsat_channel.Config.{final_sequence}
use bonded_subsat_channel.Accounting.{State, at, ensure_whole_satoshi}
use bonded_subsat_channel.Accounting.Order.{range, range_from}
use bonded_subsat_channel.Accounting.Order.Counts.{sum_over}
use bonded_subsat_channel.Accounting.Netting.{quantise-ok, sum_over-at, sum_over-+}
use bonded_subsat_channel.Accounting.Conserved.{IsConserved}
use bonded_subsat_channel.Accounting.Winners.{get_elem?-at, get_elem?-map}
use bonded_subsat_channel.Lifecycle.Versions.{sequence_for_version-below}
use bonded_subsat_channel.Bond.{utxo}
use bonded_subsat_channel.Chain.{Bytes, Tx, TxInput, TxOutput}
use bonded_subsat_channel.Crypto.{Crypto}
use bonded_subsat_channel.Lifecycle.{Channel, pays, unsigned, channel_output, funding_txid}
use bonded_subsat_channel.Lifecycle.Closing.{
  or_placeholder, build_state_tx, bond_input, close_payout, concat, build_close_tx,
}
use bonded_subsat_channel.Lifecycle.Payouts.{
  Sums, Sums-nil, Sums-pays, Sums-append, pay_party-Sums, state_payouts-Sums, or_placeholder-Sums,
}

module _ (c : Crypto) where
  open c use {PrivateKey}

  -- What the settlement of a channel relies on: a valid configuration, a key and a bond for each
  -- party, and a channel output that holds the funded satoshis.
  pub record IsFunded (ch : Channel PrivateKey) : Type 0 where
    pub valid : Config.IsValid ch.cfg
    pub keyed : length ch.keybook ≡ ch.cfg.n
    pub bonded : map (λ b. b.value) ch.bonds ≡ ch.cfg.bonds
    pub script : Bytes
    pub output : get_elem? ch.funding_tx.outputs 0 ≡ some (pays ch.cfg.s script)

  -- `build_state_tx` on a conserved state of a funded channel, at a version below the final sequence,
  -- spends the channel output under a sequence equal to the version, and its outputs sum to the
  -- funded satoshis.
  pub build_state_tx_pays :
      (ch : Channel PrivateKey) (st : State)
      → IsFunded ch
      → IsConserved st ch.cfg
      → st.version < final_sequence
      → (tx : Tx) × (spent : List TxOutput) × (build_state_tx c ch st ≡ ok (tx, spent))
        × Sums tx.outputs ch.cfg.s
        × Sums spent ch.cfg.s
        × (tx.inputs ≡ unsigned (funding_txid c ch) 0 st.version ∷ [])
  unfolding build_state_tx channel_output
  build_state_tx_pays ch st f v low =
      let (q, eq, _, total, width) = quantise-ok st ch.cfg f.valid v in
      let (outs, eo, so) = state_payouts-Sums c ch.keybook 0 q (omega (arith, width, f.keyed)) in
      let seq = sequence_for_version-below st.version low in
      (
        record {
          version = 1;
          inputs = unsigned (funding_txid c ch) 0 st.version ∷ [];
          outputs = or_placeholder c outs;
          locktime = 0;
        },
        pays ch.cfg.s f.script ∷ [],
        ground (arith, eq, eo, seq, f.output),
        or_placeholder-Sums c outs ch.cfg.s (λ t. so t ∙ ap some (omega (arith, total))),
        Sums-pays ch.cfg.s f.script,
        refl,
      )

  -- A loop over parties whose rounds pay the amounts `w`.
  abbrev pub AllBelow : ℕ → List ℕ → Type 0
  AllBelow n [] = Unit {0}
  AllBelow n (i ∷ is) = (i < n) × AllBelow n is

  traverse-Sums :
      (f : ℕ → Result (List TxOutput)) (w : ℕ → ℕ) (n : ℕ) (is : List ℕ)
      → ((i : ℕ) → i < n → (outs : List TxOutput) × (f i ≡ ok outs) × Sums outs (w i))
      → AllBelow n is
      → (outss : List (List TxOutput)) × (traverse f is ≡ ok outss)
        × Sums (concat c outss) (sum_over w is)
  unfolding traverse
  traverse-Sums f w n [] h b = ([], refl, Sums-nil)
  traverse-Sums f w n (i ∷ is) h b =
      let (out, eo, so) = h i b.0 in
      let (rest, er, sr) = traverse-Sums f w n is h b.1 in
      (out ∷ rest, rw (eo, er), Sums-append out (concat c rest) (w i) (sum_over w is) so sr)

  pub range_from-AllBelow : (a n m : ℕ) → a + n ≤ m → AllBelow m (range_from a n)
  unfolding range_from
  range_from-AllBelow a zero m h = tt
  range_from-AllBelow a (suc n) m h = (omega arith, range_from-AllBelow (a + 1) n m (omega arith))

  -- The round of the close for one party.
  close_payout-Sums :
      (ch : Channel PrivateKey) (q : List ℕ) (i : ℕ)
      → length q ≡ length ch.keybook
      → length ch.cfg.bonds ≡ length ch.keybook
      → i < length ch.keybook
      → (outs : List TxOutput) × (close_payout c ch q i ≡ ok outs)
        × Sums outs (at q i + at ch.cfg.bonds i)
  unfolding close_payout ensure_whole_satoshi
  close_payout-Sums ch q i wq wb lt =
      let (p, ep) = get_elem?-lt q i (omega (arith, wq)) in
      let (b, eb) = get_elem?-lt ch.cfg.bonds i (omega (arith, wb)) in
      let (out, eo, so) = pay_party-Sums c ch.keybook i (p + b) lt in
      let amount : at q i + at ch.cfg.bonds i ≡ p + b =
        ap₂ ◌+◌ (get_elem?-at q i ep) (get_elem?-at ch.cfg.bonds i eb) in
      elim (Bool-cases (ltb 0 (p + b))) [
        | inl due ↦ (out, ground (arith, ep, eb, due, eo), rw amount so)
        | inr none_due ↦ (
          [],
          ground (arith, ep, eb, none_due),
          λ t. Sums-nil t ∙ ap some (ground (arith, none_due, amount)),
        )
      ]

  -- The bonds' inputs and the outputs that they spend.
  bond_inputs-Sums :
      (ch : Channel PrivateKey) (is : List ℕ)
      → AllBelow (length ch.bonds) is
      → (ins : List (TxInput × TxOutput)) × (traverse (bond_input c ch) is ≡ ok ins)
        × Sums (map (λ b. b.1) ins) (sum_over (at (map (λ b. b.value) ch.bonds)) is)
        × (map (λ b. b.0) ins ≡ map (λ i. unsigned (funding_txid c ch) (1 + i) final_sequence) is)
  unfolding traverse bond_input utxo
  bond_inputs-Sums ch [] h = ([], refl, Sums-nil, refl)
  bond_inputs-Sums ch (i ∷ is) h =
      let (b, eb) = get_elem?-lt ch.bonds i h.0 in
      let (rest, er, sr, ir) = bond_inputs-Sums ch is h.1 in
      let amount : at (map (λ b. b.value) ch.bonds) i ≡ b.value =
        get_elem?-at (map (λ b. b.value) ch.bonds) i (get_elem?-map (λ b. b.value) ch.bonds i eb) in
      (
        (unsigned (funding_txid c ch) (1 + i) final_sequence, utxo b) ∷ rest,
        ground (arith, eb, er),
        rw amount (
            Sums-append (utxo b ∷ []) (map (λ b. b.1) rest) b.value
              (sum_over (at (map (λ b. b.value) ch.bonds)) is) (Sums-pays b.value b.locking_script)
              sr),
        ap (◌∷◌ (unsigned (funding_txid c ch) (1 + i) final_sequence)) ir,
      )

  sum_over-range : (xs : List ℕ) (n : ℕ) → length xs ≡ n → sum_over (at xs) (range n) ≡ sum xs
  unfolding range
  sum_over-range xs n e = rw (← e) (sum_over-at xs)

  -- The cooperative close of a conserved state spends the channel output and every bond, all under
  -- the final sequence, and pays out what they hold, with no fee: the funded satoshis and the bonds.
  pub build_close_tx_pays :
      (ch : Channel PrivateKey) (st : State)
      → IsFunded ch
      → IsConserved st ch.cfg
      → (tx : Tx) × (spent : List TxOutput) × (build_close_tx c ch st ≡ ok (tx, spent))
        × Sums tx.outputs (ch.cfg.s + sum ch.cfg.bonds)
        × Sums spent (ch.cfg.s + sum ch.cfg.bonds)
        × (tx.inputs
            ≡ unsigned (funding_txid c ch) 0 final_sequence
              ∷ map (λ i. unsigned (funding_txid c ch) (1 + i) final_sequence) (range ch.cfg.n))
  unfolding build_close_tx channel_output range
  build_close_tx_pays ch st f v =
      let n : ℕ = ch.cfg.n in
      let (q, eq, _, total, width) = quantise-ok st ch.cfg f.valid v in
      let bonds_width : length ch.bonds ≡ n =
        sym (length-map ch.bonds (λ b. b.value)) ∙ ap length f.bonded ∙ f.valid.bonded in
      let (outs, eo, so) =
        traverse-Sums (close_payout c ch q) (λ i. at q i + at ch.cfg.bonds i) n (range n)
          (λ i lt.
            close_payout-Sums ch q i (width ∙ sym f.keyed) (f.valid.bonded ∙ sym f.keyed)
              (omega (arith, f.keyed)))
          (range_from-AllBelow 0 n n (omega arith)) in
      let (ins, ei, si, ii) =
        bond_inputs-Sums ch (range n) (rw bonds_width (range_from-AllBelow 0 n n (omega arith))) in
      let due : sum_over (λ i. at q i + at ch.cfg.bonds i) (range n) ≡ ch.cfg.s + sum ch.cfg.bonds =
        sum_over-+ (at q) (at ch.cfg.bonds) (range n)
        ∙ ap₂ ◌+◌ (sum_over-range q n width ∙ total)
            (sum_over-range ch.cfg.bonds n f.valid.bonded) in
      let held : sum_over (at (map (λ b. b.value) ch.bonds)) (range n) ≡ sum ch.cfg.bonds =
        ap (λ bs. sum_over (at bs) (range n)) f.bonded
        ∙ sum_over-range ch.cfg.bonds n f.valid.bonded in
      (
        record {
          version = 1;
          inputs = unsigned (funding_txid c ch) 0 final_sequence ∷ map (λ b. b.0) ins;
          outputs = concat c outs;
          locktime = 0;
        },
        pays ch.cfg.s f.script ∷ map (λ b. b.1) ins,
        ground (arith, eq, f.output, ei, eo),
        rw due at so,
        Sums-append (pays ch.cfg.s f.script ∷ []) (map (λ b. b.1) ins) ch.cfg.s (sum ch.cfg.bonds)
            (Sums-pays ch.cfg.s f.script) (rw held at si),
        ap (◌∷◌ (unsigned (funding_txid c ch) 0 final_sequence)) ii,
      )
