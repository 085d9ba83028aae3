-- ===== src/Lifecycle/Forfeit.antt =====
-- The outputs and the signatures of `forfeit_bond_tx` in src/channel/lifecycle.py.
use bonded_subsat_channel.Base.{
  ℕ, zero, suc, ◌+◌, ◌-◌, ◌*◌, ◌/◌, ◌≤◌, ◌<◌, ◌≡◌, refl, ap, ◌∙◌, inl, inr, true, Option, none,
  some, List, [], ◌∷◌, ◌++◌, length, get_elem?, get_elem?-lt, arith, ok, ◌>>=◌, ltb, if◌then◌else◌,
  traverse, Bool-cases,
}
use bonded_subsat_channel.Base.Int.{pos}
use bonded_subsat_channel.Config.{final_sequence}
use bonded_subsat_channel.Accounting.Order.{range}
use bonded_subsat_channel.Accounting.Order.Counts.{length-range}
use bonded_subsat_channel.Bond.{BondOutput, utxo, sign_bond_forfeit}
use bonded_subsat_channel.Chain.{Bytes, Tx, TxOutput}
use bonded_subsat_channel.Crypto.{Crypto}
use bonded_subsat_channel.Keys.{KeyBook, private}
use bonded_subsat_channel.Lifecycle.{Channel, all_but, unsigned, require_confirmed, funding_txid}
use bonded_subsat_channel.Lifecycle.Closing.{
  pay_party, honest_payouts, tower_output, remaining, with_unlock, unlock_at, forfeit_bond_tx,
}
use bonded_subsat_channel.Lifecycle.Payouts.{Sums, Sums-nil, Sums-pays, Sums-append, pay_party-Sums}
use bonded_subsat_channel.Lifecycle.Settlement.{IsFunded, AllBelow, range_from-AllBelow}
use bonded_subsat_channel.Scripts.{p2pkh_script, bond_forfeit_unlock}
use bonded_subsat_channel.Verify.{verify_all_inputs}

pub length-all_but {ℓ} :
    {A : Type ℓ} (i : ℕ) (xs : List A) → i < length xs → suc (length (all_but i xs)) ≡ length xs
unfolding all_but
length-all_but i [] h = absurd (omega arith)
length-all_but zero (x ∷ xs) h = refl
length-all_but (suc i) (x ∷ xs) h = ap suc (length-all_but i xs (omega arith))

module _ (c : Crypto) where
  open c use {PrivateKey, PublicKey}

  -- An output of nothing is left out.
  due-Sums :
      (book : KeyBook c) (i v : ℕ)
      → i < length book
      → (outs : List TxOutput) × ((if ltb 0 v then pay_party c book i v else ok []) ≡ ok outs)
        × Sums outs v
  due-Sums book i v lt =
      let (out, eo, so) = pay_party-Sums c book i v lt in
      elim (Bool-cases (ltb 0 v)) [
        | inl due ↦ (out, rw due eo, so)
        | inr none_due ↦ ([], rw none_due, λ t. Sums-nil t ∙ ap some (ground (arith, none_due)))
      ]

  honest_payouts-Sums :
      (book : KeyBook c) (share rem : ℕ) (i : ℕ) (is : List ℕ)
      → AllBelow c (length book) (i ∷ is)
      → (outs : List TxOutput) × (honest_payouts c book share rem (i ∷ is) ≡ ok outs)
        × Sums outs (share * length (i ∷ is) + rem)
  unfolding honest_payouts
  honest_payouts-Sums book share rem i [] h =
      let (out, eo, so) = due-Sums book i (share + rem) h.0 in
      (out, eo, λ t. so t ∙ ap some (omega arith))
  honest_payouts-Sums book share rem i (j ∷ is) h =
      let (out, eo, so) = due-Sums book i share h.0 in
      let (rest, er, sr) = honest_payouts-Sums book share rem j is h.1 in
      (
        out ++ rest,
        rw (eo, er),
        λ t.
            Sums-append out rest share (share * length (j ∷ is) + rem) so sr t
            ∙ ap some (grind arith),
      )

  tower_output-Sums :
      (tower : Option PublicKey) (fee value : ℕ)
      → fee ≤ value
      → (paid : ℕ) × Sums (tower_output c tower fee) paid
        × (paid + remaining c tower fee value ≡ value)
  unfolding tower_output remaining
  tower_output-Sums none fee value h = (0, Sums-nil, omega arith)
  tower_output-Sums (some pk) fee value h = elim (Bool-cases (ltb 0 fee)) [
    | inl due ↦ (fee, rw due (Sums-pays fee (p2pkh_script c pk)), omega arith)
    | inr none_due ↦ (0, rw none_due Sums-nil, ground (arith, none_due))
  ]

  all_but-AllBelow : (i n : ℕ) (is : List ℕ) → AllBelow c n is → AllBelow c n (all_but i is)
  unfolding all_but
  all_but-AllBelow i n [] h = tt
  all_but-AllBelow zero n (x ∷ xs) h = h.1
  all_but-AllBelow (suc i) n (x ∷ xs) h = (h.0, all_but-AllBelow i n xs h.1)

  -- The keys of the parties in the list are in the book.
  traverse-keys :
      (book : KeyBook c) (is : List ℕ)
      → AllBelow c (length book) is
      → (ks : List PrivateKey) × (traverse (λ i. private c book (pos i)) is ≡ ok ks)
        × (length ks ≡ length is)
  unfolding traverse private
  traverse-keys book [] h = ([], refl, refl)
  traverse-keys book (i ∷ is) h =
      let (k, ek) = get_elem?-lt book i h.0 in
      let (ks, e, w) = traverse-keys book is h.1 in (k ∷ ks, ground (arith, ek, e, h.0), ap suc w)

  sign_bond_forfeit-ok :
      (tx : Tx) (bond : BondOutput) (ks : List PrivateKey)
      → 0 < length ks
      → (script : Bytes) × (sign_bond_forfeit c tx 0 bond ks ≡ ok script)
  unfolding sign_bond_forfeit bond_forfeit_unlock
  sign_bond_forfeit-ok tx bond [] h = absurd (omega arith)
  sign_bond_forfeit-ok tx bond (k ∷ ks) h = (_, refl)

  list-cons : (is : List ℕ) → 0 < length is → (i : ℕ) × (js : List ℕ) × (is ≡ i ∷ js)
  list-cons [] h = absurd (omega arith)
  list-cons (i ∷ js) h = (i, js, refl)

  -- The honest parties are paid what is left, with what the division leaves for the last.
  split-Sums :
      (book : KeyBook c) (left : ℕ) (honest : List ℕ)
      → 0 < length honest
      → AllBelow c (length book) honest
      → (outs : List TxOutput) × (let share = left / length honest in
          honest_payouts c book share (left - share * length honest) honest ≡ ok outs)
        × Sums outs left
  split-Sums book left honest some_honest below =
      let (i, js, e) = list-cons honest some_honest in
      let m : ℕ = length honest in
      let share : ℕ = left / m in
      let fits : share * m ≤ left = quotient_fits left m some_honest in
      let (outs, eo, so) = honest_payouts-Sums book share (left - share * m) i js (rw e at below) in
      (
        outs,
        ap (honest_payouts c book share (left - share * m)) e ∙ eo,
        λ t. so t ∙ ap some (omega (arith, fits, ap (λ is. share * length is) e)),
      )
    where
      quotient_fits : (a b : ℕ) → 0 < b → a / b * b ≤ a
      quotient_fits a b h = grind arith

  -- On a confirmed, funded channel the forfeiture of the bond of a party, for a fee of 0 or more that
  -- the bond covers, is built and signed by every other party over the transaction before it is
  -- signed, and returned if the interpreter accepts it. It spends that bond alone, under the final
  -- sequence, and its outputs sum to the bond: nothing is lost to the division or to a fee.
  pub forfeit_bond_tx_pays :
      (ch : Channel PrivateKey) (o : ℕ) (tower : Option PublicKey) (fee : ℕ) (bond : BondOutput)
      → IsFunded c ch
      → ch.funding_confirmed ≡ true
      → o < ch.cfg.n
      → get_elem? ch.bonds o ≡ some bond
      → fee ≤ bond.value
      → (signed : Tx) × (script : Bytes) × (forfeit_bond_tx c ch (pos o) tower (pos fee)
          ≡ (verify_all_inputs c.lib signed (utxo bond ∷ []) >>= λ _. ok (signed, utxo bond ∷ [])))
        × Sums signed.outputs bond.value
        × (signed.inputs
            ≡ record {
              prev_hash = funding_txid c ch;
              prev_idx = 1 + o;
              script_sig = script;
              sequence = final_sequence;
            }
              ∷ [])
        × ((keys : List PrivateKey) × (traverse
                (λ i. private c ch.keybook (pos i))
                (all_but o (range ch.cfg.n))
              ≡ ok keys)
            × (sign_bond_forfeit c
                  (record signed {
                    inputs = unsigned (funding_txid c ch) (1 + o) final_sequence ∷ [];
                  })
                  0
                  bond
                  keys
                ≡ ok script))
  unfolding forfeit_bond_tx require_confirmed with_unlock unlock_at
  forfeit_bond_tx_pays ch o tower fee bond f confirmed lt eb cover =
      let n : ℕ = ch.cfg.n in
      let honest : List ℕ = all_but o (range n) in
      let below : AllBelow c (length ch.keybook) honest =
        all_but-AllBelow o (length ch.keybook) (range n)
          (rw f.keyed (unfold range in range_from-AllBelow c 0 n n (omega arith))) in
      let width : suc (length honest) ≡ n =
        length-all_but o (range n) (rw (length-range n) lt) ∙ length-range n in
      let some_honest : 0 < length honest = omega (arith, width, f.valid.parties) in
      let left : ℕ = remaining c tower fee bond.value in
      let (paid, sp, whole) = tower_output-Sums tower fee bond.value cover in
      let (outs, eo, so) = split-Sums ch.keybook left honest some_honest below in
      let (ks, ek, wk) = traverse-keys ch.keybook honest below in
      let tx : Tx = record {
        version = 1;
        inputs = unsigned (funding_txid c ch) (1 + o) final_sequence ∷ [];
        outputs = tower_output c tower fee ++ outs;
        locktime = 0;
      } in
      let (script, es) = sign_bond_forfeit-ok tx bond ks (omega (arith, wk, some_honest)) in
      (
        with_unlock c 0 script tx,
        script,
        ground (arith, confirmed, lt, eb, cover, eo, ek, es, some_honest),
        λ t.
            Sums-append (tower_output c tower fee) outs paid left sp so t
            ∙ ap some (omega (arith, whole)),
        refl,
        (ks, ek, es),
      )
