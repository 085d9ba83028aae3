-- ===== src/Wallet/Funding.antt =====
-- A channel that a wallet funds: `build_channel_funding_tx` of src/channel/wallet/builder.py, and
-- `from_funding_tx` of src/channel/lifecycle.py on the transaction that it builds.
use mathlib.Core.List.{append-nil}
use bonded_subsat_channel.Base.{
  ℕ, suc, ◌+◌, ◌*◌, ◌≡◌, ◌∙◌, ◌↔◌, refl, sym, ap, ap₂, Bool, true, false, not, List, [], ◌∷◌, ◌++◌,
  length, length-append, get_elem?, arith, Result, ok, err, Error, ◌>>=◌, raise_if, ltb, ◌==◌,
  traverse, >>=-eq-ok, if◌then◌else◌,
}
use bonded_subsat_channel.Base.Int.{ℤ, pos, ◌-ℤ◌, ltb_ℤ, ◌==ℤ◌, ==ℤ_iff}
use bonded_subsat_channel.Base.Bytes.{same_bytes, same_bytes_refl, same_bytes-≡}
use bonded_subsat_channel.Base.Sums.{sum}
use bonded_subsat_channel.Config
use bonded_subsat_channel.Config.{ChannelConfig}
use bonded_subsat_channel.Accounting.{int, ensure_whole_satoshi}
use bonded_subsat_channel.Accounting.Order.{range}
use bonded_subsat_channel.Accounting.Order.Counts.{length-range}
use bonded_subsat_channel.Chain.{Bytes, Tx, TxOutput}
use bonded_subsat_channel.Crypto.{Crypto}
use bonded_subsat_channel.Keys.{KeyBook, public_keys}
use bonded_subsat_channel.Lifecycle.{
  Channel, pays, build_channel_outputs, check_outputs, from_funding_tx, bond_tx_output,
}
use bonded_subsat_channel.Lifecycle.Funding.{build_channel_outputs-ok, wrap_funding-ok}
use bonded_subsat_channel.Lifecycle.Seeding.{seeded}
use bonded_subsat_channel.Lifecycle.Settlement.{IsFunded}
use bonded_subsat_channel.Scripts.{channel_funding_script, p2pkh_script}
use bonded_subsat_channel.Wallet.{
  Keyed, unsigned_inputs, scaled, sum_values, with_change, sign_inputs, build_channel_funding_tx,
  default_dust_threshold,
}
use bonded_subsat_channel.Wallet.Outputs.{sign_inputs-outputs}

traverse-length :
    {A B : Type 0} (f : A → Result B) (xs : List A) {ys : List B}
    → traverse f xs ≡ ok ys
    → length ys ≡ length xs
unfolding traverse
traverse-length f [] {ys} e = let is : [] ≡ ys = cc e in rw (← is) refl
traverse-length f (x ∷ xs) {ys} e =
    let (z, _, e1) = >>=-eq-ok (f x) (λ y. traverse f xs >>= λ ys. ok (y ∷ ys)) e in
    let (zs, e2, e3) = >>=-eq-ok (traverse f xs) (λ ys. ok (z ∷ ys)) e1 in
    let is : z ∷ zs ≡ ys = cc e3 in rw (← is) (ap suc (traverse-length f xs e2))

abbrev outputs_of : Result Tx → List TxOutput
outputs_of (err e) = []
outputs_of (ok tx) = tx.outputs

if-front :
    (b : Bool) (os more : List TxOutput) {whole : List TxOutput}
    → (if b then os else os ++ more) ≡ whole
    → (change : List TxOutput) × (whole ≡ os ++ change)
if-front true os more e = ([], sym e ∙ sym (append-nil os))
if-front false os more e = (more, sym e)

module _ (c : Crypto) where
  open c use {PrivateKey, PublicKey}

  -- The outputs at the front are those wanted.
  check_outputs-front : (wants rest : List TxOutput) → check_outputs c (wants ++ rest) wants ≡ ok tt
  unfolding check_outputs
  check_outputs-front [] rest = refl
  check_outputs-front (want ∷ wants) rest = rw (
    (==ℤ_iff want.value want.value).1 refl,
    same_bytes_refl want.script_pubkey,
    check_outputs-front wants rest,
  )

  check_outputs-ok :
      (haves wants : List TxOutput)
      → check_outputs c haves wants ≡ ok tt
      → (rest : List TxOutput) × (haves ≡ wants ++ rest)
  unfolding check_outputs
  check_outputs-ok haves [] e = (haves, refl)
  check_outputs-ok [] (want ∷ wants) e = absurd (cc e)
  check_outputs-ok (have ∷ haves) (want ∷ wants) e =
      let (_, e0, e1) = >>=-eq-ok (raise_if (not (have.value ==ℤ want.value)) Error.state) _ e in
      let (_, e2, e3) =
        >>=-eq-ok (raise_if (not (same_bytes have.script_pubkey want.script_pubkey)) Error.state) _
          e1 in
      let (rest, same) = check_outputs-ok haves wants e3 in
      let value : have.value ≡ want.value =
        (==ℤ_iff have.value want.value).0 (ground (arith, e0)) in
      let script : have.script_pubkey ≡ want.script_pubkey =
        same_bytes-≡ have.script_pubkey want.script_pubkey (ground (arith, e2)) in
      (rest, ap₂ ◌∷◌ (λ i. record { value = value i; script_pubkey = script i }) same)

  module _ (cfg : ChannelConfig) (keybook : KeyBook c) (valid : Config.IsValid cfg)
      (keyed : length keybook ≡ cfg.n) where
    outputs_width :
        {outputs : List TxOutput}
        → build_channel_outputs c cfg keybook ≡ ok outputs
        → length outputs ≡ 1 + cfg.n
    unfolding build_channel_outputs
    outputs_width {outputs} e =
        let (_, _, e1) = >>=-eq-ok (raise_if (not (length keybook == cfg.n)) Error.state) _ e in
        let (script, _, e2) = >>=-eq-ok (channel_funding_script c (public_keys c keybook)) _ e1 in
        let (bonds, e3, e4) =
          >>=-eq-ok (traverse (bond_tx_output c cfg (public_keys c keybook)) (range cfg.n)) _ e2 in
        let is : pays cfg.s script ∷ bonds ≡ outputs = cc e4 in
        rw (← is) (
          omega (
            arith,
            traverse-length (bond_tx_output c cfg (public_keys c keybook)) (range cfg.n) e3,
            length-range cfg.n,
          ))

    -- The transaction is taken, as a channel that is funded as its settlement needs it, not
    -- confirmed, at its initial state.
    abbrev pub IsAdopted : Tx → List TxOutput → Type 0
    IsAdopted tx parents =
        (ch : Channel PrivateKey) × (from_funding_tx c cfg keybook tx parents ≡ ok ch)
        × IsFunded c ch
        × (ch.state ≡ seeded cfg 0)
        × (ch.funding_confirmed ≡ false)
        × (ch.cfg ≡ cfg)

    adopted :
        (tx : Tx) (parents : List TxOutput) (script : Bytes) (bonds rest : List TxOutput)
        → build_channel_outputs c cfg keybook ≡ ok (pays cfg.s script ∷ bonds)
        → tx.outputs ≡ pays cfg.s script ∷ (bonds ++ rest)
        → IsAdopted tx parents
    unfolding from_funding_tx
    adopted tx parents script bonds rest e whole =
        let outputs : List TxOutput = pays cfg.s script ∷ bonds in
        let (ch, wraps, funded, es, eu, ec) =
          wrap_funding-ok c cfg keybook valid keyed tx parents script
            (ap (λ os. get_elem? os 0) whole) in
        let enough : ltb (length tx.outputs) (1 + cfg.n) ≡ false =
          ground (arith, ap length whole, length-append outputs rest, outputs_width e) in
        let checked : check_outputs c tx.outputs outputs ≡ ok tt =
          ap (λ os. check_outputs c os outputs) whole ∙ check_outputs-front outputs rest in
        (ch, rw (from_funding_tx, e, enough, checked) wraps, funded, es, eu, ec)

    -- With a valid configuration and a key for each party, `from_funding_tx` takes exactly the
    -- transactions whose outputs begin with those of `build_channel_outputs`, and wraps them as a
    -- channel that is funded as its settlement needs it, not confirmed, at its initial state.
    pub from_funding_tx-IsAdopted :
        (tx : Tx) (parents : List TxOutput)
        → (outputs : List TxOutput) × (build_channel_outputs c cfg keybook ≡ ok outputs)
          × (IsAdopted tx parents ↔ ((rest : List TxOutput) × (tx.outputs ≡ outputs ++ rest)))
    unfolding from_funding_tx
    from_funding_tx-IsAdopted tx parents =
        let (script, bonds, e) = build_channel_outputs-ok c cfg keybook valid keyed in
        let outputs : List TxOutput = pays cfg.s script ∷ bonds in
        (
          outputs,
          e,
          (
            λ (ch, taken, _, _, _, _).
                let (found, e0, e1) = >>=-eq-ok (build_channel_outputs c cfg keybook) _ taken in
                let (_, _, e2) =
                  >>=-eq-ok (raise_if (ltb (length tx.outputs) (1 + cfg.n)) Error.state) _ e1 in
                let (_, e3, _) = >>=-eq-ok (check_outputs c tx.outputs found) _ e2 in
                let same : found ≡ outputs = cc (e, e0) in
                check_outputs-ok tx.outputs outputs
                  (ap (check_outputs c tx.outputs) (sym same) ∙ e3),
            λ (rest, whole). adopted tx parents script bonds rest e whole,
          ),
        )

  module _ (tx_size : Tx → ℕ) (cfg : ChannelConfig) (keybook : KeyBook c)
      (valid : Config.IsValid cfg) (keyed : length keybook ≡ cfg.n) where
    with_change-front :
        (funders : List (Keyed c tx_size)) (total : ℕ) (outputs : List TxOutput) (script : Bytes)
        (rate dust : ℤ) {tx : Tx}
        → with_change c tx_size funders total outputs script rate dust ≡ ok tx
        → (change : List TxOutput) × (tx.outputs ≡ outputs ++ change)
    unfolding with_change
    with_change-front funders total outputs script rate dust {tx} e =
        let inputs = unsigned_inputs c tx_size funders in
        let rough : Tx = record {
          version = 1;
          inputs = inputs;
          outputs = outputs ++ pays 0 script ∷ [];
          locktime = 0;
        } in
        let fee : ℤ = scaled (tx_size rough + 108 * length inputs) rate in
        let left : ℤ = (pos total -ℤ sum_values outputs) -ℤ fee in
        let (_, _, made) = >>=-eq-ok (raise_if (ltb_ℤ left (pos 0)) Error.wallet_build) _ e in
        if-front (ltb_ℤ left dust) outputs (record { value = left; script_pubkey = script } ∷ [])
          (ap outputs_of made)

    -- A funding transaction that the wallet builds for a valid configuration and its keys is taken by
    -- `from_funding_tx`, whatever its funds, its rate and its change are.
    pub from_funding_tx-build_channel_funding_tx :
        (funders : List (Keyed c tx_size)) (pk : PublicKey) (rate : ℤ) (parents : List TxOutput)
        {tx : Tx}
        → build_channel_funding_tx c tx_size funders cfg keybook pk rate ≡ ok tx
        → IsAdopted cfg keybook valid keyed tx parents
    unfolding build_channel_funding_tx
    from_funding_tx-build_channel_funding_tx funders pk rate parents {tx} e =
        let (script, bonds, eo) = build_channel_outputs-ok c cfg keybook valid keyed in
        let (_, _, e1) = >>=-eq-ok (raise_if (length funders == 0) Error.wallet_build) _ e in
        let (ins, _, e2) =
          >>=-eq-ok
            (traverse (λ (f : Keyed c tx_size). ensure_whole_satoshi (int f.0.value)) funders) _
            e1 in
        let (outputs, e3, e4) = >>=-eq-ok (build_channel_outputs c cfg keybook) _ e2 in
        let (rough, e5, e6) =
          >>=-eq-ok
            (with_change c tx_size funders (sum ins) outputs (p2pkh_script c pk) rate
              (pos default_dust_threshold))
            _ e4 in
        let (change, front) =
          with_change-front funders (sum ins) outputs (p2pkh_script c pk) rate
            (pos default_dust_threshold) e5 in
        let same : outputs ≡ pays cfg.s script ∷ bonds = cc (eo, e3) in
        let signed : sign_inputs c tx_size 0 funders rough ≡ tx = cc e6 in
        adopted cfg keybook valid keyed tx parents script bonds change eo (
          ap (λ (t : Tx). t.outputs) (sym signed)
          ∙ sign_inputs-outputs c tx_size 0 funders rough
          ∙ front
          ∙ ap (λ os. os ++ change) same)
