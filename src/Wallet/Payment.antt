-- ===== src/Wallet/Payment.antt =====
-- What `build_and_sign_payment` of src/channel/wallet/builder.py pays out.
use bonded_subsat_channel.Base.{
  ℕ, ◌+◌, ◌*◌, ◌≤◌, ◌<◌, ◌≡◌, ◌⊎◌, List, [], ◌∷◌, ◌++◌, length, ok, traverse,
}
use bonded_subsat_channel.Accounting.{int, ensure_whole_satoshi}
use bonded_subsat_channel.Chain.{Bytes, Tx, TxOutput}
use bonded_subsat_channel.Crypto.{Crypto}
use bonded_subsat_channel.Lifecycle.{pays}
use bonded_subsat_channel.Lifecycle.Payouts.{Sums}
use bonded_subsat_channel.Scripts.{p2pkh_script}
use bonded_subsat_channel.Wallet.{Keyed, unsigned_inputs}

-- no change, or one output of the script that holds the threshold at least
abbrev pub IsChange : ℕ → Bytes → List TxOutput → Type 0
IsChange dust script change = (change ≡ []) ⊎ ((v : ℕ) × (dust ≤ v) × (change ≡ pays v script ∷ []))

module _ (c : Crypto) (tx_size : Tx → ℕ) where
  open c use {PrivateKey, PublicKey}

  -- the fee of the size that the code estimates
  abbrev pub estimated_fee : List (Keyed c tx_size) → List TxOutput → Bytes → ℕ → ℕ
  estimated_fee funders outputs change_script rate =
      (tx_size (record {
        version = 1;
        inputs = unsigned_inputs c tx_size funders;
        outputs = outputs ++ pays 0 change_script ∷ [];
        locktime = 0;
      })
        + 108 * length (unsigned_inputs c tx_size funders))
      * rate

  module _ (funders : List (Keyed c tx_size)) (outputs : List TxOutput) (pk : PublicKey)
      (rate dust : ℕ) {ins outs : List ℕ} (some_input : 0 < length funders)
      (whole_in : traverse (λ (f : Keyed c tx_size). ensure_whole_satoshi (int f.0.value)) funders
        ≡ ok ins)
      (whole_out : traverse (λ (o : TxOutput). ensure_whole_satoshi (int o.value)) outputs
        ≡ ok outs) where
    -- the fee that the payment is to leave
    abbrev pub payment_fee : ℕ
    payment_fee = estimated_fee funders outputs (p2pkh_script c pk) rate
