-- ===== src/Wallet.antt =====
-- src/channel/wallet/builder.py, utxo.py and send.py: the scripts of a wallet, its unspent outputs,
-- and the payments that it builds. `Tx.size` of bitcoinx is the parameter `tx_size`.
pub mod Outputs
pub mod Payment
pub mod Selection
pub mod Manage
pub mod Receives
pub mod Spends
pub mod Funding
use bonded_subsat_channel.Base.{
  ℕ, suc, ◌+◌, ◌*◌, Bool, Option, List, [], ◌∷◌, ◌++◌, map, length, Result, ok, err, Error, ◌>>=◌,
  ◌>>◌, raise_if, or_raise, ◌==◌, if◌then◌else◌, traverse,
}
use bonded_subsat_channel.Base.Int.{ℤ, pos, negsuc, ◌+ℤ◌, ◌-ℤ◌, ltb_ℤ, leb_ℤ}
use bonded_subsat_channel.Base.Sums.{sum}
use bonded_subsat_channel.Base.Dict.{Dict, lookup, insert}
use bonded_subsat_channel.Base.Bytes.{bytes_eq}
use bonded_subsat_channel.Config.{ChannelConfig, final_sequence}
use bonded_subsat_channel.Accounting.{int, ensure_whole_satoshi}
use bonded_subsat_channel.Accounting.Order.{sort_by}
use bonded_subsat_channel.Chain.{Bytes, Tx, TxInput, TxOutput}
use bonded_subsat_channel.Crypto.{Crypto, sign_input}
use bonded_subsat_channel.Keys.{KeyBook}
use bonded_subsat_channel.Lifecycle.{unsigned, build_channel_outputs}
use bonded_subsat_channel.Lifecycle.Closing.{with_unlock}
use bonded_subsat_channel.Node.BlockStore.{BlockStore, UtxoEntry, utxos_for_script}
use bonded_subsat_channel.Scripts.{p2pkh_script, p2pkh_unlock}

abbrev pub default_dust_threshold : ℕ
default_dust_threshold = 1

-- the order of `sorted(utxos, key=lambda u: -u.value)`
abbrev pub larger_first : UtxoEntry → UtxoEntry → Bool
larger_first u v = leb_ℤ v.value u.value

-- the loop of `select_utxos`
unfoldable pub select_from : ℤ → ℤ → List UtxoEntry → Result (List UtxoEntry)
select_from target acc [] = err Error.wallet_build
select_from target acc (u ∷ us) =
    let rest = select_from target (acc +ℤ u.value) us in
    if leb_ℤ target (acc +ℤ u.value)
    then ok (u ∷ [])
    else elim rest [ err e ↦ err e | ok selected ↦ ok (u ∷ selected) ]

unfoldable pub select_utxos : List UtxoEntry → ℤ → Result (List UtxoEntry)
select_utxos utxos target_value = do
  raise_if (ltb_ℤ target_value (pos 0)) Error.wallet_build
  select_from target_value (pos 0) (sort_by larger_first utxos)

-- `size * rate`
unfoldable pub scaled : ℕ → ℤ → ℤ
scaled size (pos rate) = pos (size * rate)
scaled size (negsuc rate) = pos 0 -ℤ pos (size * suc rate)

-- `sum(e.value for e in … if e.height >= 0)`
unfoldable pub sum_confirmed : List UtxoEntry → ℤ
sum_confirmed [] = pos 0
sum_confirmed (e ∷ es) =
    let rest = sum_confirmed es in if leb_ℤ (pos 0) e.height then e.value +ℤ rest else rest

-- `sum(u.value for u in utxos)`
unfoldable pub sum_entries : List UtxoEntry → ℤ
sum_entries [] = pos 0
sum_entries (u ∷ us) = u.value +ℤ sum_entries us

-- `sum(o.value for o in outputs)`
unfoldable pub sum_values : List TxOutput → ℤ
sum_values [] = pos 0
sum_values (o ∷ os) = o.value +ℤ sum_values os

module _ (c : Crypto) (tx_size : Tx → ℕ) where
  open c use {PrivateKey, PublicKey, public_key}

  -- `WalletScripts`, by script
  abbrev pub WalletScripts : Type 0
  WalletScripts = Dict Bytes (ℕ × ℕ × PrivateKey)

  unfoldable pub add_p2pkh : ℕ → ℕ → PrivateKey → WalletScripts → Bytes × WalletScripts
  add_p2pkh account index priv scripts =
      let script = p2pkh_script c (public_key priv) in
      (script, insert script (account, index, priv) scripts)

  unfoldable pub keys_for : Bytes → WalletScripts → Option (ℕ × ℕ × PrivateKey)
  keys_for script scripts = lookup script scripts

  -- `WalletUtxoView.refresh`
  unfoldable pub refresh : WalletScripts → BlockStore → List UtxoEntry
  refresh [] s = []
  refresh ((script, _) ∷ scripts) s = utxos_for_script script s ++ refresh scripts s

  unfoldable pub confirmed_balance : WalletScripts → BlockStore → ℤ
  confirmed_balance scripts s = sum_confirmed (refresh scripts s)

  abbrev pub Keyed : Type 0
  Keyed = UtxoEntry × PrivateKey

  abbrev pub unsigned_inputs : List Keyed → List TxInput
  unsigned_inputs funders = map (λ f. unsigned f.0.txid f.0.vout final_sequence) funders

  -- the transaction before it is signed: the change is what the inputs leave above the outputs and
  -- the fee of a size estimated with a change output of no value and 108 bytes for each signature
  unfoldable pub with_change : List Keyed → ℕ → List TxOutput → Bytes → ℤ → ℤ → Result Tx
  with_change funders total_in outputs change_script fee_per_byte dust_threshold = do
    let inputs = unsigned_inputs funders
    let placeholder : TxOutput = record { value = pos 0; script_pubkey = change_script }
    let rough : Tx = record {
      version = 1;
      inputs = inputs;
      outputs = outputs ++ placeholder ∷ [];
      locktime = 0;
    }
    let fee = scaled (tx_size rough + 108 * length inputs) fee_per_byte
    let change = (pos total_in -ℤ sum_values outputs) -ℤ fee
    raise_if (ltb_ℤ change (pos 0)) Error.wallet_build
    let output : TxOutput = record { value = change; script_pubkey = change_script }
    ok (record rough {
      outputs = if ltb_ℤ change dust_threshold then outputs else outputs ++ output ∷ [];
    })

  -- the loop that signs the inputs, from input `i` on
  unfoldable pub sign_inputs : ℕ → List Keyed → Tx → Tx
  sign_inputs i [] tx = tx
  sign_inputs i ((u, priv) ∷ rest) tx =
      let sig = sign_input c tx i u.value u.script_pubkey priv in
      sign_inputs (i + 1) rest (with_unlock c i (p2pkh_unlock c sig (public_key priv)) tx)

  unfoldable pub build_and_sign_payment : List Keyed → List TxOutput → PublicKey → ℤ → ℤ → Result Tx
  build_and_sign_payment funders outputs change_pubkey fee_per_byte dust_threshold = do
    raise_if (length funders == 0) Error.wallet_build
    ins ← traverse (λ (f : Keyed). ensure_whole_satoshi (int f.0.value)) funders
    _ ← traverse (λ (o : TxOutput). ensure_whole_satoshi (int o.value)) outputs
    tx ←
        with_change funders (sum ins) outputs (p2pkh_script c change_pubkey) fee_per_byte
          dust_threshold
    ok (sign_inputs 0 funders tx)

  -- `view.scripts.keys_for` of each output selected
  unfoldable pub keyed_with : WalletScripts → List UtxoEntry → Result (List Keyed)
  keyed_with scripts utxos =
      traverse
        (λ u. do
          (_, _, priv) ← or_raise (keys_for u.script_pubkey scripts) Error.send
          ok (u, priv))
        utxos

  -- `pay_p2pkh` up to the submission: the transaction and its fee
  unfoldable pub pay_p2pkh :
      WalletScripts → BlockStore → PublicKey → ℤ → PublicKey → ℤ → Result (Tx × ℤ)
  pay_p2pkh scripts s target_pubkey amount change_pubkey fee_per_byte = do
    let utxos = refresh scripts s
    raise_if (length utxos == 0) Error.send
    selected ← select_utxos utxos (amount +ℤ pos 1000)
    keyed ← keyed_with scripts selected
    let out : TxOutput = record { value = amount; script_pubkey = p2pkh_script c target_pubkey }
    tx ←
        build_and_sign_payment keyed (out ∷ []) change_pubkey fee_per_byte
          (pos default_dust_threshold)
    ok (tx, sum_entries (map (λ f. f.0) keyed) -ℤ sum_values tx.outputs)

  unfoldable pub build_channel_funding_tx :
      List Keyed → ChannelConfig → KeyBook c → PublicKey → ℤ → Result Tx
  build_channel_funding_tx funders cfg keybook change_pubkey fee_per_byte = do
    raise_if (length funders == 0) Error.wallet_build
    ins ← traverse (λ (f : Keyed). ensure_whole_satoshi (int f.0.value)) funders
    outputs ← build_channel_outputs c cfg keybook
    tx ←
        with_change funders (sum ins) outputs (p2pkh_script c change_pubkey) fee_per_byte
          (pos default_dust_threshold)
    ok (sign_inputs 0 funders tx)
