-- ===== src/Bond.antt =====
-- src/channel/bond.py: the bond outputs, their return and their forfeiture.
use bonded_subsat_channel.Base.{ℕ, List, [], ◌∷◌, map, Result, ok, err, Error, ◌>>=◌}
use bonded_subsat_channel.Base.Int.{pos}
use bonded_subsat_channel.Accounting.{int, ensure_whole_satoshi}
use bonded_subsat_channel.Chain.{Bytes, Hash, Tx, TxOutput}
use bonded_subsat_channel.Crypto.{Crypto, sign_input}
use bonded_subsat_channel.Scripts.{bond_script, bond_return_unlock, bond_forfeit_unlock}

pub record BondOutput : Type 0 where
  pub owner_index : ℕ
  pub value : ℕ
  pub funding_txid : Hash
  pub vout : ℕ
  pub locking_script : Bytes

unfoldable pub utxo : BondOutput → TxOutput
utxo b = record { value = pos b.value; script_pubkey = b.locking_script }

module _ (c : Crypto) where
  open c use {PrivateKey, PublicKey}

  unfoldable pub make_bond_script_for : PublicKey → List PublicKey → Result Bytes
  make_bond_script_for owner [] = err Error.script_build
  make_bond_script_for owner (p ∷ ps) = bond_script c owner (p ∷ ps)

  unfoldable pub sign_bond_return : Tx → ℕ → BondOutput → PrivateKey → Result Bytes
  sign_bond_return tx i bond owner_priv = do
    _ ← ensure_whole_satoshi (int (pos bond.value))
    ok (bond_return_unlock c (sign_input c tx i (pos bond.value) bond.locking_script owner_priv))

  unfoldable pub sign_bond_forfeit : Tx → ℕ → BondOutput → List PrivateKey → Result Bytes
  sign_bond_forfeit tx i bond [] = err Error.script_build
  sign_bond_forfeit tx i bond (p ∷ ps) =
      bond_forfeit_unlock c (map (sign_input c tx i (pos bond.value) bond.locking_script) (p ∷ ps))
