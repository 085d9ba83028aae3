-- ===== src/Crypto.antt =====
-- What the package takes from bitcoinx besides transactions: keys, signatures, hashes and the
-- building of scripts by `<<`. All of it is a parameter; `Op` names the opcodes that the sources
-- write, and the two timelock opcodes that they keep out.
use bonded_subsat_channel.Base.{ℕ, ◌++◌, [], ◌∷◌}
use bonded_subsat_channel.Base.Int.{ℤ}
use bonded_subsat_channel.Chain.{Bytes, Tx, Bitcoinx}

pub data Op : Type 0 where
  op_0 op_if op_else op_endif op_true op_return : Op
  op_hash160 op_equalverify op_checksig op_checkmultisig : Op
  op_checklocktimeverify op_checksequenceverify : Op
  op_small : ℕ → Op

pub record Crypto : Type 1 where
  pub lib : Bitcoinx
  pub PrivateKey : Type 0
  pub PublicKey : Type 0
  pub public_key : PrivateKey → PublicKey
  -- `PublicKey.to_bytes`
  pub public_bytes : PublicKey → Bytes
  -- `PublicKey.P2PKH_script`
  pub p2pkh : PublicKey → Bytes
  -- `Tx.signature_hash` and `PrivateKey.sign`
  pub signature_hash : Tx → ℕ → ℤ → Bytes → ℕ → Bytes
  pub sign : PrivateKey → Bytes → Bytes
  -- `Script() << op` and `Script() << data`
  pub push_op : Bytes → Op → Bytes
  pub push_data : Bytes → Bytes → Bytes
  pub hash160 : Bytes → Bytes

-- `SIGHASH_ALL | SIGHASH_FORKID`
abbrev pub sighash_all_forkid : ℕ
sighash_all_forkid = 0x41

module _ (c : Crypto) where
  open c use {PrivateKey, signature_hash, sign}

  -- src/channel/signing.py
  unfoldable pub sign_input : Tx → ℕ → ℤ → Bytes → PrivateKey → Bytes
  sign_input tx i value code priv =
      sign priv (signature_hash tx i value code sighash_all_forkid) ++ (sighash_all_forkid ∷ [])
