-- ===== src/Chain.antt =====
-- The transactions that the package handles. `Tx`, `TxInput` and `TxOutput` belong to bitcoinx:
-- they are read as the plain records that the sources build by their constructors and take apart by
-- their fields. What bitcoinx computes from them is the parameter `Bitcoinx`. A 32-byte hash is
-- only compared, so it is the number that its bytes write; scripts are their bytes.
use bonded_subsat_channel.Base.{ℕ, Bool, List, Result, map}
use bonded_subsat_channel.Base.Int.{ℤ}

abbrev pub Bytes : Type 0
Bytes = List ℕ

abbrev pub Hash : Type 0
Hash = ℕ

abbrev pub Outpoint : Type 0
Outpoint = Hash × ℕ

pub record TxInput : Type 0 where
  pub prev_hash : Hash
  pub prev_idx : ℕ
  pub script_sig : Bytes
  pub sequence : ℕ

pub record TxOutput : Type 0 where
  pub value : ℤ
  pub script_pubkey : Bytes

pub record Tx : Type 0 where
  pub version : ℕ
  pub inputs : List TxInput
  pub outputs : List TxOutput
  pub locktime : ℕ

-- `Tx.hash`, `Tx.is_coinbase` and the script interpreter, which may raise.
pub record Bitcoinx : Type 0 where
  pub tx_hash : Tx → Hash
  pub is_coinbase : Tx → Bool
  pub verify_input : Tx → ℕ → TxOutput → Result Bool

-- `(bytes(tin.prev_hash), int(tin.prev_idx))`
abbrev pub outpoint : TxInput → Outpoint
outpoint t = (t.prev_hash, t.prev_idx)

abbrev pub outpoints : Tx → List Outpoint
outpoints tx = map outpoint tx.inputs
