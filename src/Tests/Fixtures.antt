-- ===== src/Tests/Fixtures.antt =====
-- A concrete bitcoinx for the tests: keys are numbers, a script is the list of what was pushed, a
-- transaction is told apart by its inputs and outputs, and the interpreter accepts everything.
use bonded_subsat_channel.Base.{ℕ, ◌+◌, ◌*◌, true, false, List, [], ◌∷◌, ◌++◌, length, ok}
use bonded_subsat_channel.Config.{ChannelConfig}
use bonded_subsat_channel.Accounting.{State}
use bonded_subsat_channel.Chain.{TxInput, Bitcoinx}
use bonded_subsat_channel.Crypto.{Crypto}

abbrev first_sequence : List TxInput → ℕ
first_sequence [] = 0
first_sequence (t ∷ ts) = t.sequence

abbrev pub toy_lib : Bitcoinx
toy_lib = record {
  tx_hash = λ tx. 100 * first_sequence tx.inputs + 10 * length tx.inputs + length tx.outputs;
  is_coinbase = λ tx. false;
  verify_input = λ tx i utxo. ok true;
}

abbrev pub toy : Crypto
toy = record {
  lib = toy_lib;
  PrivateKey = ℕ;
  PublicKey = ℕ;
  public_key = λ k. k + 100;
  public_bytes = λ pk. pk ∷ [];
  p2pkh = λ pk. pk ∷ [];
  signature_hash = λ tx i value script flags. flags ∷ script;
  sign = λ k digest. k ∷ digest;
  push_op = λ script op. script ++ 1 ∷ [];
  push_data = λ script bytes. script ++ bytes;
  hash160 = λ bytes.
      1 ∷ 2 ∷ 3 ∷ 4 ∷ 5 ∷ 6 ∷ 7 ∷ 8 ∷ 9 ∷ 10 ∷ 11 ∷ 12 ∷ 13 ∷ 14 ∷ 15 ∷ 16 ∷ 17 ∷ 18 ∷ 19 ∷ 20 ∷ [];
}

-- three parties, ten micro-units a satoshi, seven satoshis
abbrev pub three : ChannelConfig
three = record { n = 3; k = 10; s = 7; bonds = 5 ∷ 6 ∷ 7 ∷ []; l0 = 100; delta = 10 }

abbrev pub shares : State
shares = record { balances = 38 ∷ 25 ∷ 7 ∷ []; version = 4 }

abbrev pub keys : List ℕ
keys = 11 ∷ 12 ∷ 13 ∷ []
