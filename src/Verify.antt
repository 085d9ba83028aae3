-- ===== src/Verify.antt =====
-- src/channel/verify.py: the calls of the script interpreter.
use bonded_subsat_channel.Base.{
  ℕ, ◌+◌, Bool, true, false, not, List, [], ◌∷◌, length, Result, ok, err, Error, ◌>>=◌, ◌>>◌,
  raise_if, ◌==◌,
}
use bonded_subsat_channel.Chain.{Tx, TxOutput, Bitcoinx}

module _ (lib : Bitcoinx) where
  -- the call raises when the interpreter raises, and when it answers no
  unfoldable pub verify_spend : Tx → ℕ → TxOutput → Result Bool
  verify_spend tx i utxo = do
    result ← lib.verify_input tx i utxo
    raise_if (not result) Error.verification
    ok true

  unfoldable pub spend_verifies : Tx → ℕ → TxOutput → Bool
  unfolding verify_spend
  spend_verifies tx i utxo = elim (verify_spend tx i utxo) [ ok b ↦ b | err _ ↦ false ]

  -- the loop of `verify_all_inputs`
  unfoldable pub verify_from : Tx → ℕ → List TxOutput → Result Bool
  unfolding verify_spend
  verify_from tx i [] = ok true
  verify_from tx i (utxo ∷ utxos) = do _ ← verify_spend tx i utxo; verify_from tx (i + 1) utxos

  unfoldable pub verify_all_inputs : Tx → List TxOutput → Result Bool
  unfolding verify_from
  verify_all_inputs tx utxos = do
    raise_if (not (length utxos == length tx.inputs)) Error.verification
    verify_from tx 0 utxos
