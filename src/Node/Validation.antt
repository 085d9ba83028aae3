-- ===== src/Node/Validation.antt =====
-- src/channel/node/validation.py: `validate_tx` against the table of unspent outputs.
pub mod Accepts
use bonded_subsat_channel.Base.{
  ℕ, ◌+◌, Bool, true, false, Option, none, some, List, [], ◌∷◌, ok, err, Error, ◌++◌, if◌then◌else◌,
}
use bonded_subsat_channel.Base.Int.{ℤ, pos, negsuc, ◌+ℤ◌, ◌-ℤ◌, ltb_ℤ}
use bonded_subsat_channel.Chain.{Bytes, Hash, Tx, TxInput, TxOutput, Bitcoinx}
use bonded_subsat_channel.Verify.{verify_spend}
use bonded_subsat_channel.Node.BlockStore.{BlockStore, get_utxo, as_txoutput}

-- The reasons that the code tells apart; a text that quotes an exception is its case.
pub data Reason : Type 0 where
  coinbase bad_output coinbase_refused utxo_not_found script_rejected interpreter_error overspent
        accepted :
      Reason
  already_in_mempool multi_conflict sequence_too_low unspecified : Reason

pub record ValidationResult : Type 0 where
  pub passed : Bool
  pub reason : Reason
  pub inputs_value : ℤ
  pub outputs_value : ℤ
  pub spent_inputs : List (Hash × ℕ × ℤ × Bytes)

-- `ValidationResult.fee`
unfoldable pub fee : ValidationResult → ℤ
unfolding ◌-ℤ◌
fee r = r.inputs_value -ℤ r.outputs_value

-- `ValidationResult(False, reason)`
abbrev pub refusal : Reason → ValidationResult
refusal why = record {
  passed = false;
  reason = why;
  inputs_value = pos 0;
  outputs_value = pos 0;
  spent_inputs = [];
}

-- the loop over the outputs; `none` is its early return
unfoldable pub sum_outputs : ℕ → List TxOutput → Option ℕ
sum_outputs total [] = some total
sum_outputs total (o ∷ os) = elim o.value [ pos v ↦ sum_outputs (total + v) os | negsuc _ ↦ none ]

-- what the loop over the inputs has added up
abbrev pub Tally : Type 0
Tally = ℤ × List (Hash × ℕ × ℤ × Bytes)

-- how the loop over the inputs ends: by an early return, or after the last input
pub data Scan : Type 0 where
  stopped : Reason → Scan
  done : Tally → Scan

-- the two `except` clauses
unfoldable pub reason_of : Error → Reason
reason_of Error.verification = Reason.script_rejected
reason_of _ = Reason.interpreter_error

module _ (lib : Bitcoinx) (store : BlockStore) where
  unfoldable pub scan_inputs : Tx → ℕ → List TxInput → Tally → Scan
  unfolding get_utxo verify_spend as_txoutput reason_of ◌+ℤ◌
  scan_inputs tx idx [] tally = done tally
  scan_inputs tx idx (t ∷ ts) (total, spent) = elim (get_utxo t.prev_hash t.prev_idx store) [
    | none ↦ stopped Reason.utxo_not_found
    | some entry ↦ elim (verify_spend lib tx idx (as_txoutput entry)) [
      | err e ↦ stopped (reason_of e)
      | ok _ ↦ scan_inputs tx (idx + 1) ts (
        total +ℤ entry.value,
        spent ++ (entry.txid, entry.vout, entry.value, entry.script_pubkey) ∷ [],
      )
    ]
  ]

  -- what follows the loop over the inputs
  unfoldable pub conclude : ℕ → Scan → ValidationResult
  conclude total_out (stopped why) = refusal why
  conclude total_out (done (total_in, spent)) =
      if ltb_ℤ total_in (pos total_out) then refusal Reason.overspent else record {
        passed = true;
        reason = Reason.accepted;
        inputs_value = total_in;
        outputs_value = pos total_out;
        spent_inputs = spent;
      }

  -- the branch on a coinbase transaction
  unfoldable pub validate_coinbase : Tx → Bool → ValidationResult
  unfolding sum_outputs
  validate_coinbase tx false = refusal Reason.coinbase_refused
  validate_coinbase tx true = elim (sum_outputs 0 tx.outputs) [
    | none ↦ refusal Reason.bad_output
    | some total ↦ record {
      passed = true;
      reason = Reason.coinbase;
      inputs_value = pos total;
      outputs_value = pos total;
      spent_inputs = [];
    }
  ]

  unfoldable pub validate_tx : Tx → Bool → ValidationResult
  unfolding validate_coinbase sum_outputs scan_inputs conclude
  validate_tx tx allow_coinbase =
      if lib.is_coinbase tx
      then validate_coinbase tx allow_coinbase
      else elim (sum_outputs 0 tx.outputs) [
        | none ↦ refusal Reason.bad_output
        | some total_out ↦ conclude total_out (scan_inputs tx 0 tx.inputs (pos 0, []))
      ]
