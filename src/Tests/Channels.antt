-- ===== src/Tests/Channels.antt =====
-- The theorems on channels at concrete inputs.
use bonded_subsat_channel.Base.{
  ℕ, ◌+◌, ◌≡◌, ◌>>=◌, refl, true, some, List, [], ◌∷◌, arith, ok, traverse,
}
use bonded_subsat_channel.Base.Int.{pos}
use bonded_subsat_channel.Config.{final_sequence}
use bonded_subsat_channel.Accounting.Order.{range}
use bonded_subsat_channel.Accounting.Conserved.{IsConserved}
use bonded_subsat_channel.Bond.{BondOutput, utxo, sign_bond_forfeit}
use bonded_subsat_channel.Chain.{Bytes, Tx, TxOutput}
use bonded_subsat_channel.Lifecycle.{
  Channel, all_but, pays, unsigned, funding_txid, refresh_channel,
}
use bonded_subsat_channel.Lifecycle.Closing.{build_state_tx, forfeit_bond_tx}
use bonded_subsat_channel.Keys.{private}
use bonded_subsat_channel.Lifecycle.Forfeit.{forfeit_bond_tx_pays}
use bonded_subsat_channel.Lifecycle.Payouts.{Sums}
use bonded_subsat_channel.Lifecycle.Refresh.{refresh_channel-ok, with_l0}
use bonded_subsat_channel.Lifecycle.Settlement.{IsFunded, build_state_tx_pays}
use bonded_subsat_channel.Verify.{verify_all_inputs}
use bonded_subsat_channel.Tests.Fixtures.{toy, three, shares, keys}
use bonded_subsat_channel.Tests.Ledger.{three-IsValid, shares-IsConserved}

abbrev bond : ℕ → ℕ → BondOutput
bond i value = record {
  owner_index = i;
  value = value;
  funding_txid = 77;
  vout = 1 + i;
  locking_script = i ∷ [];
}

abbrev running : Channel ℕ
running = record {
  cfg = three;
  keybook = keys;
  funding_tx = record {
    version = 1;
    inputs = unsigned 9 0 final_sequence ∷ [];
    outputs = pays 7 (1 ∷ []) ∷ pays 5 (0 ∷ []) ∷ pays 6 (1 ∷ []) ∷ pays 7 (2 ∷ []) ∷ [];
    locktime = 0;
  };
  funding_utxos = pays 25 [] ∷ [];
  funding_confirmed = true;
  state = shares;
  bonds = bond 0 5 ∷ bond 1 6 ∷ bond 2 7 ∷ [];
}

running-IsFunded : IsFunded toy running
running-IsFunded = record {
  valid = three-IsValid;
  keyed = refl;
  bonded = refl;
  script = 1 ∷ [];
  output = refl;
}

refresh_channel-ok_example :
    (next : Channel ℕ) × (refresh_channel toy running (pos 150) ≡ ok next)
    × IsFunded toy next
    × IsConserved next.state next.cfg
    × (next.funding_confirmed ≡ true)
    × (next.cfg ≡ with_l0 150 three)
    × (next.state ≡ record { balances = shares.balances; version = 0 })
refresh_channel-ok_example =
    refresh_channel-ok toy running 150 running-IsFunded shares-IsConserved (omega arith)
      (omega arith)

build_state_tx_pays_example :
    (tx : Tx) × (spent : List TxOutput) × (build_state_tx toy running shares ≡ ok (tx, spent))
    × Sums tx.outputs 7
    × Sums spent 7
    × (tx.inputs ≡ unsigned (funding_txid toy running) 0 4 ∷ [])
build_state_tx_pays_example =
    build_state_tx_pays toy running shares running-IsFunded shares-IsConserved (omega arith)

forfeit_bond_tx_pays_example :
    (signed : Tx) × (script : Bytes) × (forfeit_bond_tx toy running (pos 1) (some 200) (pos 2) ≡ (
      verify_all_inputs toy.lib signed (utxo (bond 1 6) ∷ []) >>= λ _.
      ok (signed, utxo (bond 1 6) ∷ [])))
    × Sums signed.outputs 6
    × (signed.inputs
        ≡ record {
          prev_hash = funding_txid toy running;
          prev_idx = 2;
          script_sig = script;
          sequence = final_sequence;
        }
          ∷ [])
    × ((signers : List ℕ) × (traverse (λ i. private toy keys (pos i)) (all_but 1 (range 3))
          ≡ ok signers)
        × (sign_bond_forfeit toy
              (record signed { inputs = unsigned (funding_txid toy running) 2 final_sequence ∷ [] })
              0
              (bond 1 6)
              signers
            ≡ ok script))
forfeit_bond_tx_pays_example =
    forfeit_bond_tx_pays toy running 1 (some 200) 2 (bond 1 6) running-IsFunded refl (omega arith)
      refl (omega arith)
