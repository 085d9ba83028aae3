-- ===== src/Tests/Pool.antt =====
-- The theorems on the mempool at concrete inputs: an old and a new transaction that spend one
-- output, under the sequences 1 and 2.
use bonded_subsat_channel.Base.{◌↔◌, ◌<◌, ℕ, ◌≡◌, refl, true, false, none, some, [], ◌∷◌, arith, ok}
use bonded_subsat_channel.Base.Int.{pos, ◌+ℤ◌, ◌-ℤ◌}
use bonded_subsat_channel.Base.Dict.{lookup, insert, outpoint_eq, nat_eq}
use bonded_subsat_channel.Chain.{Tx}
use bonded_subsat_channel.Lifecycle.{pays, unsigned}
use bonded_subsat_channel.Verify.{verify_spend}
use bonded_subsat_channel.Node.BlockStore.{BlockStore, get_utxo, as_txoutput}
use bonded_subsat_channel.Node.Validation.{
  refusal, Reason, validate_tx, sum_outputs, scan_inputs, conclude, fee,
}
use bonded_subsat_channel.Node.Mempool.{
  Mempool, MempoolEntry, admit, admit_straight, conflicts, insert_entry, mark_spent, entry_for,
}
use bonded_subsat_channel.Node.Mempool.Invariant.{Inv}
use bonded_subsat_channel.Node.Mempool.Admit.{Observers, IsTame}
use bonded_subsat_channel.Node.Mempool.Replace.{AdmitOutcome, admit-AdmitOutcome}
use bonded_subsat_channel.Config.{final_sequence}
use bonded_subsat_channel.Lifecycle.Versions.{sequence_for_version-below}
use bonded_subsat_channel.Node.Mempool.States.{
  SettlesAt, later_state_overtakes, earlier_state_refused,
}
use bonded_subsat_channel.Node.Validation.Accepts.{Accepts, validate_tx-Accepts}
use bonded_subsat_channel.Tests.Fixtures.{toy_lib}

abbrev pub spending : ℕ → Tx
spending seq = record {
  version = 1;
  inputs = unsigned 5 0 seq ∷ [];
  outputs = pays 9 [] ∷ [];
  locktime = 0;
}

-- another transaction under sequence 1, with two outputs
abbrev again : Tx
again = record {
  version = 1;
  inputs = unsigned 5 0 1 ∷ [];
  outputs = pays 4 [] ∷ pays 4 [] ∷ [];
  locktime = 0;
}

abbrev pub store : BlockStore
store = record {
  blocks = [];
  utxos = ((5, 0), record { value = pos 10; script_pubkey = []; height = pos 3 }) ∷ [];
}

abbrev pub empty_pool : Mempool
empty_pool = record { store = store; entries = []; spent_by = [] }

abbrev held_entry : MempoolEntry
held_entry = record { tx = spending 1; fee = pos 1; sequence_by_input = 1 ∷ [] }

-- the pool that holds the transaction under sequence 1
abbrev pool : Mempool
pool = record { store = store; entries = (111, held_entry) ∷ []; spent_by = ((5, 0), 111) ∷ [] }

-- nobody observes
abbrev silent : Observers ℕ
silent ev tx x = x

silent-IsTame : IsTame toy_lib silent
silent-IsTame = record { keeps = λ ev tx m w v. v; quiet = λ tx m w. refl }

pub empty_pool-Inv : Inv toy_lib empty_pool
unfolding lookup
empty_pool-Inv = record {
  hashed = λ txid e h. cc h;
  marked = λ txid e op h s. cc h;
  owned = λ op txid h. cc h;
}

admit-pool :
    admit toy_lib silent (spending 1) (empty_pool, 0)
    ≡ (ok (validate_tx toy_lib store (spending 1) false), (pool, 0))
unfolding admit admit_straight conflicts validate_tx sum_outputs scan_inputs conclude get_utxo
    verify_spend as_txoutput ◌+ℤ◌ ◌-ℤ◌ fee insert_entry mark_spent lookup insert
admit-pool = refl

admit-AdmitOutcome_example :
    AdmitOutcome toy_lib empty_pool 0 (admit toy_lib silent (spending 1) (empty_pool, 0))
admit-AdmitOutcome_example =
    admit-AdmitOutcome toy_lib silent silent-IsTame (spending 1) empty_pool 0 empty_pool-Inv

pool-Inv : Inv toy_lib pool
pool-Inv =
    let (_, _, inv, _) =
      rw admit-pool at (
        admit-AdmitOutcome toy_lib silent silent-IsTame (spending 1) empty_pool 0 empty_pool-Inv) in
    inv

passes : (validate_tx toy_lib store (spending 2) false).passed ≡ true
unfolding validate_tx sum_outputs scan_inputs conclude get_utxo verify_spend as_txoutput ◌+ℤ◌ lookup
passes = refl

pub settles : (seq : ℕ) → seq < final_sequence → SettlesAt (spending seq) 5 seq
settles seq low = record {
  script_sig = [];
  sequence = seq;
  encoded = sequence_for_version-below seq low;
  only_input = refl;
}

settles_again : SettlesAt again 5 1
settles_again = record {
  script_sig = [];
  sequence = 1;
  encoded = sequence_for_version-below 1 (omega arith);
  only_input = refl;
}

later_state_overtakes_example :
    (n : Mempool) × (admit toy_lib silent (spending 2) (pool, 0)
      ≡ (ok (validate_tx toy_lib store (spending 2) false), (n, 0)))
    × (lookup 111 n.entries ≡ none)
    × (lookup 211 n.entries
        ≡ some (entry_for (spending 2) (validate_tx toy_lib store (spending 2) false)))
    × Inv toy_lib n
unfolding lookup
later_state_overtakes_example =
    later_state_overtakes toy_lib silent silent-IsTame (spending 2) pool 0 pool-Inv refl 111
      held_entry refl 5 1 2 (settles 1 (omega arith)) (settles 2 (omega arith)) (omega arith) passes

earlier_state_refused_example :
    admit toy_lib silent again (pool, 0) ≡ (ok (refusal Reason.sequence_too_low), (pool, 0))
unfolding lookup
earlier_state_refused_example =
    earlier_state_refused toy_lib silent silent-IsTame again pool 0 pool-Inv refl 111 held_entry
      refl 5 1 1 (settles 1 (omega arith)) settles_again (omega arith)

-- A transaction that lists one output twice passes, and pays out twice its value.
abbrev doubled : Tx
doubled = record {
  version = 1;
  inputs = unsigned 5 0 1 ∷ unsigned 5 0 1 ∷ [];
  outputs = pays 20 [] ∷ [];
  locktime = 0;
}

doubled_passes : (validate_tx toy_lib store doubled false).passed ≡ true
unfolding validate_tx sum_outputs scan_inputs conclude get_utxo verify_spend as_txoutput ◌+ℤ◌ lookup
doubled_passes = refl

validate_tx-Accepts_example :
    ((validate_tx toy_lib store doubled false).passed ≡ true) ↔ Accepts toy_lib store doubled
validate_tx-Accepts_example = validate_tx-Accepts toy_lib store doubled refl
