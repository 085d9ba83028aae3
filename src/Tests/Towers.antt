-- ===== src/Tests/Towers.antt =====
-- The theorems on watchtowers at concrete inputs.
use bonded_subsat_channel.Base.{ℕ, ◌≡◌, refl, true, false, none, some, [], ◌∷◌, ok, arith}
use bonded_subsat_channel.Base.Int.{◌+ℤ◌}
use bonded_subsat_channel.Base.Dict.{lookup, nat_eq, outpoint_eq}
use bonded_subsat_channel.Verify.{verify_spend}
use bonded_subsat_channel.Node.BlockStore.{get_utxo, as_txoutput}
use bonded_subsat_channel.Node.Validation.{validate_tx, sum_outputs, scan_inputs, conclude}
use bonded_subsat_channel.Node.Mempool.{Mempool, conflicts, entry_for}
use bonded_subsat_channel.Node.Mempool.Admit.{IsTame}
use bonded_subsat_channel.Node.Mempool.Invariant.{Inv}
use bonded_subsat_channel.Watchtower.{Tower, notify, submit_tx}
use bonded_subsat_channel.Watchtower.Observers.{notify-IsTame}
use bonded_subsat_channel.Watchtower.Liveness.{Guards, lone, intervened_once, tower_overtakes}
use bonded_subsat_channel.Tests.Fixtures.{toy, toy_lib}
use bonded_subsat_channel.Tests.Pool.{spending, store, empty_pool, empty_pool-Inv, settles}
use bonded_subsat_channel.Tests.Stores.{Doc, plain}

notify-IsTame_example : IsTame toy_lib (notify toy plain 3)
notify-IsTame_example = notify-IsTame toy plain 3

-- a tower that holds the state of version 2
abbrev tower : Tower Doc ℕ
tower = record {
  registry =
      (
        5,
        record {
          channel_id = 5;
          current_state_tx_hex = Doc.of_tx (spending 2);
          forfeit_tx_hex_by_owner = [];
          horizon = 100;
        },
      )
      ∷ [];
  tower_pubkey = some 200;
  interventions = 0;
  forfeits = 0;
}

tower-Guards : Guards toy plain tower 5 (spending 2)
unfolding lookup
tower-Guards = record { entry = _; registered = refl; decoded = refl }

valid : (seq : ℕ) → (validate_tx toy_lib store (spending seq) false).passed ≡ true
unfolding validate_tx sum_outputs scan_inputs conclude get_utxo verify_spend as_txoutput ◌+ℤ◌ lookup
valid seq = refl

tower_overtakes_example :
    (n : Mempool) × (submit_tx toy plain 2 (spending 1) (empty_pool, lone toy plain tower) ≡ (
      ok (validate_tx toy_lib store (spending 1) false),
      (n, lone toy plain (intervened_once toy plain tower)),
    ))
    × (lookup 111 n.entries ≡ none)
    × (lookup 211 n.entries
        ≡ some (entry_for (spending 2) (validate_tx toy_lib store (spending 2) false)))
    × Inv toy_lib n
unfolding lookup conflicts
tower_overtakes_example =
    tower_overtakes toy plain tower 5 (spending 2) tower-Guards 2 (settles 2 (omega arith))
      (spending 1) 1 (settles 1 (omega arith)) empty_pool empty_pool-Inv refl refl refl
      (λ same. omega (arith, same)) 0 (omega arith) (valid 1) (valid 2)
