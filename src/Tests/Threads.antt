-- ===== src/Tests/Threads.antt =====
-- The theorems on concurrent calls of the manager at concrete inputs.
use bonded_subsat_channel.Base.{
  ℕ, ◌≡◌, ◌⊎◌, refl, true, false, none, some, List, [], ◌∷◌, ok, err, Error, arith, traverse, mem,
}
use bonded_subsat_channel.Base.Int.{pos, ◌-ℤ◌, ◌+ℤ◌}
use bonded_subsat_channel.Base.Dict.{lookup, nat_eq}
use bonded_subsat_channel.Accounting.{
  State, transfer, make_state, check_balances, quantise, at, conservation_check, ensure_all,
  ensure_whole_satoshi, key_le, order, payout, total_micro, winners,
}
use bonded_subsat_channel.Accounting.Order.{insert_by, sort_by, range, range_from}
use bonded_subsat_channel.Accounting.Conserved.{IsConserved}
use bonded_subsat_channel.Bond.{utxo, sign_bond_return}
use bonded_subsat_channel.Crypto.{sign_input}
use bonded_subsat_channel.Keys.{public, private}
use bonded_subsat_channel.Scripts.{
  channel_funding_unlock, bond_return_unlock, p2pkh_script, push_all,
}
use bonded_subsat_channel.Verify.{verify_all_inputs, verify_from, verify_spend}
use bonded_subsat_channel.Chain.{Tx, TxOutput}
use bonded_subsat_channel.Lifecycle.{Channel, require_confirmed, channel_output, funding_txid}
use bonded_subsat_channel.Lifecycle.Closing
use bonded_subsat_channel.Manager.{
  ChannelManager, is_in, apply_transfer, cooperative_close, World, Pending, Step, Steps, done,
  then_step, passes, commits, locked, transfer_locked,
}
use bonded_subsat_channel.Manager.Safety.{AllConserved, Later, channels_endure}
use bonded_subsat_channel.Manager.Late.{closed_for_good, late_transfer_commits}
use bonded_subsat_channel.Tests.Fixtures.{toy}
use bonded_subsat_channel.Tests.Ledger.{shares-IsConserved}
use bonded_subsat_channel.Tests.Stores.{Doc, plain, saved, saved_persists}

abbrev manager : ChannelManager ℕ Doc
manager = record {
  store = record { wallet_seed = none; channel_meta = []; channel_states = [] };
  channels = (5, saved) ∷ [];
  closed_channels = [];
}

manager-AllConserved : AllConserved toy plain manager
unfolding lookup
manager-AllConserved id ch h = let is : ch ≡ saved = ground (arith, h) in rw is shares-IsConserved

abbrev sent : Pending toy plain
sent = record { channel_id = 5; sender = pos 0; recipient = pos 1; delta = pos 3 }

abbrev start : World toy plain
start = record { manager = manager; pending = [] }

abbrev waiting : World toy plain
waiting = record { manager = manager; pending = sent ∷ [] }

test_passes : Step toy plain start waiting
unfolding is_in
test_passes = passes start sent refl

abbrev later_manager : ChannelManager ℕ Doc
later_manager =
    (locked toy plain manager 5 (transfer_locked toy plain manager 5 (pos 0) (pos 1) (pos 3))).1

channels_endure_example :
    (next : Channel ℕ) × (lookup 5 later_manager.channels ≡ some next)
    × Later toy plain saved next
    × IsConserved next.state next.cfg
    × ((is_in 5 [] ≡ false) ⊎ (is_in 5 later_manager.closed_channels ≡ true))
unfolding lookup
channels_endure_example =
    channels_endure toy plain 5 saved
      (then_step start waiting _ (then_step start start waiting (done start) test_passes)
        (commits waiting [] [] sent refl))
      refl shares-IsConserved

abbrev shut : ChannelManager ℕ Doc
shut = record manager { closed_channels = 5 ∷ [] }

closed_for_good_example :
    (cooperative_close toy plain shut 5 ≡ (err Error.state, shut))
    × (apply_transfer toy plain shut 5 (pos 0) (pos 1) (pos 3) ≡ (err Error.state, shut))
unfolding lookup is_in
closed_for_good_example =
    closed_for_good toy plain 5 saved (pos 0) (pos 1) (pos 3) manager-AllConserved refl refl
      (done (record { manager = shut; pending = [] }))

test_close : (r : Tx × List TxOutput) × (Closing.cooperative_close toy saved none ≡ ok r)
unfolding Closing.cooperative_close require_confirmed Closing.build_close_tx quantise
    Closing.state_or channel_output traverse Closing.bond_input Closing.close_payout
    Closing.pay_party public private Closing.sign_all channel_funding_unlock Closing.sign_bonds
    sign_bond_return verify_all_inputs insert_by range range_from sort_by at conservation_check
    ensure_all ensure_whole_satoshi key_le order payout total_micro winners mem utxo sign_input
    Closing.unlock_at Closing.with_unlock funding_txid bond_return_unlock p2pkh_script push_all
    verify_from verify_spend
test_close = (_, refl)

abbrev moved : State
moved = record { balances = 35 ∷ 28 ∷ 7 ∷ []; version = 5 }

test_transfer : transfer saved.state (pos 0) (pos 1) (pos 3) saved.cfg ≡ ok moved
unfolding transfer make_state conservation_check check_balances total_micro ◌-ℤ◌ ◌+ℤ◌
test_transfer = refl

late_transfer_commits_example :
    (v : ChannelManager ℕ Doc) × (n : ChannelManager ℕ Doc) × (p : Pending toy plain)
    × (cooperative_close toy plain manager 5 ≡ (ok test_close.0, v))
    × (is_in 5 v.closed_channels ≡ true)
    × Steps toy plain start (record { manager = v; pending = p ∷ [] })
    × Step toy plain
        (record { manager = v; pending = p ∷ [] })
        (record { manager = n; pending = [] })
    × (lookup 5 n.channels ≡ some (record saved { state = moved }))
unfolding lookup is_in
late_transfer_commits_example =
    late_transfer_commits toy plain manager 5 saved (pos 0) (pos 1) (pos 3) refl refl
      (saved_persists manager.store) test_close.1 test_transfer
