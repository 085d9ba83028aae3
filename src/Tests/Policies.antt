-- ===== src/Tests/Policies.antt =====
-- The theorems on payments and on the mode of the process at concrete inputs.
use bonded_subsat_channel.Base.{ℕ, ◌≡◌, ◌⊎◌, refl, true, false, List, [], ◌∷◌, ok, arith, traverse}
use bonded_subsat_channel.Base.Int.{pos}
use bonded_subsat_channel.Accounting.{int, ensure_whole_satoshi}
use bonded_subsat_channel.Chain.{Tx, TxOutput}
use bonded_subsat_channel.Lifecycle.{pays}
use bonded_subsat_channel.SafeMode.{
  Mode, require_safe_mode, after_calls, initial_mode, is_mainnet, acknowledged,
  require_safe_mode_passes,
}
use bonded_subsat_channel.Wallet.{Keyed}
use bonded_subsat_channel.Wallet.Payment.{payment_fee}
use bonded_subsat_channel.Tests.Fixtures.{toy}

require_safe_mode_passes_example :
    (require_safe_mode
        (after_calls ((Mode.mainnet, false) ∷ (Mode.mainnet, true) ∷ []) initial_mode)
      ≡ ok tt)
    × ((is_mainnet (after_calls ((Mode.mainnet, false) ∷ (Mode.mainnet, true) ∷ []) initial_mode)
          ≡ false)
        ⊎ (acknowledged ((Mode.mainnet, false) ∷ (Mode.mainnet, true) ∷ []) ≡ true))
require_safe_mode_passes_example =
    require_safe_mode_passes ((Mode.mainnet, false) ∷ (Mode.mainnet, true) ∷ [])

-- a transaction counts ten bytes
abbrev tx_size : Tx → ℕ
tx_size tx = 10

abbrev funders : List (Keyed toy tx_size)
funders =
    (record { txid = 4; vout = 1; value = pos 500; script_pubkey = 111 ∷ []; height = pos 3 }, 11)
    ∷ []

abbrev requested : List TxOutput
requested = pays 300 (112 ∷ []) ∷ []

whole_in :
    traverse (λ (f : Keyed toy tx_size). ensure_whole_satoshi (int f.0.value)) funders
    ≡ ok (500 ∷ [])
unfolding traverse ensure_whole_satoshi
whole_in = refl

whole_out :
    traverse (λ (o : TxOutput). ensure_whole_satoshi (int o.value)) requested ≡ ok (300 ∷ [])
unfolding traverse ensure_whole_satoshi
whole_out = refl

abbrev owed : ℕ
owed = payment_fee toy tx_size funders requested 113 1 1 (omega arith) whole_in whole_out
