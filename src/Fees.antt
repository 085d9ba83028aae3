-- ===== src/Fees.antt =====
-- src/channel/fees.py and src/channel/watchtower/incentive.py: the fee of a transaction by its size,
-- and the tally of what a watchtower earns.
use bonded_subsat_channel.Base.{ℕ, List, [], ◌∷◌, ◌++◌, Result, ok, Error, ◌>>=◌, if◌then◌else◌}
use bonded_subsat_channel.Base.Int.{ℤ, pos, at_least, leb_ℤ, ◌+ℤ◌}
use bonded_subsat_channel.Accounting.{int, ensure_whole_satoshi}
use bonded_subsat_channel.Wallet.{scaled}

pub record FeeModel : Type 0 where
  pub sat_per_byte : ℤ
  pub min_tx_fee : ℤ

abbrev pub max_ℤ : ℤ → ℤ → ℤ
max_ℤ a b = if leb_ℤ b a then a else b

abbrev pub min_ℤ : ℤ → ℤ → ℤ
min_ℤ a b = if leb_ℤ a b then a else b

unfoldable pub fee_for_size : FeeModel → ℤ → Result ℕ
fee_for_size m size_bytes = do
  size ← at_least Error.value_error 0 size_bytes
  ensure_whole_satoshi (int (max_ℤ m.min_tx_fee (scaled size m.sat_per_byte)))

pub record IncentiveLedger : Type 0 where
  pub fee_per_intervention : ℤ
  pub intervention_fees : List ℤ

-- `record`, a reserved word here
unfoldable pub record_fee : ℤ → IncentiveLedger → Result (ℤ × IncentiveLedger)
record_fee bond_value l = do
  value ← at_least Error.incentive 0 bond_value
  let fee = min_ℤ l.fee_per_intervention (pos value)
  ok (fee, record l { intervention_fees = l.intervention_fees ++ fee ∷ [] })

abbrev pub sum_ℤ : List ℤ → ℤ
sum_ℤ [] = pos 0
sum_ℤ (f ∷ fs) = f +ℤ sum_ℤ fs

unfoldable pub total_fees : IncentiveLedger → ℤ
total_fees l = sum_ℤ l.intervention_fees
