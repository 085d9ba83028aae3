-- ===== src/Tests/Ledger.antt =====
-- The theorems on configurations, balances, keys and numbers at concrete inputs.
use bonded_subsat_channel.Base.{
  ℕ, ◌+◌, ◌*◌, ◌≡◌, ◌<◌, ◌⊎◌, ◌↔◌, refl, List, [], ◌∷◌, map, length, arith, ok, get_elem?, some,
}
use bonded_subsat_channel.Base.Int.{pos, negsuc}
use bonded_subsat_channel.Base.Sums.{sum}
use bonded_subsat_channel.Config
use bonded_subsat_channel.Config.{make_config}
use bonded_subsat_channel.Config.Validity.{Reads, make_config-IsValid}
use bonded_subsat_channel.Accounting.{transfer, quantise, payout}
use bonded_subsat_channel.Accounting.Order.{range}
use bonded_subsat_channel.Accounting.Conserved.{IsConserved}
use bonded_subsat_channel.Accounting.Transfers.{TransferOutcome, transfer-TransferOutcome}
use bonded_subsat_channel.Accounting.Netting.{quantise-ok}
use bonded_subsat_channel.Accounting.Fairness.{quantise_within_satoshi, quantise_largest_remainder}
use bonded_subsat_channel.Keys.{replace}
use bonded_subsat_channel.Lifecycle.{sequence_for_version}
use bonded_subsat_channel.Scripts.{encode_script_num}
use bonded_subsat_channel.Scripts.Numbers.{decode_script_num, decode-encode_script_num}
use bonded_subsat_channel.Tests.Fixtures.{three, shares, keys, toy}

pub shares-IsConserved : IsConserved shares three
shares-IsConserved = record { total = refl; parties = refl }

pub three-IsValid : Config.IsValid three
three-IsValid = record {
  parties = omega arith;
  subdivided = omega arith;
  funded = omega arith;
  bonded = refl;
  bonds_positive = (omega arith, (omega arith, (omega arith, tt)));
  horizon = omega arith;
  staggered = omega arith;
  is_height = omega arith;
}

quantise-shares : quantise shares three ≡ ok (4 ∷ 2 ∷ 1 ∷ [])
unfolding quantise
quantise-shares = refl

transfer-TransferOutcome_example :
    TransferOutcome shares three
      (pos 0)
      (pos 2)
      (pos 9)
      (transfer shares (pos 0) (pos 2) (pos 9) three)
transfer-TransferOutcome_example =
    transfer-TransferOutcome shares three (pos 0) (pos 2) (pos 9) shares-IsConserved

quantise-ok_example :
    (q : List ℕ) × (quantise shares three ≡ ok q)
    × (q ≡ map (payout three shares.balances) (range 3))
    × (sum q ≡ 7)
    × (length q ≡ 3)
quantise-ok_example = quantise-ok shares three three-IsValid shares-IsConserved

quantise_within_satoshi_example :
    (p : ℕ) × (get_elem? (4 ∷ 2 ∷ 1 ∷ []) 1 ≡ some p) × (p * 10 < 25 + 10) × (25 < p * 10 + 10)
quantise_within_satoshi_example =
    quantise_within_satoshi shares three quantise-shares 1 {a = 25} (omega arith) refl

quantise_largest_remainder_example : (5 < 8) ⊎ ((◌≡◌ {A = ℕ} 5 8) × (0 < 1))
quantise_largest_remainder_example =
    quantise_largest_remainder shares three quantise-shares 0 1 {a = 38} {b = 25} {p = 4} {r = 2}
      refl refl refl refl refl refl

make_config-IsValid_example :
    make_config (pos 3) (pos 10) (pos 7) (pos 5 ∷ pos 6 ∷ pos 7 ∷ []) (pos 100) (pos 10) ≡ ok three
    ↔ Config.IsValid three
      × Reads (pos 3) (pos 10) (pos 7) (pos 5 ∷ pos 6 ∷ pos 7 ∷ []) (pos 100) (pos 10) three
make_config-IsValid_example =
    make_config-IsValid three (pos 3) (pos 10) (pos 7) (pos 5 ∷ pos 6 ∷ pos 7 ∷ []) (pos 100)
      (pos 10)

abbrev rekeyed : List ℕ
rekeyed = 11 ∷ 99 ∷ 13 ∷ []

replaced : replace toy keys (pos 1) 99 ≡ ok rekeyed
unfolding replace
replaced = refl

seq_3 : sequence_for_version (pos 3) ≡ ok 3
unfolding sequence_for_version
seq_3 = refl

seq_8 : sequence_for_version (pos 8) ≡ ok 8
unfolding sequence_for_version
seq_8 = refl

decode-encode_script_num_example : decode_script_num (encode_script_num (negsuc 299)) ≡ negsuc 299
decode-encode_script_num_example = decode-encode_script_num (negsuc 299)
