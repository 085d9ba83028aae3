-- ===== src/Tests/Wallets.antt =====
-- The theorems on payments and on adopted transactions at concrete inputs.
use bonded_subsat_channel.Base.{ℕ, ◌↔◌, ◌≡◌, refl, List, [], ◌∷◌, ◌++◌, ok}
use bonded_subsat_channel.Base.Int.{pos}
use bonded_subsat_channel.Chain.{Bytes, Tx, TxOutput}
use bonded_subsat_channel.Base.Dict.{outpoint_eq}
use bonded_subsat_channel.Base.Bytes.{bytes_eq}
use bonded_subsat_channel.Config.{final_sequence}
use bonded_subsat_channel.Node.BlockStore.{BlockStore, Row, UtxoEntry}
use bonded_subsat_channel.Scripts.{p2pkh_script}
use bonded_subsat_channel.Tests.Fixtures.{toy, three, keys}
use bonded_subsat_channel.Tests.Ledger.{three-IsValid}
use bonded_subsat_channel.Wallet.{WalletScripts, sign_inputs}
use bonded_subsat_channel.Wallet.Funding.{IsAdopted, from_funding_tx-IsAdopted}
use bonded_subsat_channel.Lifecycle.{build_channel_outputs, unsigned}

abbrev tx_size : Tx → ℕ
tx_size tx = 10

-- a key that pays itself
abbrev script : Bytes
script = p2pkh_script toy 107

abbrev scripts : WalletScripts toy tx_size
scripts = (script, (0, 3, 7)) ∷ []

abbrev row : Row
row = record { value = pos 5000; script_pubkey = script; height = pos 1 }

abbrev ledger : BlockStore
ledger = record { blocks = []; utxos = ((8, 1), row) ∷ [] }

abbrev coin : UtxoEntry
coin = record { txid = 8; vout = 1; value = pos 5000; script_pubkey = script; height = pos 1 }

abbrev wanted : TxOutput
wanted = record { value = pos 900; script_pubkey = p2pkh_script toy 109 }

abbrev payment : Tx
payment = sign_inputs toy tx_size 0 ((coin, 7) ∷ []) (record {
  version = 1;
  inputs = unsigned 8 1 final_sequence ∷ [];
  outputs = wanted ∷ record { value = pos 3982; script_pubkey = script } ∷ [];
  locktime = 0;
})

from_funding_tx-IsAdopted_example :
    (outputs : List TxOutput) × (build_channel_outputs toy three keys ≡ ok outputs)
    × (IsAdopted toy three keys three-IsValid refl payment []
        ↔ ((rest : List TxOutput) × (payment.outputs ≡ outputs ++ rest)))
from_funding_tx-IsAdopted_example =
    from_funding_tx-IsAdopted toy three keys three-IsValid refl payment []
