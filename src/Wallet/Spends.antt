-- ===== src/Wallet/Spends.antt =====
-- What `pay_p2pkh` of src/channel/wallet/send.py spends and pays.
use bonded_subsat_channel.Base.{ℕ, ◌≡◌, some, List, [], ◌∷◌}
use bonded_subsat_channel.Chain.{Tx}
use bonded_subsat_channel.Crypto.{Crypto}
use bonded_subsat_channel.Node.BlockStore.{BlockStore, UtxoEntry}
use bonded_subsat_channel.Wallet.{WalletScripts, Keyed, keys_for}
use bonded_subsat_channel.Wallet.Receives.{Has}

-- Every item of the list stands in the other one.
abbrev Within : List UtxoEntry → List UtxoEntry → Type 0
Within [] all = Unit {0}
Within (u ∷ us) all = Has u all × Within us all

module _ (c : Crypto) (tx_size : Tx → ℕ) where
  open c use {PrivateKey, PublicKey}

  -- Outputs from the list, each with the key that the wallet has for its script.
  abbrev pub Owned : WalletScripts c tx_size → List UtxoEntry → List (Keyed c tx_size) → Type 0
  Owned scripts all [] = Unit {0}
  Owned scripts all ((u, priv) ∷ keyed) =
      Has u all
      × ((account : ℕ) × (index : ℕ) × (keys_for c tx_size u.script_pubkey scripts
            ≡ some (account, index, priv)))
      × Owned scripts all keyed
