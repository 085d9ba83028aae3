-- ===== src/Wallet/Manage.antt =====
-- src/channel/wallet/manage.py, and the submission in src/channel/wallet/send.py: the addresses of a
-- wallet's key tree, what they hold, and a payment that is handed to the node. `view` of a manager
-- shares its `scripts`, and the store that it reads is an argument.
use bonded_subsat_channel.Base.{ℕ, List, map, Result, ok, err}
use bonded_subsat_channel.Base.Int.{ℤ}
use bonded_subsat_channel.Chain.{Hash, Tx}
use bonded_subsat_channel.Crypto.{Crypto}
use bonded_subsat_channel.Hd.{Bip32, derive}
use bonded_subsat_channel.Node.BlockStore.{BlockStore}
use bonded_subsat_channel.Node.Mempool.{Mempool}
use bonded_subsat_channel.Node.Validation.{ValidationResult}
use bonded_subsat_channel.Wallet.{WalletScripts, add_p2pkh, refresh, confirmed_balance, pay_p2pkh}

pub record SendResult : Type 0 where
  pub tx : Tx
  pub fee : ℤ
  pub result : ValidationResult

module _ (c : Crypto) (tx_size : Tx → ℕ) where
  open c use {PrivateKey, PublicKey, public_key}

  module _ (tree : Bip32 PrivateKey) where
    open tree use {Node}

    pub record WalletManager : Type 0 where
      pub hd : Node
      pub scripts : WalletScripts c tx_size

    unfoldable pub new_receive_address : ℕ → ℕ → WalletManager → PublicKey × WalletManager
    new_receive_address account index m =
        let priv = derive public_key tree m.hd account index in
        (
          public_key priv,
          record m { scripts = (add_p2pkh c tx_size account index priv m.scripts).1 },
        )

    unfoldable pub balance : WalletManager → BlockStore → ℤ
    balance m s = confirmed_balance c tx_size m.scripts s

    unfoldable pub list_utxos : WalletManager → BlockStore → List (Hash × ℕ × ℤ)
    list_utxos m s = map (λ u. (u.txid, u.vout, u.value)) (refresh c tx_size m.scripts s)

  -- `pay_p2pkh` with its last lines, for a node whose `submit_tx` is given
  unfoldable pub pay_and_submit :
      {W : Type 0}
      → (Tx → Mempool × W → Result ValidationResult × (Mempool × W))
      → WalletScripts c tx_size
      → PublicKey
      → ℤ
      → PublicKey
      → ℤ
      → Mempool × W
      → Result SendResult × (Mempool × W)
  pay_and_submit submit_tx scripts target_pubkey amount change_pubkey fee_per_byte (m, w) =
      elim (pay_p2pkh c tx_size scripts m.store target_pubkey amount change_pubkey fee_per_byte) [
        | err e ↦ (err e, (m, w))
        | ok (tx, fee) ↦
            let (answer, after) = submit_tx tx (m, w) in
            elim answer [
              | err e ↦ (err e, after)
              | ok result ↦ (ok (record { tx = tx; fee = fee; result = result }), after)
            ]
      ]
