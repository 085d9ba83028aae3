-- ===== src/Wallet/Receives.antt =====
-- What a wallet of src/channel/wallet/manage.py and utxo.py finds in the store.
use mathlib.Core.Path.{subst}
use bonded_subsat_channel.Base.{
  ℕ, ◌≡◌, ◌⊎◌, ap, inl, inr, some, List, [], ◌∷◌, ◌++◌, map, Bool-cases,
}
use bonded_subsat_channel.Base.Dict.{Dict, lookup, insert, outpoint_eq, nat_eq, lookup-insert_self}
use bonded_subsat_channel.Base.Bytes.{bytes_eq, same_bytes, same_bytes_refl, same_bytes-≡}
use bonded_subsat_channel.Chain.{Bytes, Outpoint, Tx}
use bonded_subsat_channel.Crypto.{Crypto}
use bonded_subsat_channel.Hd.{Bip32, derive}
use bonded_subsat_channel.Node.BlockStore.{
  BlockStore, UtxoEntry, Row, entry_of, rows_for_script, utxos_for_script,
}
use bonded_subsat_channel.Scripts.{p2pkh_script}
use bonded_subsat_channel.Wallet.{WalletScripts, add_p2pkh, keys_for, refresh}
use bonded_subsat_channel.Wallet.Manage.{WalletManager, new_receive_address, list_utxos}

-- The item stands in the list.
abbrev pub Has : {A : Type 0} → A → List A → Type 0
Has x [] = ⊥
Has x (y ∷ ys) = (x ≡ y) ⊎ Has x ys

pub Has-append_left : {A : Type 0} (x : A) (xs ys : List A) → Has x xs → Has x (xs ++ ys)
Has-append_left x [] ys h = absurd h
Has-append_left x (y ∷ xs) ys (inl e) = inl e
Has-append_left x (y ∷ xs) ys (inr h) = inr (Has-append_left x xs ys h)

pub Has-append_right : {A : Type 0} (x : A) (xs ys : List A) → Has x ys → Has x (xs ++ ys)
Has-append_right x [] ys h = h
Has-append_right x (y ∷ xs) ys h = inr (Has-append_right x xs ys h)

Has-map : {A B : Type 0} (f : A → B) (x : A) (xs : List A) → Has x xs → Has (f x) (map f xs)
Has-map f x [] h = absurd h
Has-map f x (y ∷ xs) (inl e) = inl (ap f e)
Has-map f x (y ∷ xs) (inr h) = inr (Has-map f x xs h)

-- An unspent output is found by its script.
rows_for_script-Has :
    (key : Outpoint) (r : Row) (rows : Dict Outpoint Row)
    → lookup key rows ≡ some r
    → Has (entry_of key r) (rows_for_script r.script_pubkey rows)
unfolding lookup rows_for_script
rows_for_script-Has key r [] h = absurd (cc h)
rows_for_script-Has key r ((j, w) ∷ rows) h = elim (Bool-cases (outpoint_eq.beq key j)) [
  | inl same ↦
      let k_is : key ≡ j = (outpoint_eq.beq_iff key j).0 same in
      let r_is : w ≡ r = cc (rw (lookup, same) at h) in
      rw (r_is, same_bytes_refl r.script_pubkey) (inl (ap (λ k. entry_of k r) k_is))
  | inr other ↦
      let found = rows_for_script-Has key r rows (rw (lookup, other) at h) in
      elim (Bool-cases (same_bytes w.script_pubkey r.script_pubkey)) [
        | inl too ↦ rw too (inr found)
        | inr alone ↦ rw alone found
      ]
]

module _ (c : Crypto) (tx_size : Tx → ℕ) where
  open c use {PrivateKey, PublicKey, public_key}

  -- What a script of the wallet locks is among its outputs.
  refresh-Has :
      (script : Bytes) (e : UtxoEntry) (scripts : WalletScripts c tx_size) (s : BlockStore)
      {keyed : ℕ × ℕ × PrivateKey}
      → lookup script scripts ≡ some keyed
      → Has e (utxos_for_script script s)
      → Has e (refresh c tx_size scripts s)
  unfolding lookup refresh
  refresh-Has script e [] s at_key h = absurd (cc at_key)
  refresh-Has script e ((other, k) ∷ scripts) s at_key h =
      elim (Bool-cases (same_bytes script other)) [
        | inl same ↦
            Has-append_left e (utxos_for_script other s) _
              (rw (same_bytes-≡ script other same) at h)
        | inr apart ↦
            Has-append_right e (utxos_for_script other s) _
              (refresh-Has script e scripts s (rw (lookup, apart) at at_key) h)
      ]

  -- An unspent output that is locked by the script of a new address of the wallet is listed with its
  -- value, and the wallet has the key that was derived for the address.
  pub new_receive_address-Has :
      (tree : Bip32 PrivateKey) (m : WalletManager c tx_size tree) (account index : ℕ)
      (s : BlockStore) (txid vout : ℕ) (r : Row)
      → lookup (txid, vout) s.utxos ≡ some r
      → let (pk, after) = new_receive_address c tx_size tree account index m in
        r.script_pubkey ≡ p2pkh_script c pk
        → Has (txid, vout, r.value) (list_utxos c tx_size tree after s)
          × (keys_for c tx_size r.script_pubkey after.scripts
              ≡ some (account, index, derive public_key tree m.hd account index))
  unfolding new_receive_address list_utxos add_p2pkh keys_for utxos_for_script
  new_receive_address-Has tree m account index s txid vout r present locked =
      let priv : PrivateKey = derive public_key tree m.hd account index in
      let script : Bytes = p2pkh_script c (public_key priv) in
      let scripts : WalletScripts c tx_size = insert script (account, index, priv) m.scripts in
      let known = lookup-insert_self script (account, index, priv) m.scripts in
      (
        Has-map (λ u. (u.txid, u.vout, u.value)) (entry_of (txid, vout) r)
            (refresh c tx_size scripts s)
            (refresh-Has script (entry_of (txid, vout) r) scripts s known (
              subst (λ t. Has (entry_of (txid, vout) r) (rows_for_script t s.utxos)) locked
                (rows_for_script-Has (txid, vout) r s.utxos present))),
        rw locked known,
      )
