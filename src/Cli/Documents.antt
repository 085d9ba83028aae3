-- ===== src/Cli/Documents.antt =====
-- The channels that the commands of src/channel/cli.py keep in a file: what `open` makes fits the
-- document of a channel.
use bonded_subsat_channel.Base.{
  ℕ, ◌+◌, ◌≢◌, ◌≡◌, refl, false, true, not, Option, List, [], ◌∷◌, length, ok, Error, raise_if,
  ◌==◌, traverse, >>=-eq-ok,
}
use bonded_subsat_channel.Base.Int.{ℤ, pos}
use bonded_subsat_channel.Base.Sums.{sum}
use bonded_subsat_channel.Base.Dict.{lookup, insert, lookup-insert_self, lookup-insert_ne}
use bonded_subsat_channel.Base.Bytes.{bytes_eq}
use bonded_subsat_channel.Config.{ChannelConfig}
use bonded_subsat_channel.Accounting.{int, initial_state, ensure_whole_satoshi}
use bonded_subsat_channel.Accounting.Order.{range}
use bonded_subsat_channel.Chain.{Hash, Tx, TxOutput}
use bonded_subsat_channel.Crypto.{Crypto, op_true}
use bonded_subsat_channel.Keys.{KeyBook, public_keys}
use bonded_subsat_channel.Lifecycle.{
  Channel, mark_confirmed, parent_or, bond_output, build_channel_outputs, wrap_funding,
  open_channel, funding_txid,
}
use bonded_subsat_channel.Accounting.Conserved.{IsConserved}
use bonded_subsat_channel.Cli.{File, Files, save_channel, load_channel, parse_channel}
use bonded_subsat_channel.Lifecycle.Settlement.{IsFunded}
use bonded_subsat_channel.Persistence.{channel_to_dict}
use bonded_subsat_channel.Persistence.RoundTrip.{dict_to_channel-written}
use bonded_subsat_channel.Store.{Codec}
use bonded_subsat_channel.Store.Recovery.{IsFaithful, IsStored}

module _ (c : Crypto) where
  open c use {PrivateKey}

  -- The bonds of the channel are those that its keys and its funding transaction make.
  abbrev pub HasOwnBonds : Channel PrivateKey → Type 0
  HasOwnBonds ch =
      traverse (bond_output c ch.cfg (public_keys c ch.keybook) (funding_txid c ch))
        (range ch.cfg.n)
      ≡ ok ch.bonds

  wrap_funding-bonds :
      (cfg : ChannelConfig) (keybook : KeyBook c) (tx : Tx) (parents : List TxOutput)
      {ch : Channel PrivateKey}
      → wrap_funding c cfg keybook tx parents ≡ ok ch
      → HasOwnBonds ch × (ch.keybook ≡ keybook) × (ch.funding_utxos ≡ parents)
  unfolding wrap_funding funding_txid
  wrap_funding-bonds cfg keybook tx parents {ch} e =
      let (_, e0, e1) = >>=-eq-ok (raise_if (not (length keybook == cfg.n)) Error.state) _ e in
      let (bonds, e2, e3) =
        >>=-eq-ok
          (traverse (bond_output c cfg (public_keys c keybook) (c.lib.tx_hash tx)) (range cfg.n)) _
          e1 in
      let (state, e4, e5) = >>=-eq-ok (initial_state cfg (pos 0)) _ e3 in
      let same : record {
        cfg = cfg;
        keybook = keybook;
        funding_tx = tx;
        funding_utxos = parents;
        funding_confirmed = false;
        state = state;
        bonds = bonds;
      }
          ≡ ch =
        cc e5 in
      rw (← same) (e2, refl, refl)

  open_channel-bonds :
      (cfg : ChannelConfig) (keybook : KeyBook c) (outpoint : Hash × ℕ) (parent_value : Option ℤ)
      {ch : Channel PrivateKey}
      → open_channel c cfg keybook outpoint parent_value ≡ ok ch
      → HasOwnBonds ch
        × (ch.keybook ≡ keybook)
        × (value : ℤ) × (ch.funding_utxos
            ≡ record { value = value; script_pubkey = c.push_op [] op_true } ∷ [])
  unfolding open_channel
  open_channel-bonds cfg keybook (h, i) parent_value {ch} e =
      let (total, e0, e1) =
        >>=-eq-ok (ensure_whole_satoshi (int (pos (cfg.s + sum cfg.bonds)))) _ e in
      let (outputs, e2, e3) = >>=-eq-ok (build_channel_outputs c cfg keybook) _ e1 in
      let (own, keys, parents) = wrap_funding-bonds cfg keybook _ _ e3 in
      (own, keys, parent_or c parent_value total, parents)

  module _ (codec : Codec c) (tx_size : Tx → ℕ) (random_key : ℕ → PrivateKey)
      (faithful : IsFaithful c codec) where
    open codec use {Text}

    -- A channel that is saved is loaded again, and no other file changes.
    pub load_channel-save_channel :
        (ch : Channel PrivateKey) (path : List ℕ) (files : Files Text) {saved : Files Text}
        → save_channel c codec tx_size random_key ch path files ≡ ok saved
        → IsStored c codec faithful ch
        → (load_channel c codec tx_size random_key path saved ≡ ok ch)
          × ((j : List ℕ) → j ≢ path → lookup j saved ≡ lookup j files)
    unfolding save_channel load_channel parse_channel
    load_channel-save_channel ch path files {saved} e w =
        let (doc, written, e1) = >>=-eq-ok (channel_to_dict c codec ch) _ e in
        let (text, dumped, e2) = >>=-eq-ok (codec.dumps_channel doc) _ e1 in
        let same : insert path (File.document text) files ≡ saved = cc e2 in
        rw (← same) (
          rw
              (
                lookup-insert_self path (File.document text) files,
                faithful.channels_back doc text dumped,
              )
              (dict_to_channel-written c codec faithful ch written w),
          λ j ne. lookup-insert_ne j path (File.document text) files ne,
        )

    -- The file at the path is that of a confirmed, funded channel of the configuration, at a
    -- conserved state.
    pub record Holds (cfg : ChannelConfig) (path : List ℕ) (files : Files Text) : Type 0 where
      pub channel : Channel PrivateKey
      pub loads : load_channel c codec tx_size random_key path files ≡ ok channel
      pub stored : IsStored c codec faithful channel
      pub funded : IsFunded c channel
      pub is_confirmed : channel.funding_confirmed ≡ true
      pub same_cfg : channel.cfg ≡ cfg

    -- What `open` makes can be written as a document.
    pub open_channel-IsStored :
        (cfg : ChannelConfig) (keybook : KeyBook c) (outpoint : Hash × ℕ) (parent_value : Option ℤ)
        (ch : Channel PrivateKey)
        → open_channel c cfg keybook outpoint parent_value ≡ ok ch
        → IsFunded c ch
        → IsConserved ch.state ch.cfg
        → IsStored c codec faithful (mark_confirmed c ch)
    unfolding mark_confirmed funding_txid
    open_channel-IsStored cfg keybook outpoint parent_value ch e funded conserved =
        let (own, keys, value, parents) = open_channel-bonds cfg keybook outpoint parent_value e in
        record {
          valid = funded.valid;
          keyed = funded.keyed;
          conserved = conserved;
          own_bonds = own;
          parent_value = value;
          parent = parents;
        }
