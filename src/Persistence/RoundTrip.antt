-- ===== src/Persistence/RoundTrip.antt =====
-- A channel through the document of src/channel/persistence.py and back.
use bonded_subsat_channel.Base.{◌≡◌, map, ok, arith, >>=-eq-ok}
use bonded_subsat_channel.Base.Int.{pos}
use bonded_subsat_channel.Config.Validity.{make_config-ok}
use bonded_subsat_channel.Accounting.Conserved.{make_state-pos, conservation_check-ok}
use bonded_subsat_channel.Crypto.{Crypto}
use bonded_subsat_channel.Lifecycle.{Channel, funding_txid}
use bonded_subsat_channel.Persistence.{channel_to_dict, dict_to_channel, schema_version}
use bonded_subsat_channel.Store.{Codec, ChannelDoc, config_doc, state_doc, key_hex}
use bonded_subsat_channel.Store.Recovery.{IsFaithful, IsStored, keys_read, recovered_bonds}

module _ (c : Crypto) (codec : Codec c) (faithful : IsFaithful c codec) where
  open c use {PrivateKey, push_op}
  open codec use {Text}

  -- A conserved channel with its own bonds and the placeholder parent, whose funding transaction can
  -- be written in hexadecimal digits, is written as a document, and `dict_to_channel` reads back
  -- exactly that channel, when the encodings of keys and transactions are read back as they are
  -- written.
  pub dict_to_channel-channel_to_dict :
      (ch : Channel PrivateKey) {text : Text}
      → codec.to_hex ch.funding_tx ≡ ok text
      → IsStored c codec faithful ch
      → (doc : ChannelDoc Text) × (channel_to_dict c codec ch ≡ ok doc)
        × (dict_to_channel c codec doc ≡ ok ch)
  unfolding channel_to_dict dict_to_channel funding_txid
  dict_to_channel-channel_to_dict ch {text} hexes w = (
    record {
      version = pos schema_version;
      cfg = config_doc ch.cfg;
      keys = map (key_hex c codec) ch.keybook;
      funding_tx_hex = text;
      funding_parent_value = w.parent_value;
      funding_confirmed = ch.funding_confirmed;
      state = state_doc ch.state;
    },
    rw (w.parent, hexes),
    ground (
      arith,
      make_config-ok ch.cfg w.valid,
      keys_read c codec faithful ch.keybook,
      faithful.txs_back ch.funding_tx text hexes,
      recovered_bonds c codec faithful ch w,
      make_state-pos ch.state.balances ch.state.version,
      conservation_check-ok ch.state ch.cfg w.conserved,
      w.parent,
    ),
  )

  -- A document that a channel is written as is read back as that channel.
  pub dict_to_channel-written :
      (ch : Channel PrivateKey) {doc : ChannelDoc Text}
      → channel_to_dict c codec ch ≡ ok doc
      → IsStored c codec faithful ch
      → dict_to_channel c codec doc ≡ ok ch
  unfolding channel_to_dict
  dict_to_channel-written ch {doc} e w =
      let (text, hexes, _) = >>=-eq-ok (codec.to_hex ch.funding_tx) _ e in
      let (made, written, back) = dict_to_channel-channel_to_dict ch hexes w in
      let same : made ≡ doc = cc (written, e) in rw (← same) back
