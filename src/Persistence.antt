-- ===== src/Persistence.antt =====
-- src/channel/persistence.py: a channel as a versioned document, which is the record of its values,
-- `ChannelDoc`, and read from one. Cli has its file, and the text in it. The bonds are rebuilt by
-- the loop that src/channel/store/recover.py has as well, `recover_bond`.
pub mod RoundTrip
use bonded_subsat_channel.Base.{
  ℕ, Bool, not, List, [], ◌∷◌, map, get_elem?, Result, ok, Error, ◌>>=◌, ◌>>◌, raise_if, or_raise,
  traverse,
}
use bonded_subsat_channel.Base.Int.{ℤ, pos, ◌==ℤ◌}
use bonded_subsat_channel.Config.{make_config}
use bonded_subsat_channel.Accounting.{make_state, conservation_check}
use bonded_subsat_channel.Accounting.Order.{range}
use bonded_subsat_channel.Chain.{Bytes, TxOutput}
use bonded_subsat_channel.Crypto.{Crypto, op_true}
use bonded_subsat_channel.Keys.{public_keys}
use bonded_subsat_channel.Lifecycle.{Channel}
use bonded_subsat_channel.Store.{
  Codec, ChannelDoc, config_doc, state_doc, key_hex, key_of_hex, recover_bond,
}

abbrev pub schema_version : ℕ
schema_version = 1

module _ (c : Crypto) (codec : Codec c) where
  open c use {PrivateKey, push_op}
  open codec use {Text}

  unfoldable pub channel_to_dict : Channel PrivateKey → Result (ChannelDoc Text)
  channel_to_dict ch = do
    funding_tx_hex ← codec.to_hex ch.funding_tx
    parent ← or_raise (get_elem? ch.funding_utxos 0) Error.index_error
    ok (record {
      version = pos schema_version;
      cfg = config_doc ch.cfg;
      keys = map (key_hex c codec) ch.keybook;
      funding_tx_hex = funding_tx_hex;
      funding_parent_value = parent.value;
      funding_confirmed = ch.funding_confirmed;
      state = state_doc ch.state;
    })

  unfoldable pub dict_to_channel : ChannelDoc Text → Result (Channel PrivateKey)
  dict_to_channel doc = do
    raise_if (not (doc.version ==ℤ pos schema_version)) Error.persistence
    let d = doc.cfg
    cfg ← make_config d.n d.k d.s d.bonds d.l0 d.delta
    book ← traverse (key_of_hex c codec) doc.keys
    funding_tx ← codec.from_hex doc.funding_tx_hex
    bonds ←
        traverse (recover_bond c codec cfg (public_keys c book) (c.lib.tx_hash funding_tx))
          (range cfg.n)
    state ← make_state doc.state.balances doc.state.version
    conservation_check state cfg
    let parent : TxOutput = record {
      value = doc.funding_parent_value;
      script_pubkey = push_op [] op_true;
    }
    ok (record {
      cfg = cfg;
      keybook = book;
      funding_tx = funding_tx;
      funding_utxos = parent ∷ [];
      funding_confirmed = doc.funding_confirmed;
      state = state;
      bonds = bonds;
    })
