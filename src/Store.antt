-- ===== src/Store.antt =====
-- src/channel/store/store.py and src/channel/store/recover.py: the system store, and a channel
-- written to it and read back. A table is a dictionary from its primary key, and a commit is one
-- step. The bytes of a key and the hexadecimal text of a transaction are bitcoinx's, and the text of
-- a document is that of `json`, for which the document is the record of its values: they are the
-- parameter `Codec`, and such a text has any type. What writes a text may raise.
pub mod Latest
pub mod Recovery
use bonded_subsat_channel.Base.{
  ℕ, ◌+◌, Bool, Option, none, some, List, [], ◌∷◌, map, get_elem?, Result, ok, err, Error, raise_if,
  not, ltb, ◌*◌, ◌>>=◌, ◌>>◌, or_raise, leb, ◌==◌, if◌then◌else◌, traverse,
}
use bonded_subsat_channel.Base.Int.{ℤ, pos, negsuc}
use bonded_subsat_channel.Base.Dict.{Dict, lookup, insert, nat_eq, outpoint_eq}
use bonded_subsat_channel.Base.Bytes.{limit}
use bonded_subsat_channel.Base.Hex.{hex, fromhex, join_commas, split_commas}
use bonded_subsat_channel.Config.{ChannelConfig, make_config}
use bonded_subsat_channel.Accounting.{State, make_state, conservation_check, initial_state}
use bonded_subsat_channel.Accounting.Order.{range}
use bonded_subsat_channel.Bond.{BondOutput, make_bond_script_for}
use bonded_subsat_channel.Chain.{Bytes, Hash, Tx, TxOutput}
use bonded_subsat_channel.Crypto.{Crypto, op_true}
use bonded_subsat_channel.Keys.{public_keys}
use bonded_subsat_channel.Lifecycle.{Channel, all_but, funding_txid}

-- `cfg_json`
pub record ConfigDoc : Type 0 where
  pub n : ℤ
  pub k : ℤ
  pub s : ℤ
  pub bonds : List ℤ
  pub l0 : ℤ
  pub delta : ℤ

-- `state_json`
pub record StateDoc : Type 0 where
  pub balances : List ℤ
  pub version : ℤ

-- a row of `channel_meta` behind its key
pub record Meta (Text : Type 0) : Type 0 where
  pub cfg_json : Text
  pub keys_hex : List ℕ
  pub funding_tx_hex : Text
  pub funding_confirmed : Bool
  pub parent_value : ℤ

-- the document of a channel in src/channel/persistence.py, where a key is its hexadecimal text
pub record ChannelDoc (Text : Type 0) : Type 0 where
  pub version : ℤ
  pub cfg : ConfigDoc
  pub keys : List (List ℕ)
  pub funding_tx_hex : Text
  pub funding_parent_value : ℤ
  pub funding_confirmed : Bool
  pub state : StateDoc

pub record SystemStore (Text : Type 0) : Type 0 where
  pub wallet_seed : Option Bytes
  pub channel_meta : Dict Hash (Meta Text)
  pub channel_states : Dict (Hash × ℕ) Text

-- the row of the two with the higher version
unfoldable pub later : {D : Type 0} → ℕ → D → Option (ℕ × D) → Option (ℕ × D)
later v d none = some (v, d)
later v d (some (w, e)) = if leb w v then some (v, d) else some (w, e)

-- `WHERE channel_id = ? ORDER BY version DESC LIMIT 1`
unfoldable pub latest : {D : Type 0} → Hash → Dict (Hash × ℕ) D → Option (ℕ × D)
latest id [] = none
latest id (((h, v), d) ∷ rows) =
    let rest = latest id rows in if h == id then later v d rest else rest

-- what SQLite takes for an INTEGER
unfoldable pub fits_integer : ℤ → Bool
fits_integer (pos n) = ltb (2 * n) (limit 8)
fits_integer (negsuc n) = ltb (2 * n) (limit 8)

module _ {Text : Type 0} where
  unfoldable pub put_wallet_seed : Bytes → SystemStore Text → SystemStore Text
  put_wallet_seed seed s = record s { wallet_seed = some seed }

  unfoldable pub get_wallet_seed : SystemStore Text → Option Bytes
  get_wallet_seed s = s.wallet_seed

  unfoldable pub put_channel_meta : Hash → Meta Text → SystemStore Text → Result (SystemStore Text)
  put_channel_meta id m s = do
    raise_if (not (fits_integer m.parent_value)) Error.overflow
    ok (record s { channel_meta = insert id m s.channel_meta })

  unfoldable pub get_channel_meta : Hash → SystemStore Text → Option (Meta Text)
  get_channel_meta id s = lookup id s.channel_meta

  unfoldable pub put_channel_state : Hash → ℕ → Text → SystemStore Text → Result (SystemStore Text)
  put_channel_state id version d s = do
    raise_if (not (fits_integer (pos version))) Error.overflow
    ok (record s { channel_states = insert (id, version) d s.channel_states })

  unfoldable pub get_latest_channel_state : Hash → SystemStore Text → Option (ℕ × Text)
  get_latest_channel_state id s = latest id s.channel_states

  abbrev pub ids_of : Dict Hash (Meta Text) → List Hash
  ids_of [] = []
  ids_of ((id, _) ∷ rows) = id ∷ ids_of rows

  unfoldable pub list_channels : SystemStore Text → List Hash
  list_channels s = ids_of s.channel_meta

-- `PrivateKey.to_bytes` and the constructor, `Tx.to_hex` and `Tx.from_hex`, and `json.dumps` and
-- `json.loads` on the documents of the package
pub record Codec (c : Crypto) : Type 1 where
  pub Text : Type 0
  pub key_bytes : c.PrivateKey → Bytes
  pub make_key : Bytes → Result c.PrivateKey
  pub to_hex : Tx → Result Text
  pub from_hex : Text → Result Tx
  pub dumps_config : ConfigDoc → Result Text
  pub loads_config : Text → Result ConfigDoc
  pub dumps_state : StateDoc → Result Text
  pub loads_state : Text → Result StateDoc
  pub dumps_channel : ChannelDoc Text → Result Text
  pub loads_channel : Text → Result (ChannelDoc Text)

-- the values of a configuration and of a state in a document
abbrev pub config_doc : ChannelConfig → ConfigDoc
config_doc cfg = record {
  n = pos cfg.n;
  k = pos cfg.k;
  s = pos cfg.s;
  bonds = map pos cfg.bonds;
  l0 = pos cfg.l0;
  delta = pos cfg.delta;
}

abbrev pub state_doc : State → StateDoc
state_doc s = record { balances = map pos s.balances; version = pos s.version }

module _ (c : Crypto) (codec : Codec c) where
  open c use {PrivateKey, PublicKey, push_op}
  open codec use {Text}

  abbrev Chan : Type 0
  Chan = Channel PrivateKey

  -- `k.to_bytes().hex()` and `PrivateKey(bytes.fromhex(h))`
  unfoldable pub key_hex : PrivateKey → List ℕ
  key_hex k = hex (codec.key_bytes k)

  unfoldable pub key_of_hex : List ℕ → Result PrivateKey
  key_of_hex text = fromhex text >>= codec.make_key

  unfoldable pub meta_row : Chan → Result (Meta Text)
  meta_row ch = do
    cfg_json ← codec.dumps_config (config_doc ch.cfg)
    parent ← or_raise (get_elem? ch.funding_utxos 0) Error.index_error
    funding_tx_hex ← codec.to_hex ch.funding_tx
    ok (record {
      cfg_json = cfg_json;
      keys_hex = join_commas (map key_hex ch.keybook);
      funding_tx_hex = funding_tx_hex;
      funding_confirmed = ch.funding_confirmed;
      parent_value = parent.value;
    })

  unfoldable pub write_state : Chan → SystemStore Text → Result (SystemStore Text)
  write_state ch s = do
    state_json ← codec.dumps_state (state_doc ch.state)
    put_channel_state (funding_txid c ch) ch.state.version state_json s

  -- the first row is committed before the second one is written
  unfoldable pub persist_channel : SystemStore Text → Chan → Result (Unit {0}) × SystemStore Text
  persist_channel s ch =
      elim (meta_row ch >>= λ meta. put_channel_meta (funding_txid c ch) meta s) [
        | err e ↦ (err e, s)
        | ok written ↦ elim (write_state ch written) [
          | err e ↦ (err e, written)
          | ok after ↦ (ok tt, after)
        ]
      ]

  -- the round for party `i` of the loop over the bonds, over the first `n` keys
  unfoldable pub recover_bond : ChannelConfig → List PublicKey → Hash → ℕ → Result BondOutput
  recover_bond cfg pubs txid i = do
    cp ← traverse (λ j. or_raise (get_elem? pubs j) Error.index_error) (all_but i (range cfg.n))
    owner ← or_raise (get_elem? pubs i) Error.index_error
    script ← make_bond_script_for c owner cp
    value ← or_raise (get_elem? cfg.bonds i) Error.index_error
    ok (record {
      owner_index = i;
      value = value;
      funding_txid = txid;
      vout = 1 + i;
      locking_script = script;
    })

  -- the state of a channel that is read back
  unfoldable pub recover_state : ChannelConfig → Option (ℕ × Text) → Result State
  recover_state cfg none = initial_state cfg (pos 0)
  recover_state cfg (some (_, text)) = do
    d ← codec.loads_state text
    s ← make_state d.balances d.version
    conservation_check s cfg
    ok s

  -- what `recover_channel` does with the row of the channel
  unfoldable pub recover_from : Meta Text → Option (ℕ × Text) → Result Chan
  recover_from meta found = do
    d ← codec.loads_config meta.cfg_json
    cfg ← make_config d.n d.k d.s d.bonds d.l0 d.delta
    book ← traverse key_of_hex (split_commas meta.keys_hex)
    funding_tx ← codec.from_hex meta.funding_tx_hex
    bonds ←
        traverse (recover_bond cfg (public_keys c book) (c.lib.tx_hash funding_tx)) (range cfg.n)
    state ← recover_state cfg found
    let parent : TxOutput = record { value = meta.parent_value; script_pubkey = push_op [] op_true }
    ok (record {
      cfg = cfg;
      keybook = book;
      funding_tx = funding_tx;
      funding_utxos = parent ∷ [];
      funding_confirmed = meta.funding_confirmed;
      state = state;
      bonds = bonds;
    })

  unfoldable pub recover_channel : SystemStore Text → Hash → Result (Option Chan)
  recover_channel s id = elim (get_channel_meta id s) [
    | none ↦ ok none
    | some meta ↦ (do ch ← recover_from meta (get_latest_channel_state id s); ok (some ch))
  ]
