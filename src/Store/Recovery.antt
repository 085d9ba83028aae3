-- ===== src/Store/Recovery.antt =====
-- The channels that src/channel/store/recover.py writes to the system store and reads back.
use bonded_subsat_channel.Base.{
  ℕ, zero, suc, ◌+◌, ◌≡◌, refl, ap, ◌∙◌, true, some, List, [], ◌∷◌, map, length, length-map,
  get_elem?, Result, ok, Error, or_raise, traverse, arith,
}
use bonded_subsat_channel.Base.Bytes.{IsBytes}
use bonded_subsat_channel.Base.Hex.{join_commas, fromhex-hex}
use bonded_subsat_channel.Base.Int.{ℤ, pos}
use bonded_subsat_channel.Base.Dict.{nat_eq, outpoint_eq}
use bonded_subsat_channel.Config
use bonded_subsat_channel.Config.{ChannelConfig}
use bonded_subsat_channel.Accounting.Conserved.{IsConserved}
use bonded_subsat_channel.Accounting.Order.{range, range_from}
use bonded_subsat_channel.Chain.{Hash, Tx}
use bonded_subsat_channel.Crypto.{Crypto, op_true}
use bonded_subsat_channel.Keys.{public_keys}
use bonded_subsat_channel.Lifecycle.{Channel, all_but, bond_output, funding_txid}
use bonded_subsat_channel.Store.{
  ConfigDoc, StateDoc, ChannelDoc, Meta, Codec, config_doc, state_doc, key_hex, key_of_hex,
  fits_integer, recover_bond,
}

-- What is encoded item by item is decoded item by item.
pub traverse-back :
    {A B : Type 0} (f : A → B) (g : B → Result A) (xs : List A)
    → ((x : A) → g (f x) ≡ ok x)
    → traverse g (map f xs) ≡ ok xs
unfolding traverse
traverse-back f g [] h = refl
traverse-back f g (x ∷ xs) h = rw (h x, traverse-back f g xs h)

-- A loop that picks the items of a list by their indices.
pick_all :
    {A : Type 0} (ps : List A) (a : ℕ) (f : ℕ → Result A)
    → ((j : ℕ) (v : A) → get_elem? ps j ≡ some v → f (a + j) ≡ ok v)
    → traverse f (range_from a (length ps)) ≡ ok ps
unfolding traverse range_from
pick_all [] a f h = refl
pick_all (p ∷ ps) a f h = rw (
  ap f (let e : a ≡ a + 0 = omega arith in e) ∙ h 0 p refl,
  pick_all ps (a + 1) f
      (λ j v e. ap f (let q : a + 1 + j ≡ a + suc j = omega arith in q) ∙ h (suc j) v e),
)

pick_but :
    {A : Type 0} (ps : List A) (i a : ℕ) (f : ℕ → Result A)
    → ((j : ℕ) (v : A) → get_elem? ps j ≡ some v → f (a + j) ≡ ok v)
    → traverse f (all_but i (range_from a (length ps))) ≡ ok (all_but i ps)
unfolding traverse range_from all_but
pick_but [] i a f h = refl
pick_but (p ∷ ps) zero a f h =
    pick_all ps (a + 1) f
      (λ j v e. ap f (let q : a + 1 + j ≡ a + suc j = omega arith in q) ∙ h (suc j) v e)
pick_but (p ∷ ps) (suc i) a f h = rw (
  ap f (let e : a ≡ a + 0 = omega arith in e) ∙ h 0 p refl,
  pick_but ps i (a + 1) f
      (λ j v e. ap f (let q : a + 1 + j ≡ a + suc j = omega arith in q) ∙ h (suc j) v e),
)

traverse-ext :
    {A B : Type 0} (f g : A → Result B) (xs : List A)
    → ((x : A) → f x ≡ g x)
    → traverse f xs ≡ traverse g xs
unfolding traverse
traverse-ext f g [] h = refl
traverse-ext f g (x ∷ xs) h = rw (h x, traverse-ext f g xs h)

-- What a channel relies on to be read back: the bytes of a key are bytes and make that key, and a
-- text that `to_hex` or `json.dumps` returns is read back as what was written.
pub record IsFaithful (c : Crypto) (codec : Codec c) : Type 0 where
  pub keys_bytes : (k : c.PrivateKey) → IsBytes (codec.key_bytes k)
  pub keys_back : (k : c.PrivateKey) → codec.make_key (codec.key_bytes k) ≡ ok k
  pub txs_back : (tx : Tx) (t : codec.Text) → codec.to_hex tx ≡ ok t → codec.from_hex t ≡ ok tx
  pub configs_back :
      (d : ConfigDoc) (t : codec.Text) → codec.dumps_config d ≡ ok t → codec.loads_config t ≡ ok d
  pub states_back :
      (d : StateDoc) (t : codec.Text) → codec.dumps_state d ≡ ok t → codec.loads_state t ≡ ok d
  pub channels_back :
      (d : ChannelDoc codec.Text) (t : codec.Text)
      → codec.dumps_channel d ≡ ok t
      → codec.loads_channel t ≡ ok d

module _ (c : Crypto) (codec : Codec c) (faithful : IsFaithful c codec) where
  open c use {PrivateKey, PublicKey, push_op}

  -- With a key for each party a bond is recovered as `_wrap_funding` makes it.
  recover_bond-bond_output :
      (cfg : ChannelConfig) (pubs : List PublicKey) (txid : Hash) (i : ℕ)
      → length pubs ≡ cfg.n
      → recover_bond c codec cfg pubs txid i ≡ bond_output c cfg pubs txid i
  unfolding recover_bond bond_output range
  recover_bond-bond_output cfg pubs txid i e = rw (← e) (
      rw (
        pick_but pubs i 0 (λ j. or_raise (get_elem? pubs j) Error.index_error)
          (λ j v h.
            let q : 0 + j ≡ j = omega arith in
            ap (λ x. or_raise (get_elem? pubs x) Error.index_error) q
            ∙ ap (λ o. or_raise o Error.index_error) h)))

  -- A channel as `open` and `recover_channel` leave it: a key and a bond for each party, and the
  -- placeholder as the output that the funding transaction spends.
  pub record IsStored (ch : Channel PrivateKey) : Type 0 where
    pub valid : Config.IsValid ch.cfg
    pub keyed : length ch.keybook ≡ ch.cfg.n
    pub conserved : IsConserved ch.state ch.cfg
    pub own_bonds :
        traverse
          (bond_output c ch.cfg (public_keys c ch.keybook) (funding_txid c ch))
          (range ch.cfg.n)
        ≡ ok ch.bonds
    pub parent_value : ℤ
    pub parent :
        ch.funding_utxos ≡ record { value = parent_value; script_pubkey = push_op [] op_true } ∷ []

  -- The texts of the rows of a channel, which exist when nothing in it is out of the range of its
  -- encoding.
  pub record IsWritable (ch : Channel PrivateKey) : Type 0 where
    pub cfg_json : codec.Text
    pub dumps_cfg : codec.dumps_config (config_doc ch.cfg) ≡ ok cfg_json
    pub funding_tx_hex : codec.Text
    pub hexes : codec.to_hex ch.funding_tx ≡ ok funding_tx_hex
    pub state_json : codec.Text
    pub dumps_state : codec.dumps_state (state_doc ch.state) ≡ ok state_json
    pub fits : fits_integer (pos ch.state.version) ≡ true

  -- The row of a channel that `persist_channel` writes.
  abbrev meta_of : (ch : Channel PrivateKey) → IsWritable ch → ℤ → Meta codec.Text
  meta_of ch w parent_value = record {
    cfg_json = w.cfg_json;
    keys_hex = join_commas (map (key_hex c codec) ch.keybook);
    funding_tx_hex = w.funding_tx_hex;
    funding_confirmed = ch.funding_confirmed;
    parent_value = parent_value;
  }

  pub keys_read :
      (book : List PrivateKey)
      → traverse (key_of_hex c codec) (map (key_hex c codec) book) ≡ ok book
  unfolding key_hex key_of_hex
  keys_read book =
      traverse-back (key_hex c codec) (key_of_hex c codec) book
        (λ k. rw (fromhex-hex (codec.key_bytes k) (faithful.keys_bytes k)) (faithful.keys_back k))

  pubs_width :
      (ch : Channel PrivateKey) → IsStored ch → length (public_keys c ch.keybook) ≡ ch.cfg.n
  unfolding public_keys
  pubs_width ch w = length-map ch.keybook c.public_key ∙ w.keyed

  -- The bonds are rebuilt as they were.
  pub recovered_bonds :
      (ch : Channel PrivateKey)
      → IsStored ch
      → traverse
          (recover_bond c codec ch.cfg (public_keys c ch.keybook) (funding_txid c ch))
          (range ch.cfg.n)
        ≡ ok ch.bonds
  recovered_bonds ch w =
      traverse-ext (recover_bond c codec ch.cfg (public_keys c ch.keybook) (funding_txid c ch))
        (bond_output c ch.cfg (public_keys c ch.keybook) (funding_txid c ch)) (range ch.cfg.n)
        (λ i.
          recover_bond-bond_output ch.cfg (public_keys c ch.keybook) (funding_txid c ch) i
            (pubs_width ch w))
      ∙ w.own_bonds
