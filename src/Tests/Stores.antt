-- ===== src/Tests/Stores.antt =====
-- The theorems on stored channels at a concrete channel.
use bonded_subsat_channel.Base.{
  ℕ, zero, suc, ◌+◌, ◌≡◌, refl, ap, true, none, [], ◌∷◌, length, replicate, arith, ok, err, Error,
  Result, inl, inr, ltb, traverse, Bool-cases, if◌then◌else◌,
}
use bonded_subsat_channel.Base.Bytes.{IsBytes}
use bonded_subsat_channel.Base.Int.{pos}
use bonded_subsat_channel.Accounting.Order.{range, range_from}
use bonded_subsat_channel.Bond.{BondOutput, make_bond_script_for}
use bonded_subsat_channel.Chain.{Bytes, Tx}
use bonded_subsat_channel.Config.{final_sequence}
use bonded_subsat_channel.Keys.{public_keys}
use bonded_subsat_channel.Lifecycle.{Channel, all_but, pays, unsigned, bond_output, funding_txid}
use bonded_subsat_channel.Scripts.{bond_script, push_count, push_keys, op_n}
use bonded_subsat_channel.Store.{
  ConfigDoc, StateDoc, ChannelDoc, SystemStore, Codec, config_doc, state_doc, fits_integer,
  meta_row, write_state, put_channel_meta, put_channel_state, persist_channel,
}
use bonded_subsat_channel.Store.Recovery.{IsFaithful, IsStored, IsWritable}
use bonded_subsat_channel.Persistence.{channel_to_dict, dict_to_channel}
use bonded_subsat_channel.Persistence.RoundTrip.{dict_to_channel-channel_to_dict}
use bonded_subsat_channel.Tests.Fixtures.{toy, three, shares, keys}
use bonded_subsat_channel.Tests.Ledger.{three-IsValid, shares-IsConserved}

-- a key is a count of bytes
abbrev key_of_bytes : Bytes → Result ℕ
key_of_bytes bs = ok (length bs)

-- what is written, as it is, with the transaction of a channel's document beside the rest
pub data Doc : Type 0 where
  of_tx : Tx → Doc
  of_config : ConfigDoc → Doc
  of_state : StateDoc → Doc
  of_channel : Tx → ChannelDoc (Unit {0}) → Doc

abbrev with_text : {A B : Type 0} → B → ChannelDoc A → ChannelDoc B
with_text t d = record {
  version = d.version;
  cfg = d.cfg;
  keys = d.keys;
  funding_tx_hex = t;
  funding_parent_value = d.funding_parent_value;
  funding_confirmed = d.funding_confirmed;
  state = d.state;
}

abbrev dump_at : Doc → ChannelDoc Doc → Result Doc
dump_at (Doc.of_tx t) d = ok (Doc.of_channel t (with_text tt d))
dump_at (Doc.of_config t) d = err Error.value_error
dump_at (Doc.of_state t) d = err Error.value_error
dump_at (Doc.of_channel t u) d = err Error.value_error

abbrev load_tx : Doc → Result Tx
load_tx (Doc.of_tx t) = ok t
load_tx (Doc.of_config t) = err Error.value_error
load_tx (Doc.of_state t) = err Error.value_error
load_tx (Doc.of_channel t u) = err Error.value_error

abbrev load_config : Doc → Result ConfigDoc
load_config (Doc.of_tx t) = err Error.value_error
load_config (Doc.of_config t) = ok t
load_config (Doc.of_state t) = err Error.value_error
load_config (Doc.of_channel t u) = err Error.value_error

abbrev load_state : Doc → Result StateDoc
load_state (Doc.of_tx t) = err Error.value_error
load_state (Doc.of_config t) = err Error.value_error
load_state (Doc.of_state t) = ok t
load_state (Doc.of_channel t u) = err Error.value_error

abbrev load_doc : Doc → Result (ChannelDoc Doc)
load_doc (Doc.of_tx t) = err Error.value_error
load_doc (Doc.of_config t) = err Error.value_error
load_doc (Doc.of_state t) = err Error.value_error
load_doc (Doc.of_channel t u) = ok (with_text (Doc.of_tx t) u)

-- no transaction with a version out of 32 bits is written
abbrev hex_of : Tx → Result Doc
hex_of tx = if ltb tx.version 4294967296 then ok (Doc.of_tx tx) else err Error.overflow

abbrev pub plain : Codec toy
plain = record {
  Text = Doc;
  key_bytes = λ k. replicate k 0;
  make_key = key_of_bytes;
  to_hex = hex_of;
  from_hex = load_tx;
  dumps_config = λ d. ok (Doc.of_config d);
  loads_config = load_config;
  dumps_state = λ d. ok (Doc.of_state d);
  loads_state = load_state;
  dumps_channel = λ d. dump_at d.funding_tx_hex d;
  loads_channel = load_doc;
}

zeros-IsBytes : (k : ℕ) → IsBytes (replicate k 0)
zeros-IsBytes zero = tt
zeros-IsBytes (suc k) = (omega arith, zeros-IsBytes k)

zeros-length : (k : ℕ) → length {A = ℕ} (replicate k 0) ≡ k
zeros-length zero = refl
zeros-length (suc k) = rw (zeros-length k) refl

dump_at-back :
    (x : Doc) (d : ChannelDoc Doc) (t : Doc) → dump_at x d ≡ ok t → load_doc t ≡ ok (with_text x d)
dump_at-back (Doc.of_tx u) d t e =
    let same : Doc.of_channel u (with_text tt d) ≡ t = cc e in rw (← same) refl
dump_at-back (Doc.of_config u) d t e = absurd (cc e)
dump_at-back (Doc.of_state u) d t e = absurd (cc e)
dump_at-back (Doc.of_channel u v) d t e = absurd (cc e)

hex_of-back : (tx : Tx) (t : Doc) → hex_of tx ≡ ok t → load_tx t ≡ ok tx
hex_of-back tx t e = elim (Bool-cases (ltb tx.version 4294967296)) [
  | inl here ↦ let same : Doc.of_tx tx ≡ t = ground (arith, e, here) in rw (← same) refl
  | inr out ↦ absurd (ground (arith, e, out))
]

pub plain-IsFaithful : IsFaithful toy plain
plain-IsFaithful = record {
  keys_bytes = zeros-IsBytes;
  keys_back = λ k. ap ok (zeros-length k);
  txs_back = hex_of-back;
  configs_back = λ d t e. let same : Doc.of_config d ≡ t = cc e in rw (← same) refl;
  states_back = λ d t e. let same : Doc.of_state d ≡ t = cc e in rw (← same) refl;
  channels_back = λ d t e. dump_at-back d.funding_tx_hex d t e;
}

abbrev funding : Tx
funding = record {
  version = 1;
  inputs = unsigned 9 0 final_sequence ∷ [];
  outputs = pays 7 (1 ∷ []) ∷ pays 5 [] ∷ pays 6 [] ∷ pays 7 [] ∷ [];
  locktime = 0;
}

abbrev bond : ℕ → ℕ → ℕ → ℕ → ℕ → BondOutput
bond i value owner p q = record {
  owner_index = i;
  value = value;
  funding_txid = 429496729514;
  vout = 1 + i;
  locking_script = 1 ∷ owner ∷ 1 ∷ 1 ∷ 1 ∷ p ∷ q ∷ 1 ∷ 1 ∷ 1 ∷ [];
}

abbrev pub saved : Channel ℕ
saved = record {
  cfg = three;
  keybook = keys;
  funding_tx = funding;
  funding_utxos = pays 25 (1 ∷ []) ∷ [];
  funding_confirmed = true;
  state = shares;
  bonds = bond 0 5 111 112 113 ∷ bond 1 6 112 111 113 ∷ bond 2 7 113 111 112 ∷ [];
}

saved-IsStored : IsStored toy plain plain-IsFaithful saved
unfolding traverse range range_from bond_output public_keys all_but make_bond_script_for bond_script
    push_count push_keys op_n funding_txid
saved-IsStored = record {
  valid = three-IsValid;
  keyed = refl;
  conserved = shares-IsConserved;
  own_bonds = refl;
  parent_value = pos 25;
  parent = refl;
}

pub saved-IsWritable : IsWritable toy plain plain-IsFaithful saved
unfolding fits_integer
saved-IsWritable = record {
  cfg_json = Doc.of_config (config_doc three);
  dumps_cfg = refl;
  funding_tx_hex = Doc.of_tx funding;
  hexes = refl;
  state_json = Doc.of_state (state_doc shares);
  dumps_state = refl;
  fits = refl;
}

-- a store that has two rows of the channel, under the versions 3 and 4
abbrev older : SystemStore Doc
older = record {
  wallet_seed = none;
  channel_meta = [];
  channel_states =
      ((429496729514, 3), Doc.of_state (record { balances = []; version = pos 3 }))
      ∷ ((429496729514, 4), Doc.of_state (record { balances = []; version = pos 4 }))
      ∷ [];
}

dict_to_channel-channel_to_dict_example :
    (doc : ChannelDoc Doc) × (channel_to_dict toy plain saved ≡ ok doc)
    × (dict_to_channel toy plain doc ≡ ok saved)
dict_to_channel-channel_to_dict_example =
    dict_to_channel-channel_to_dict toy plain plain-IsFaithful saved refl saved-IsStored

-- the store behind `persist_channel`, for the tests of the manager
pub saved_persists : (s : SystemStore Doc) → (persist_channel toy plain s saved).0 ≡ ok tt
unfolding persist_channel meta_row write_state put_channel_meta put_channel_state fits_integer
saved_persists s = refl
