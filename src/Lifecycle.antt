-- ===== src/Lifecycle.antt =====
-- src/channel/lifecycle.py: a channel from its funding to its close. A method that changes the
-- channel returns the new one.
pub mod Versions
pub mod Closing
pub mod Seeding
pub mod Funding
pub mod Refresh
pub mod Payouts
pub mod Settlement
pub mod Forfeit
pub mod Signatures
pub mod Signed
use bonded_subsat_channel.Base.{
  ℕ, zero, suc, ◌+◌, Bool, true, false, not, Option, none, some, List, [], ◌∷◌, map, length,
  get_elem?, Result, ok, err, Error, ◌>>=◌, ◌>>◌, raise_if, or_raise, leb, ltb, ◌==◌, if◌then◌else◌,
  traverse,
}
use bonded_subsat_channel.Base.Int.{ℤ, pos, at_least, leb_ℤ, ◌==ℤ◌}
use bonded_subsat_channel.Base.Sums.{sum}
use bonded_subsat_channel.Config.{ChannelConfig, make_config, start_sequence, final_sequence}
use bonded_subsat_channel.Accounting.{
  State, int, ensure_whole_satoshi, make_state, initial_state, transfer,
  assert_conservation_over_sequence,
}
use bonded_subsat_channel.Accounting.Order.{range}
use bonded_subsat_channel.Bond.{BondOutput, make_bond_script_for}
use bonded_subsat_channel.Chain.{Bytes, Hash, Tx, TxInput, TxOutput}
use bonded_subsat_channel.Crypto.{Crypto, op_true}
use bonded_subsat_channel.Keys.{KeyBook, public_keys}
use bonded_subsat_channel.Base.Bytes.{same_bytes}
use bonded_subsat_channel.Scripts.{channel_funding_script}

unfoldable pub sequence_for_version : ℤ → Result ℕ
sequence_for_version version = do
  v ← at_least Error.state 0 version
  let seq = start_sequence + v
  raise_if (leb final_sequence seq) Error.state
  ok seq

-- `[xs[j] for j in range(n) if j != i]`
unfoldable pub all_but {ℓ} : {A : Type ℓ} → ℕ → List A → List A
all_but i [] = []
all_but zero (x ∷ xs) = xs
all_but (suc i) (x ∷ xs) = x ∷ all_but i xs

-- an output of a number of satoshis
abbrev pub pays : ℕ → Bytes → TxOutput
pays v script = record { value = pos v; script_pubkey = script }

-- an input with no unlocking script yet
abbrev pub unsigned : Hash → ℕ → ℕ → TxInput
unsigned txid vout seq = record {
  prev_hash = txid;
  prev_idx = vout;
  script_sig = [];
  sequence = seq;
}

pub record Channel (K : Type 0) : Type 0 where
  pub cfg : ChannelConfig
  pub keybook : List K
  pub funding_tx : Tx
  pub funding_utxos : List TxOutput
  pub funding_confirmed : Bool
  pub state : State
  pub bonds : List BondOutput

module _ (c : Crypto) where
  open c use {PrivateKey, PublicKey, push_op}

  abbrev Chan : Type 0
  Chan = Channel PrivateKey

  -- the round for party `i` of the loop in `build_channel_outputs`
  unfoldable pub bond_tx_output : ChannelConfig → List PublicKey → ℕ → Result TxOutput
  bond_tx_output cfg pubs i = do
    owner ← or_raise (get_elem? pubs i) Error.index_error
    value ← or_raise (get_elem? cfg.bonds i) Error.index_error
    script ← make_bond_script_for c owner (all_but i pubs)
    ok (pays value script)

  unfoldable pub build_channel_outputs : ChannelConfig → KeyBook c → Result (List TxOutput)
  build_channel_outputs cfg keybook = do
    raise_if (not (length keybook == cfg.n)) Error.state
    let pubs = public_keys c keybook
    funding ← channel_funding_script c pubs
    bonds ← traverse (bond_tx_output cfg pubs) (range cfg.n)
    ok (pays cfg.s funding ∷ bonds)

  -- the round for party `i` of the loop in `_wrap_funding`
  unfoldable pub bond_output : ChannelConfig → List PublicKey → Hash → ℕ → Result BondOutput
  bond_output cfg pubs txid i = do
    owner ← or_raise (get_elem? pubs i) Error.index_error
    script ← make_bond_script_for c owner (all_but i pubs)
    value ← or_raise (get_elem? cfg.bonds i) Error.index_error
    ok (record {
      owner_index = i;
      value = value;
      funding_txid = txid;
      vout = 1 + i;
      locking_script = script;
    })

  -- `Channel._wrap_funding`
  unfoldable pub wrap_funding : ChannelConfig → KeyBook c → Tx → List TxOutput → Result Chan
  wrap_funding cfg keybook funding_tx funding_utxos = do
    raise_if (not (length keybook == cfg.n)) Error.state
    bonds ←
        traverse (bond_output cfg (public_keys c keybook) (c.lib.tx_hash funding_tx)) (range cfg.n)
    state ← initial_state cfg (pos 0)
    ok (record {
      cfg = cfg;
      keybook = keybook;
      funding_tx = funding_tx;
      funding_utxos = funding_utxos;
      funding_confirmed = false;
      state = state;
      bonds = bonds;
    })

  -- `parent_value if parent_value is not None else total`
  unfoldable pub parent_or : Option ℤ → ℕ → ℤ
  parent_or none total = pos total
  parent_or (some v) total = v

  -- `Channel.open`
  unfoldable pub open_channel : ChannelConfig → KeyBook c → Hash × ℕ → Option ℤ → Result Chan
  open_channel cfg keybook (prev_hash, prev_idx) parent_value = do
    total ← ensure_whole_satoshi (int (pos (cfg.s + sum cfg.bonds)))
    outputs ← build_channel_outputs cfg keybook
    let funding_tx : Tx = record {
      version = 1;
      inputs = unsigned prev_hash prev_idx final_sequence ∷ [];
      outputs = outputs;
      locktime = 0;
    }
    let parent : TxOutput = record {
      value = parent_or parent_value total;
      script_pubkey = push_op [] op_true;
    }
    wrap_funding cfg keybook funding_tx (parent ∷ [])

  -- the loop of `from_funding_tx`, over the outputs that are expected
  unfoldable pub check_outputs : List TxOutput → List TxOutput → Result (Unit {0})
  check_outputs actual [] = ok tt
  check_outputs [] (want ∷ wants) = err Error.index_error
  check_outputs (have ∷ haves) (want ∷ wants) = do
    raise_if (not (have.value ==ℤ want.value)) Error.state
    raise_if (not (same_bytes have.script_pubkey want.script_pubkey)) Error.state
    check_outputs haves wants

  unfoldable pub from_funding_tx : ChannelConfig → KeyBook c → Tx → List TxOutput → Result Chan
  from_funding_tx cfg keybook funding_tx parent_utxos = do
    expected ← build_channel_outputs cfg keybook
    raise_if (ltb (length funding_tx.outputs) (1 + cfg.n)) Error.state
    check_outputs funding_tx.outputs expected
    wrap_funding cfg keybook funding_tx parent_utxos

  unfoldable pub mark_confirmed : Chan → Chan
  mark_confirmed ch = record ch { funding_confirmed = true }

  unfoldable pub require_confirmed : Chan → Result (Unit {0})
  require_confirmed ch = raise_if (not ch.funding_confirmed) Error.unconfirmed_funding

  -- `self.funding_tx.outputs[0]`
  unfoldable pub channel_output : Chan → Result TxOutput
  channel_output ch = or_raise (get_elem? ch.funding_tx.outputs 0) Error.index_error

  unfoldable pub funding_txid : Chan → Hash
  funding_txid ch = c.lib.tx_hash ch.funding_tx

  unfoldable pub apply_transfer : Chan → ℤ → ℤ → ℤ → Result Chan
  apply_transfer ch sender recipient delta = do
    s ← transfer ch.state sender recipient delta ch.cfg
    ok (record ch { state = s })

  unfoldable pub apply_sequence : Chan → List (ℤ × ℤ × ℤ) → Result Chan
  apply_sequence ch ops = do
    s ← assert_conservation_over_sequence ch.state ops ch.cfg
    ok (record ch { state = s })

  -- `refresh_channel`, with the default outpoint of `Channel.open`
  unfoldable pub refresh_channel : Chan → ℤ → Result Chan
  refresh_channel ch new_l = do
    raise_if (leb_ℤ new_l (pos ch.cfg.l0)) Error.state
    new_cfg ←
        make_config (pos ch.cfg.n) (pos ch.cfg.k) (pos ch.cfg.s) (map pos ch.cfg.bonds) new_l
          (pos ch.cfg.delta)
    successor ← open_channel new_cfg ch.keybook (0, 0) none
    state ← make_state (map pos ch.state.balances) (pos 0)
    ok (record (mark_confirmed successor) { state = state })
