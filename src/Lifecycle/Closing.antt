-- ===== src/Lifecycle/Closing.antt =====
-- The transactions of a channel in src/channel/lifecycle.py: the state transaction, the cooperative
-- close, and the forfeiture of a bond.
use bonded_subsat_channel.Base.{
  ℕ, zero, suc, ◌+◌, ◌-◌, ◌*◌, ◌/◌, Option, none, some, List, [], ◌∷◌, ◌++◌, map, length, get_elem?,
  Result, ok, Error, ◌>>=◌, ◌>>◌, raise_if, or_raise, ltb, ◌==◌, if◌then◌else◌, traverse,
}
use bonded_subsat_channel.Base.Int.{ℤ, pos, in_range, at_least}
use bonded_subsat_channel.Config.{final_sequence, coop_locktime}
use bonded_subsat_channel.Accounting.{
  State, int, ensure_whole_satoshi, make_state, conservation_check, quantise,
}
use bonded_subsat_channel.Accounting.Order.{range}
use bonded_subsat_channel.Bond.{utxo, sign_bond_return, sign_bond_forfeit}
use bonded_subsat_channel.Chain.{Bytes, Tx, TxInput, TxOutput}
use bonded_subsat_channel.Crypto.{Crypto, op_return, sign_input}
use bonded_subsat_channel.Keys.{KeyBook, private, public}
use bonded_subsat_channel.Lifecycle.{
  Channel, sequence_for_version, all_but, pays, unsigned, require_confirmed, channel_output,
  funding_txid,
}
use bonded_subsat_channel.Scripts.{p2pkh_script, channel_funding_unlock}
use bonded_subsat_channel.Verify.{verify_all_inputs}

module _ (c : Crypto) where
  open c use {PrivateKey, PublicKey, push_op}

  abbrev Chan : Type 0
  Chan = Channel PrivateKey

  -- `if v > 0: outputs.append(TxOutput(v, p2pkh_script(self.keybook.public(i))))`, behind the check
  -- that `v` is a whole number of satoshis
  unfoldable pub pay_party : KeyBook c → ℕ → ℕ → Result (List TxOutput)
  pay_party book i v = do
    w ← ensure_whole_satoshi (int (pos v))
    pk ← public c book (pos i)
    ok (if ltb 0 w then pays w (p2pkh_script c pk) ∷ [] else [])

  -- the payouts of a state transaction, from party `i` on; a party that gets nothing is passed over
  unfoldable pub state_payouts : KeyBook c → ℕ → List ℕ → Result (List TxOutput)
  state_payouts book i [] = ok []
  state_payouts book i (q ∷ qs) = do
    out ← if ltb 0 q then pay_party book i q else ok []
    rest ← state_payouts book (i + 1) qs
    ok (out ++ rest)

  -- `if not outputs: outputs.append(TxOutput(0, Script() << Ops.OP_RETURN))`
  unfoldable pub or_placeholder : List TxOutput → List TxOutput
  or_placeholder [] = pays 0 (push_op [] op_return) ∷ []
  or_placeholder (o ∷ os) = o ∷ os

  unfoldable pub build_state_tx : Chan → State → Result (Tx × List TxOutput)
  build_state_tx ch state = do
    q ← quantise state ch.cfg
    seq ← sequence_for_version (pos state.version)
    outputs ← state_payouts ch.keybook 0 q
    spent ← channel_output c ch
    let tx : Tx = record {
      version = 1;
      inputs = unsigned (funding_txid c ch) 0 seq ∷ [];
      outputs = or_placeholder outputs;
      locktime = 0;
    }
    ok (tx, spent ∷ [])

  -- the signatures of parties on input 0, which spends `spent`
  unfoldable pub sign_all : Tx → TxOutput → KeyBook c → ℕ → Result Bytes
  sign_all tx spent book i = do
    k ← private c book (pos i)
    ok (sign_input c tx 0 spent.value spent.script_pubkey k)

  -- `tx.inputs[i] = TxInput(…)` with the unlocking script
  unfoldable pub unlock_at : ℕ → Bytes → List TxInput → List TxInput
  unlock_at i script [] = []
  unlock_at zero script (t ∷ ts) = record t { script_sig = script } ∷ ts
  unlock_at (suc i) script (t ∷ ts) = t ∷ unlock_at i script ts

  unfoldable pub with_unlock : ℕ → Bytes → Tx → Tx
  with_unlock i script tx = record tx { inputs = unlock_at i script tx.inputs }

  unfoldable pub sign_state_tx : Chan → State → Result (Tx × List TxOutput)
  sign_state_tx ch state = do
    require_confirmed c ch
    (tx, utxos) ← build_state_tx ch state
    spent ← or_raise (get_elem? utxos 0) Error.index_error
    sigs ← traverse (sign_all tx spent ch.keybook) (range ch.cfg.n)
    script ← channel_funding_unlock c sigs
    ok (with_unlock 0 script tx, utxos)

  -- the round for party `i` of the loop over the inputs and their outputs spent
  unfoldable pub bond_input : Chan → ℕ → Result (TxInput × TxOutput)
  bond_input ch i = do
    bond ← or_raise (get_elem? ch.bonds i) Error.index_error
    ok (unsigned (funding_txid c ch) (1 + i) final_sequence, utxo bond)

  -- the round for party `i` of the loop over the outputs
  unfoldable pub close_payout : Chan → List ℕ → ℕ → Result (List TxOutput)
  close_payout ch q i = do
    share ← or_raise (get_elem? q i) Error.index_error
    bond ← or_raise (get_elem? ch.cfg.bonds i) Error.index_error
    payout ← ensure_whole_satoshi (int (pos (share + bond)))
    if ltb 0 payout then pay_party ch.keybook i payout else ok []

  abbrev pub concat : List (List TxOutput) → List TxOutput
  concat [] = []
  concat (xs ∷ xss) = xs ++ concat xss

  unfoldable pub build_close_tx : Chan → State → Result (Tx × List TxOutput)
  build_close_tx ch state = do
    q ← quantise state ch.cfg
    spent ← channel_output c ch
    bonds ← traverse (bond_input ch) (range ch.cfg.n)
    outputs ← traverse (close_payout ch q) (range ch.cfg.n)
    let tx : Tx = record {
      version = 1;
      inputs = unsigned (funding_txid c ch) 0 final_sequence ∷ map (λ b. b.0) bonds;
      outputs = concat outputs;
      locktime = coop_locktime;
    }
    ok (tx, spent ∷ map (λ b. b.1) bonds)

  -- the loop that signs the bonds' inputs, over the parties left
  unfoldable pub sign_bonds : Chan → List ℕ → Tx → Result Tx
  sign_bonds ch [] tx = ok tx
  sign_bonds ch (i ∷ is) tx = do
    bond ← or_raise (get_elem? ch.bonds i) Error.index_error
    k ← private c ch.keybook (pos i)
    script ← sign_bond_return c tx (1 + i) bond k
    sign_bonds ch is (with_unlock (1 + i) script tx)

  -- `state if state is not None else self.state`
  unfoldable pub state_or : Option State → Chan → State
  state_or none ch = ch.state
  state_or (some s) ch = s

  unfoldable pub cooperative_close : Chan → Option State → Result (Tx × List TxOutput)
  cooperative_close ch state = do
    require_confirmed c ch
    (tx, utxos) ← build_close_tx ch (state_or state ch)
    spent ← or_raise (get_elem? utxos 0) Error.index_error
    sigs ← traverse (sign_all tx spent ch.keybook) (range ch.cfg.n)
    script ← channel_funding_unlock c sigs
    signed ← sign_bonds ch (range ch.cfg.n) (with_unlock 0 script tx)
    _ ← verify_all_inputs c.lib signed utxos
    ok (signed, utxos)

  -- the state that is swapped in is put back whether or not the signing raises
  unfoldable pub superseded_state_tx_for : Chan → ℤ → List ℤ → Result (Tx × List TxOutput)
  superseded_state_tx_for ch version allocation = do
    require_confirmed c ch
    s ← make_state allocation version
    conservation_check s ch.cfg
    sign_state_tx (record ch { state = s }) s

  -- the output of the tower, first among the outputs
  unfoldable pub tower_output : Option PublicKey → ℕ → List TxOutput
  tower_output none fee = []
  tower_output (some pk) fee = if ltb 0 fee then pays fee (p2pkh_script c pk) ∷ [] else []

  -- `bond.value - (tower_fee if tower_pubkey is not None else 0)`
  unfoldable pub remaining : Option PublicKey → ℕ → ℕ → ℕ
  remaining none fee value = value
  remaining (some _) fee value = value - fee

  -- the loop over the honest parties, the last of whom gets what the division leaves; an empty list
  -- of parties would divide by zero
  unfoldable pub honest_payouts : KeyBook c → ℕ → ℕ → List ℕ → Result (List TxOutput)
  honest_payouts book share rem [] = ok []
  honest_payouts book share rem (i ∷ []) =
      if ltb 0 (share + rem) then pay_party book i (share + rem) else ok []
  honest_payouts book share rem (i ∷ j ∷ is) = do
    out ← if ltb 0 share then pay_party book i share else ok []
    rest ← honest_payouts book share rem (j ∷ is)
    ok (out ++ rest)

  unfoldable pub forfeit_bond_tx : Chan → ℤ → Option PublicKey → ℤ → Result (Tx × List TxOutput)
  forfeit_bond_tx ch offender tower_pubkey tower_fee = do
    require_confirmed c ch
    o ← in_range Error.state ch.cfg.n offender
    fee ← at_least Error.state 0 tower_fee
    bond ← or_raise (get_elem? ch.bonds o) Error.index_error
    raise_if (ltb bond.value fee) Error.state
    let honest = all_but o (range ch.cfg.n)
    let left = remaining tower_pubkey fee bond.value
    let m = length honest
    raise_if (m == 0) Error.value_error
    let share = left / m
    outputs ← honest_payouts ch.keybook share (left - share * m) honest
    let tx : Tx = record {
      version = 1;
      inputs = unsigned (funding_txid c ch) (1 + o) final_sequence ∷ [];
      outputs = tower_output tower_pubkey fee ++ outputs;
      locktime = 0;
    }
    keys ← traverse (λ i. private c ch.keybook (pos i)) honest
    script ← sign_bond_forfeit c tx 0 bond keys
    let signed = with_unlock 0 script tx
    _ ← verify_all_inputs c.lib signed (utxo bond ∷ [])
    ok (signed, utxo bond ∷ [])
