-- ===== src/Lifecycle/Signatures.antt =====
-- Who signs the inputs of the cooperative close of src/channel/lifecycle.py, and over what.
use bonded_subsat_channel.Base.{
  ℕ, zero, suc, ◌+◌, ◌≤◌, ◌<◌, ◌≡◌, ◌∙◌, refl, sym, ap, Option, none, some, List, [], ◌∷◌, map,
  length, get_elem?, or_raise, arith, ok, Error, traverse, >>=-eq-ok,
}
use bonded_subsat_channel.Base.Int.{pos}
use bonded_subsat_channel.Accounting.{State, ensure_whole_satoshi}
use bonded_subsat_channel.Accounting.Order.{range, range_from}
use bonded_subsat_channel.Bond.{BondOutput, sign_bond_return}
use bonded_subsat_channel.Chain.{Bytes, Tx, TxInput, TxOutput}
use bonded_subsat_channel.Crypto.{Crypto, sign_input}
use bonded_subsat_channel.Keys.{private}
use bonded_subsat_channel.Lifecycle.{Channel}
use bonded_subsat_channel.Lifecycle.Closing.{
  sign_all, unlock_at, with_unlock, sign_bonds, build_close_tx,
}
use bonded_subsat_channel.Scripts.{bond_return_unlock, channel_funding_unlock}

-- an input before it is signed
abbrev pub stripped : TxInput → TxInput
stripped t = record t { script_sig = [] }

abbrev pub unlocks : Tx → List Bytes
unlocks tx = map (λ t. t.script_sig) tx.inputs

module _ (c : Crypto) where
  open c use {PrivateKey}

  pub stripped-unlock_at :
      (i : ℕ) (script : Bytes) (ts : List TxInput)
      → map stripped (unlock_at c i script ts) ≡ map stripped ts
  unfolding unlock_at
  stripped-unlock_at i script [] = refl
  stripped-unlock_at zero script (t ∷ ts) = refl
  stripped-unlock_at (suc i) script (t ∷ ts) =
      ap (◌∷◌ (stripped t)) (stripped-unlock_at i script ts)

  pub length-unlock_at :
      (i : ℕ) (script : Bytes) (ts : List TxInput) → length (unlock_at c i script ts) ≡ length ts
  unfolding unlock_at
  length-unlock_at i script [] = refl
  length-unlock_at zero script (t ∷ ts) = refl
  length-unlock_at (suc i) script (t ∷ ts) = ap suc (length-unlock_at i script ts)

  pub unlock_at_self :
      (i : ℕ) (script : Bytes) (ts : List TxInput)
      → i < length ts
      → get_elem? (map (λ t. t.script_sig) (unlock_at c i script ts)) i ≡ some script
  unfolding unlock_at
  unlock_at_self i script [] h = absurd (omega arith)
  unlock_at_self zero script (t ∷ ts) h = refl
  unlock_at_self (suc i) script (t ∷ ts) h = unlock_at_self i script ts (omega arith)

  unlock_at-lt :
      (i j : ℕ) (script : Bytes) (ts : List TxInput)
      → j < i
      → get_elem? (map (λ t. t.script_sig) (unlock_at c i script ts)) j
        ≡ get_elem? (map (λ t. t.script_sig) ts) j
  unfolding unlock_at
  unlock_at-lt i j script [] h = refl
  unlock_at-lt zero j script (t ∷ ts) h = absurd (omega arith)
  unlock_at-lt (suc i) zero script (t ∷ ts) h = refl
  unlock_at-lt (suc i) (suc j) script (t ∷ ts) h = unlock_at-lt i j script ts (omega arith)

  module _ (ch : Channel PrivateKey) (base : Tx) where
    -- The bond of the party is unlocked by its signature, over a transaction that is the base but for
    -- unlocking scripts.
    pub record SignedBond (signed : Tx) (i : ℕ) : Type 0 where
      pub key : PrivateKey
      pub bond : BondOutput
      pub over : Tx
      pub key_of : private c ch.keybook (pos i) ≡ ok key
      pub bond_of : get_elem? ch.bonds i ≡ some bond
      pub same_outputs : over.outputs ≡ base.outputs
      pub same_inputs : map stripped over.inputs ≡ map stripped base.inputs
      pub unlocked :
          get_elem? (unlocks signed) (1 + i)
          ≡ some (
              bond_return_unlock c
                (sign_input c over (1 + i) (pos bond.value) bond.locking_script key))

    abbrev pub AllSigned : Tx → List ℕ → Type 0
    AllSigned signed [] = Unit {0}
    AllSigned signed (i ∷ is) = SignedBond signed i × AllSigned signed is

    or_raise-some :
        {A : Type 0} (o : Option A) (raised : Error) {x : A} → or_raise o raised ≡ ok x → o ≡ some x
    or_raise-some none raised e = absurd (cc e)
    or_raise-some (some x) raised e = ap some (cc e)

    sign_bond_return-is :
        (tx : Tx) (i : ℕ) (bond : BondOutput) (k : PrivateKey)
        → sign_bond_return c tx i bond k
          ≡ ok (bond_return_unlock c (sign_input c tx i (pos bond.value) bond.locking_script k))
    unfolding sign_bond_return ensure_whole_satoshi
    sign_bond_return-is tx i bond k = ground arith

    pub sign_bonds-AllSigned :
        (a k : ℕ) (tx : Tx) {signed : Tx}
        → sign_bonds c ch (range_from a k) tx ≡ ok signed
        → tx.outputs ≡ base.outputs
        → map stripped tx.inputs ≡ map stripped base.inputs
        → a + k < length tx.inputs
        → ((j : ℕ) → j ≤ a → get_elem? (unlocks signed) j ≡ get_elem? (unlocks tx) j)
          × AllSigned signed (range_from a k)
    unfolding sign_bonds range_from with_unlock
    sign_bonds-AllSigned a zero tx {signed} e outs ins wide =
        let same : tx ≡ signed = cc e in (λ j h. ap (λ t. get_elem? (unlocks t) j) (sym same), tt)
    sign_bonds-AllSigned a (suc k) tx {signed} e outs ins wide =
        let (bond, e0, e1) = >>=-eq-ok (or_raise (get_elem? ch.bonds a) Error.index_error) _ e in
        let (key, e2, e3) = >>=-eq-ok (private c ch.keybook (pos a)) _ e1 in
        let (script, e4, e5) = >>=-eq-ok (sign_bond_return c tx (1 + a) bond key) _ e3 in
        let next : Tx = with_unlock c (1 + a) script tx in
        let (earlier, rest) =
          sign_bonds-AllSigned (a + 1) k next e5 outs
            (stripped-unlock_at (1 + a) script tx.inputs ∙ ins)
            (omega (arith, wide, length-unlock_at (1 + a) script tx.inputs)) in
        let made : script
            ≡ bond_return_unlock c
                (sign_input c tx (1 + a) (pos bond.value) bond.locking_script key) =
          cc (e4, sign_bond_return-is tx (1 + a) bond key) in
        (
          λ j h. earlier j (omega arith) ∙ unlock_at-lt (1 + a) j script tx.inputs (omega arith),
          (
            record {
              key = key;
              bond = bond;
              over = tx;
              key_of = e2;
              bond_of = or_raise-some (get_elem? ch.bonds a) Error.index_error e0;
              same_outputs = outs;
              same_inputs = ins;
              unlocked =
                  earlier (1 + a) (omega arith)
                  ∙ unlock_at_self (1 + a) script tx.inputs (omega arith)
                  ∙ ap some made;
            },
            rest,
          ),
        )

  -- How the close of a state is signed: the channel output by every party, over the transaction that
  -- `build_close_tx` builds, and each bond by its party.
  pub record SignedClose (ch : Channel PrivateKey) (state : State) (signed : Tx)
      (spent : List TxOutput) : Type 0 where
    pub base : Tx
    pub first : TxOutput
    pub others : List TxOutput
    pub sigs : List Bytes
    pub script : Bytes
    pub built : build_close_tx c ch state ≡ ok (base, spent)
    pub first_is : spent ≡ first ∷ others
    pub all_sign : traverse (sign_all c base first ch.keybook) (range ch.cfg.n) ≡ ok sigs
    pub joins : channel_funding_unlock c sigs ≡ ok script
    pub unlocked : get_elem? (unlocks signed) 0 ≡ some script
    pub bonds_signed : AllSigned ch base signed (range ch.cfg.n)
