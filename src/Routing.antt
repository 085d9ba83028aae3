-- ===== src/Routing.antt =====
-- src/channel/routing.py: paths of hashlocked hops whose return locktimes fall by `delta` a hop.
-- The locktimes, the horizon and the bound of a `Path` are natural numbers, as `build_path` makes
-- them; the differences that the staggering check takes are integers.
pub mod Staggering
use bonded_subsat_channel.Base.{
  ℕ, ◌+◌, ◌-◌, ◌*◌, not, Option, none, some, List, [], ◌∷◌, length, get_elem?, Result, ok, err,
  Error, ◌>>=◌, ◌>>◌, raise_if, or_raise, leb, ltb, ◌==◌, if◌then◌else◌, traverse,
}
use bonded_subsat_channel.Base.Int.{ℤ, pos, at_least, ◌-ℤ◌, ◌==ℤ◌}
use bonded_subsat_channel.Config.{final_sequence}
use bonded_subsat_channel.Accounting.Order.{range}
use bonded_subsat_channel.Chain.{Bytes, Outpoint, Tx, TxInput, TxOutput}
use bonded_subsat_channel.Crypto.{Crypto, sign_input}
use bonded_subsat_channel.Lifecycle.{unsigned}
use bonded_subsat_channel.Base.Bytes.{same_bytes}
use bonded_subsat_channel.Scripts.{hop_script, hop_claim_unlock, hop_return_unlock, p2pkh_script}
use bonded_subsat_channel.Verify.{verify_spend}

pub record Hop (K : Type 0) : Type 0 where
  pub payer_priv : K
  pub payee_priv : K
  pub value : ℤ
  pub image_h160 : Bytes
  pub locktime : ℕ
  pub funding_outpoint : Outpoint

-- the attribute of `Path` is spelled `L0` in the source
pub record HopPath (K : Type 0) : Type 0 where
  pub hops : List (Hop K)
  pub l0 : ℕ
  pub delta : ℕ
  pub image_h160 : Bytes
  pub preimage : Option Bytes

-- the number that 32 bytes of 1 write
abbrev pub ones : ℕ
ones = 0x0101010101010101010101010101010101010101010101010101010101010101

-- `(bytes([j + 1] * 32), 0)`; a byte above 255 raises `ValueError`
unfoldable pub synthetic_outpoint : ℕ → Result Outpoint
synthetic_outpoint j = do raise_if (ltb 255 (j + 1)) Error.value_error; ok ((j + 1) * ones, 0)

module _ (c : Crypto) where
  open c use {PrivateKey, PublicKey, hash160, public_key}

  abbrev AHop : Type 0
  AHop = Hop PrivateKey

  unfoldable pub locking_script : AHop → Result Bytes
  locking_script hop =
      hop_script c hop.image_h160 (public_key hop.payee_priv) (public_key hop.payer_priv)

  unfoldable pub hop_utxo : AHop → Result TxOutput
  hop_utxo hop = do
    script ← locking_script hop
    ok (record { value = hop.value; script_pubkey = script })

  -- the round for hop `j` of the loop in `build_path`
  unfoldable pub build_hop : List PrivateKey → ℤ → ℕ → ℕ → Bytes → List Outpoint → ℕ → Result AHop
  build_hop keys value l0 delta image outpoints j = do
    payer ← or_raise (get_elem? keys j) Error.index_error
    payee ← or_raise (get_elem? keys (j + 1)) Error.index_error
    outpoint ← or_raise (get_elem? outpoints j) Error.index_error
    ok (record {
      payer_priv = payer;
      payee_priv = payee;
      value = value;
      image_h160 = image;
      locktime = l0 - j * delta;
      funding_outpoint = outpoint;
    })

  -- `funding_outpoints`, or the synthetic ones
  unfoldable pub outpoints_or : Option (List Outpoint) → ℕ → Result (List Outpoint)
  outpoints_or none l = traverse synthetic_outpoint (range l)
  outpoints_or (some given) l = ok given

  unfoldable pub build_path :
      List PrivateKey → ℤ → ℤ → ℤ → Bytes → Option (List Outpoint) → Result (HopPath PrivateKey)
  build_path keys value l0 delta preimage funding_outpoints = do
    raise_if (ltb (length keys) 2) Error.routing
    let l = length keys - 1
    horizon ← at_least Error.routing 1 l0
    step ← at_least Error.routing 1 delta
    raise_if (leb horizon (l * step)) Error.routing
    let image = hash160 preimage
    outpoints ← outpoints_or funding_outpoints l
    raise_if (not (length outpoints == l)) Error.routing
    hops ← traverse (build_hop keys value horizon step image outpoints) (range l)
    ok (record {
      hops = hops;
      l0 = horizon;
      delta = step;
      image_h160 = image;
      preimage = some preimage;
    })

  -- `sink_payout_pk if sink_payout_pk is not None else hop.payee_priv.public_key`
  unfoldable pub payout_key : Option PublicKey → AHop → PublicKey
  payout_key none hop = public_key hop.payee_priv
  payout_key (some pk) hop = pk

  unfoldable pub build_claim_tx : AHop → Bytes → Option PublicKey → Result (Tx × TxOutput)
  build_claim_tx hop preimage sink_payout_pk = do
    raise_if (not (same_bytes (hash160 preimage) hop.image_h160)) Error.routing
    let tx_in = unsigned (hop.funding_outpoint.0) (hop.funding_outpoint.1) final_sequence
    let out : TxOutput = record {
      value = hop.value;
      script_pubkey = p2pkh_script c (payout_key sink_payout_pk hop);
    }
    let tx : Tx = record { version = 1; inputs = tx_in ∷ []; outputs = out ∷ []; locktime = 0 }
    code ← locking_script hop
    let sig = sign_input c tx 0 hop.value code hop.payee_priv
    let signed : TxInput = record tx_in { script_sig = hop_claim_unlock c sig preimage }
    utxo ← hop_utxo hop
    ok (record tx { inputs = signed ∷ [] }, utxo)

  unfoldable pub build_return_tx : AHop → Result (Tx × TxOutput)
  build_return_tx hop = do
    let tx_in = unsigned (hop.funding_outpoint.0) (hop.funding_outpoint.1) 0
    let out : TxOutput = record {
      value = hop.value;
      script_pubkey = p2pkh_script c (public_key hop.payer_priv);
    }
    let tx : Tx = record {
      version = 1;
      inputs = tx_in ∷ [];
      outputs = out ∷ [];
      locktime = hop.locktime;
    }
    code ← locking_script hop
    let sig = sign_input c tx 0 hop.value code hop.payer_priv
    let signed : TxInput = record tx_in { script_sig = hop_return_unlock c sig }
    utxo ← hop_utxo hop
    ok (record tx { inputs = signed ∷ [] }, utxo)

  -- the round for a hop of the loop in `settle_secret_revealed`
  unfoldable pub claim_hop : Bytes → AHop → Result Tx
  claim_hop preimage hop = do
    (tx, utxo) ← build_claim_tx hop preimage none
    _ ← verify_spend c.lib tx 0 utxo
    ok tx

  unfoldable pub settle_secret_revealed : HopPath PrivateKey → Result (List Tx)
  settle_secret_revealed path = do
    preimage ← or_raise path.preimage Error.routing
    traverse (claim_hop preimage) path.hops

  -- the round for a hop of the loop in `settle_secret_not_revealed`
  unfoldable pub return_hop : AHop → Result Tx
  return_hop hop = do (tx, utxo) ← build_return_tx hop; _ ← verify_spend c.lib tx 0 utxo; ok tx

  unfoldable pub settle_secret_not_revealed : HopPath PrivateKey → Result (List Tx)
  settle_secret_not_revealed path = traverse return_hop path.hops

  -- the loop of `assert_staggering_invariant`, from hop `j` on

  unfoldable pub check_stagger : ℕ → ℕ → ℕ → ℕ → List AHop → Result (Unit {0})
  check_stagger l0 delta j prev [] = ok tt
  check_stagger l0 delta j prev (hop ∷ hops) = do
    raise_if (not (pos hop.locktime ==ℤ (pos l0 -ℤ pos (j * delta)))) Error.routing
    raise_if (not ((pos prev -ℤ pos hop.locktime) ==ℤ pos delta)) Error.routing
    check_stagger l0 delta (j + 1) hop.locktime hops

  -- `path.hops[-1]`
  unfoldable pub final_hop : List AHop → Result AHop
  final_hop [] = err Error.index_error
  final_hop (hop ∷ []) = ok hop
  final_hop (hop ∷ next ∷ hops) = final_hop (next ∷ hops)

  unfoldable pub assert_staggering_invariant : HopPath PrivateKey → Result (Unit {0})
  assert_staggering_invariant path = do
    check_stagger path.l0 path.delta 0 (path.l0 + path.delta) path.hops
    final ← final_hop path.hops
    raise_if (ltb final.locktime path.delta) Error.routing
