-- ===== src/Wallet/Outputs.antt =====
-- The outputs of a payment of src/channel/wallet/builder.py, and its inputs once they are signed.

use bonded_subsat_channel.Base.{
  ℕ, zero, suc, ◌+◌, ◌≡◌, ◌∙◌, refl, sym, ap, inl, inr, some, ◌>>=◌, List, [], ◌∷◌, map, Result, ok,
  err, arith, traverse, >>=-eq-ok,
}
use bonded_subsat_channel.Base.Int.{ℤ, pos, negsuc, ◌+ℤ◌, ℤ-cases}
use bonded_subsat_channel.Base.Sums.{sum}
use bonded_subsat_channel.Accounting.{int, ensure_whole_satoshi}
use bonded_subsat_channel.Chain.{Bytes, Tx, TxInput, TxOutput, outpoint}
use bonded_subsat_channel.Crypto.{Crypto}
use bonded_subsat_channel.Lifecycle.Closing.{with_unlock, unlock_at}
use bonded_subsat_channel.Lifecycle.Payouts.{Sums, Sums-nil}
use bonded_subsat_channel.Node.Validation.{sum_outputs}
use bonded_subsat_channel.Wallet.{Keyed, unsigned_inputs, sum_values, sign_inputs}

pub ensure_whole-pos : (z : ℤ) {v : ℕ} → ensure_whole_satoshi (int z) ≡ ok v → z ≡ pos v
unfolding ensure_whole_satoshi
ensure_whole-pos (pos n) h = ground arith
ensure_whole-pos (negsuc n) h = cc

abbrev got : Result (List ℕ) → List ℕ
got (err e) = []
got (ok vs) = vs

whole_cons :
    (o : TxOutput) (os : List TxOutput) (v : ℕ) (vs : List ℕ)
    → o.value ≡ pos v
    → sum_values os ≡ pos (sum vs)
    → Sums os (sum vs)
    → (sum_values (o ∷ os) ≡ pos (v + sum vs)) × Sums (o ∷ os) (v + sum vs)
unfolding sum_values ◌+ℤ◌ sum_outputs
whole_cons o os v vs value values sums =
    (rw (value, values) (ground arith), λ t. rw value (sums (t + v) ∙ ap some (omega arith)))

-- Outputs of whole satoshis, and their sum.
pub outputs_whole :
    (outputs : List TxOutput) {outs : List ℕ}
    → traverse (λ (o : TxOutput). ensure_whole_satoshi (int o.value)) outputs ≡ ok outs
    → (sum_values outputs ≡ pos (sum outs)) × Sums outputs (sum outs)
unfolding traverse sum_values ◌+ℤ◌
outputs_whole [] h = rw (sym (ap got h)) (refl, Sums-nil)
outputs_whole (o ∷ os) h =
    let (v, ev, more) =
      >>=-eq-ok (ensure_whole_satoshi (int o.value))
        (λ v.
          traverse (λ (o : TxOutput). ensure_whole_satoshi (int o.value)) os >>= λ vs. ok (v ∷ vs))
        h in
    let (vs, evs, last) =
      >>=-eq-ok (traverse (λ (o : TxOutput). ensure_whole_satoshi (int o.value)) os)
        (λ vs. ok (v ∷ vs)) more in
    let (values, sums) = outputs_whole os evs in
    rw (sym (ap got last)) (whole_cons o os v vs (ensure_whole-pos o.value ev) values sums)

-- Outputs of whole satoshis, by both ways to add them up.
sum_values-sum_outputs :
    (outs : List TxOutput) (t : ℕ) {u : ℕ}
    → sum_outputs t outs ≡ some u
    → (m : ℕ) × (u ≡ t + m) × (sum_values outs ≡ pos m)
unfolding sum_outputs sum_values ◌+ℤ◌
sum_values-sum_outputs [] t e = (0, ground arith, refl)
sum_values-sum_outputs (o ∷ os) t {u} e = elim (ℤ-cases o.value) [
  | inl (n, is) ↦
      let (m, adds, values) = sum_values-sum_outputs os (t + n) {u = u} (ground (arith, is, e)) in
      (n + m, omega (arith, adds), rw (is, values) (ground arith))
  | inr (n, is) ↦ absurd (ground (arith, is, e))
]

pub sum_values-Sums : (outs : List TxOutput) (n : ℕ) → Sums outs n → sum_values outs ≡ pos n
sum_values-Sums outs n sums =
    let (m, adds, values) = sum_values-sum_outputs outs 0 (sums 0) in
    values ∙ ap pos (omega (arith, adds))

module _ (c : Crypto) (tx_size : Tx → ℕ) where
  open c use {PrivateKey, PublicKey}

  unlock_at-outpoints :
      (i : ℕ) (script : Bytes) (ts : List TxInput)
      → map outpoint (unlock_at c i script ts) ≡ map outpoint ts
  unfolding unlock_at
  unlock_at-outpoints i script [] = refl
  unlock_at-outpoints zero script (t ∷ ts) = refl
  unlock_at-outpoints (suc i) script (t ∷ ts) =
      ap (◌∷◌ (outpoint t)) (unlock_at-outpoints i script ts)

  pub sign_inputs-outputs :
      (i : ℕ) (funders : List (Keyed c tx_size)) (tx : Tx)
      → (sign_inputs c tx_size i funders tx).outputs ≡ tx.outputs
  unfolding sign_inputs with_unlock
  sign_inputs-outputs i [] tx = refl
  sign_inputs-outputs i ((u, priv) ∷ rest) tx = sign_inputs-outputs (i + 1) rest _

  pub sign_inputs-outpoints :
      (i : ℕ) (funders : List (Keyed c tx_size)) (tx : Tx)
      → map outpoint (sign_inputs c tx_size i funders tx).inputs ≡ map outpoint tx.inputs
  unfolding sign_inputs with_unlock
  sign_inputs-outpoints i [] tx = refl
  sign_inputs-outpoints i ((u, priv) ∷ rest) tx =
      sign_inputs-outpoints (i + 1) rest _ ∙ unlock_at-outpoints i _ tx.inputs

  pub unsigned-outpoints :
      (funders : List (Keyed c tx_size))
      → map outpoint (unsigned_inputs c tx_size funders) ≡ map (λ f. (f.0.txid, f.0.vout)) funders
  unsigned-outpoints [] = refl
  unsigned-outpoints (f ∷ fs) = ap (◌∷◌ (f.0.txid, f.0.vout)) (unsigned-outpoints fs)
