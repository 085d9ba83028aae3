-- ===== src/Lifecycle/Payouts.antt =====
-- The payouts of the transactions in src/channel/lifecycle.py, and what they sum to.
use bonded_subsat_channel.Base.{
  ℕ, ◌+◌, ◌≤◌, ◌<◌, ◌≡◌, refl, ap, ◌∙◌, inl, inr, some, List, [], ◌∷◌, ◌++◌, length, get_elem?-lt,
  arith, ok, ltb, Bool-cases,
}
use bonded_subsat_channel.Base.Int.{ℤ-cases}
use bonded_subsat_channel.Base.Sums.{sum}
use bonded_subsat_channel.Accounting.{ensure_whole_satoshi}
use bonded_subsat_channel.Chain.{Bytes, TxOutput}
use bonded_subsat_channel.Crypto.{Crypto}
use bonded_subsat_channel.Keys.{KeyBook, private, public}
use bonded_subsat_channel.Lifecycle.{pays}
use bonded_subsat_channel.Lifecycle.Closing.{pay_party, state_payouts, or_placeholder}
use bonded_subsat_channel.Node.Validation.{sum_outputs}
use bonded_subsat_channel.Scripts.{p2pkh_script}

-- The outputs are whole satoshis that sum to the number.
abbrev pub Sums : List TxOutput → ℕ → Type 0
Sums outs n = (t : ℕ) → sum_outputs t outs ≡ some (t + n)

pub Sums-nil : Sums [] 0
unfolding sum_outputs
Sums-nil t = ap some (omega arith)

pub Sums-pays : (v : ℕ) (script : Bytes) → Sums (pays v script ∷ []) v
unfolding sum_outputs
Sums-pays v script t = refl

pub sum_outputs-append :
    (t : ℕ) (xs ys : List TxOutput) {u : ℕ}
    → sum_outputs t xs ≡ some u
    → sum_outputs t (xs ++ ys) ≡ sum_outputs u ys
unfolding sum_outputs
sum_outputs-append t [] ys h = ground (arith, h)
sum_outputs-append t (x ∷ xs) ys {u} h = elim (ℤ-cases x.value) [
  | inl (n, e) ↦ ground (arith, h, e, sum_outputs-append (t + n) xs ys {u = u})
  | inr (n, e) ↦ ground (arith, h, e)
]

pub Sums-append :
    (xs ys : List TxOutput) (m n : ℕ) → Sums xs m → Sums ys n → Sums (xs ++ ys) (m + n)
Sums-append xs ys m n h k t = sum_outputs-append t xs ys (h t) ∙ k (t + m) ∙ ap some (omega arith)

module _ (c : Crypto) where
  open c use {PrivateKey}

  -- A party of the key book can be paid.
  pub pay_party-Sums :
      (book : KeyBook c) (i v : ℕ)
      → i < length book
      → (outs : List TxOutput) × (pay_party c book i v ≡ ok outs) × Sums outs v
  unfolding pay_party public private ensure_whole_satoshi
  pay_party-Sums book i v lt =
      let (k, e) = get_elem?-lt book i lt in
      elim (Bool-cases (ltb 0 v)) [
        | inl some_due ↦ (
          pays v (p2pkh_script c (c.public_key k)) ∷ [],
          ground (arith, e, some_due, lt),
          Sums-pays v (p2pkh_script c (c.public_key k)),
        )
        | inr none_due ↦ (
          [],
          ground (arith, e, none_due, lt),
          λ t. Sums-nil t ∙ ap some (ground (arith, none_due)),
        )
      ]

  -- The payouts of a state transaction.
  pub state_payouts-Sums :
      (book : KeyBook c) (i : ℕ) (qs : List ℕ)
      → i + length qs ≤ length book
      → (outs : List TxOutput) × (state_payouts c book i qs ≡ ok outs) × Sums outs (sum qs)
  unfolding state_payouts
  state_payouts-Sums book i [] h = ([], refl, Sums-nil)
  state_payouts-Sums book i (q ∷ qs) h =
      let (rest, er, sr) = state_payouts-Sums book (i + 1) qs (omega arith) in
      let (out, eo, so) = pay_party-Sums book i q (omega arith) in
      elim (Bool-cases (ltb 0 q)) [
        | inl due ↦
            (out ++ rest, ground (arith, due, eo, er), Sums-append out rest q (sum qs) so sr)
        | inr none_due ↦
            (rest, ground (arith, none_due, er), λ t. sr t ∙ ap some (ground (arith, none_due)))
      ]

  pub or_placeholder-Sums :
      (outs : List TxOutput) (n : ℕ) → Sums outs n → Sums (or_placeholder c outs) n
  unfolding or_placeholder sum_outputs
  or_placeholder-Sums [] n h t = ap some (omega arith) ∙ h t
  or_placeholder-Sums (o ∷ os) n h t = h t
