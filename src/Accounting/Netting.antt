-- ===== src/Accounting/Netting.antt =====
-- The sums of floors, winners and payouts in `quantise` of src/channel/accounting.py.
use bonded_subsat_channel.Base.{
  ℕ, zero, suc, ◌+◌, ◌-◌, ◌*◌, ◌/◌, ◌%◌, ◌≤◌, ◌<◌, ◌≡◌, refl, ap, sym, ◌∙◌, List, [], ◌∷◌, map,
  length, length-take, length-map, arith, ok, Bool, dec_lt,
}
use bonded_subsat_channel.Base.Sums.{sum}
use bonded_subsat_channel.Config
use bonded_subsat_channel.Config.{ChannelConfig}
use bonded_subsat_channel.Accounting.{
  State, at, order, winners, payout, ensure_all, quantise, key_le,
}
use bonded_subsat_channel.Accounting.Order.{range, range_from}
use bonded_subsat_channel.Accounting.Order.Counts.{
  sum_over, hit, hits_take, sort_by-IsDistinct, range-IsDistinct, length-sort_by, length-range,
  sum_over-sort_by,
}
use bonded_subsat_channel.Accounting.Conserved.{IsConserved, conservation_check-ok}

abbrev pub floors : ℕ → List ℕ → List ℕ
floors k = map (λ a. a / k)

abbrev pub remainders : ℕ → List ℕ → List ℕ
remainders k = map (λ a. a % k)

-- The floors and the remainders make up the balances.
pub sum-floors : (k : ℕ) (bs : List ℕ) → sum bs ≡ sum (floors k bs) * k + sum (remainders k bs)
sum-floors k [] = omega arith
sum-floors k (b ∷ bs) = grind (arith, sum-floors k bs)

sum-remainders : (k : ℕ) (bs : List ℕ) → 1 ≤ k → sum (remainders k bs) + length bs ≤ length bs * k
sum-remainders k [] h = omega arith
sum-remainders k (b ∷ bs) h = grind (arith, sum-remainders k bs h)

mul_mono : (a b k : ℕ) → a ≤ b → a * k ≤ b * k
mul_mono a b k h = grind arith

-- `0 <= R < n`, so that the branch on a violated invariant is never taken.
left_over :
    (f r k s n : ℕ) → 1 ≤ k → 1 ≤ n → f * k + r ≡ k * s → r + n ≤ n * k → (f ≤ s) × (s - f < n)
left_over f r k s n hk hn e h =
    let low : f ≤ s = elim (dec_lt s f) [
      | yes over ↦ absurd (omega (arith, mul_mono (s + 1) f k (omega arith)))
      | no fits ↦ omega arith
    ] in
    (
      low,
      elim (dec_lt (s - f) n) [
        | yes under ↦ under
        | no over ↦ absurd (
            omega (
              arith,
              mul_mono n (s - f) k (omega arith),
              mul_mono f s k low,
              ap (λ (t : ℕ). t * k) (let q : f + (s - f) ≡ s = omega arith in q),
            ))
      ],
    )

pub left_over_bounds :
    (st : State) (cfg : ChannelConfig)
    → Config.IsValid cfg
    → IsConserved st cfg
    → (sum (floors cfg.k st.balances) ≤ cfg.s) × (cfg.s - sum (floors cfg.k st.balances) < cfg.n)
left_over_bounds st cfg v c =
    left_over (sum (floors cfg.k st.balances)) (sum (remainders cfg.k st.balances)) cfg.k cfg.s
      cfg.n v.subdivided (omega (arith, v.parties))
      (omega (arith, sum-floors cfg.k st.balances, c.total))
      (rw c.parties at (sum-remainders cfg.k st.balances v.subdivided))

-- A sum over the indices of a list is the sum of the list.
sum_over-shift :
    (f : ℕ → ℕ) (a n : ℕ)
    → sum_over f (range_from (a + 1) n) ≡ sum_over (λ i. f (suc i)) (range_from a n)
unfolding range_from
sum_over-shift f a zero = refl
sum_over-shift f a (suc n) =
    omega (arith, sum_over-shift f (a + 1) n, ap f (let q : a + 1 ≡ suc a = omega arith in q))

pub sum_over-at : (xs : List ℕ) → sum_over (at xs) (range_from 0 (length xs)) ≡ sum xs
unfolding at range_from
sum_over-at [] = refl
sum_over-at (x ∷ xs) = omega (arith, sum_over-shift (at (x ∷ xs)) 0 (length xs), sum_over-at xs)

pub sum-map : (f : ℕ → ℕ) (xs : List ℕ) → sum (map f xs) ≡ sum_over f xs
sum-map f [] = refl
sum-map f (x ∷ xs) = omega (arith, sum-map f xs)

pub sum_over-+ :
    (f g : ℕ → ℕ) (xs : List ℕ) → sum_over (λ i. f i + g i) xs ≡ sum_over f xs + sum_over g xs
sum_over-+ f g [] = omega arith
sum_over-+ f g (x ∷ xs) = omega (arith, sum_over-+ f g xs)

pub length-winners :
    (cfg : ChannelConfig) (bs : List ℕ)
    → cfg.s - sum (floors cfg.k bs) < cfg.n
    → length (winners cfg bs) ≡ cfg.s - sum (floors cfg.k bs)
unfolding winners
length-winners cfg bs h =
    let le : ℕ → ℕ → Bool = key_le (at (remainders cfg.k bs)) in
    omega (
      arith,
      length-take (cfg.s - sum (floors cfg.k bs)) (order cfg bs),
      length-sort_by le (range cfg.n),
      length-range cfg.n,
    )

-- The winners are as many among the parties as there are satoshis left.
pub sum_over-winners :
    (cfg : ChannelConfig) (bs : List ℕ)
    → sum_over (hit (winners cfg bs)) (range cfg.n) ≡ length (winners cfg bs)
unfolding winners
sum_over-winners cfg bs =
    let le : ℕ → ℕ → Bool = key_le (at (remainders cfg.k bs)) in
    sym (sum_over-sort_by (hit (winners cfg bs)) le (range cfg.n))
    ∙ hits_take (cfg.s - sum (floors cfg.k bs)) (order cfg bs)
        (sort_by-IsDistinct le (range cfg.n) (range-IsDistinct cfg.n))

pub sum-payouts :
    (st : State) (cfg : ChannelConfig)
    → Config.IsValid cfg
    → IsConserved st cfg
    → sum (map (payout cfg st.balances) (range cfg.n)) ≡ cfg.s
unfolding payout range
sum-payouts st cfg v c =
    let fl : List ℕ = floors cfg.k st.balances in
    let (fits, few) = left_over_bounds st cfg v c in
    let width : length fl ≡ cfg.n = length-map st.balances (λ a. a / cfg.k) ∙ c.parties in
    omega (
      arith,
      fits,
      few,
      sum-map (payout cfg st.balances) (range cfg.n),
      sum_over-+ (at fl) (hit (winners cfg st.balances)) (range cfg.n),
      rw width at (sum_over-at fl),
      sum_over-winners cfg st.balances,
      length-winners cfg st.balances few,
    )

pub ensure_all-ok : (qs : List ℕ) → ensure_all qs ≡ ok tt
unfolding ensure_all
ensure_all-ok [] = refl
ensure_all-ok (q ∷ qs) = ground (arith, ensure_all-ok qs)

-- On a conserved state of a valid configuration `quantise` never raises: it returns the payouts,
-- one for each party, and they sum to the funded satoshis.
pub quantise-ok :
    (st : State) (cfg : ChannelConfig)
    → Config.IsValid cfg
    → IsConserved st cfg
    → (q : List ℕ) × (quantise st cfg ≡ ok q)
      × (q ≡ map (payout cfg st.balances) (range cfg.n))
      × (sum q ≡ cfg.s)
      × (length q ≡ cfg.n)
unfolding quantise
quantise-ok st cfg v c =
    let q : List ℕ = map (payout cfg st.balances) (range cfg.n) in
    (
      q,
      ground (
        arith,
        conservation_check-ok st cfg c,
        left_over_bounds st cfg v c,
        sum-payouts st cfg v c,
        ensure_all-ok q,
      ),
      refl,
      sum-payouts st cfg v c,
      length-map (range cfg.n) (payout cfg st.balances) ∙ length-range cfg.n,
    )
