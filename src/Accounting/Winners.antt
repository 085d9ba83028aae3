-- ===== src/Accounting/Winners.antt =====
-- The parties that `quantise` of src/channel/accounting.py pays a satoshi more than their floor.
use bonded_subsat_channel.Base.{
  mem, ℕ, zero, suc, ◌+◌, ◌-◌, ◌*◌, ◌/◌, ◌%◌, ◌≤◌, ◌<◌, ◌≡◌, refl, ap, ◌∙◌, ◌⊎◌, inl, inr, List, [],
  ◌∷◌, map, length, get_elem?, length-map, some, arith, ok, true, false, if◌then◌else◌, dec_lt,
  Bool-cases, Result-cases,
}
use bonded_subsat_channel.Base.Sums.{sum}
use bonded_subsat_channel.Config.{ChannelConfig}
use bonded_subsat_channel.Accounting.{
  State, at, order, winners, payout, quantise, key_le, conservation_check,
}
use bonded_subsat_channel.Accounting.Order.{range, range_from}
use bonded_subsat_channel.Accounting.Order.Counts.{sum_over, hit, mem-range, mem-sort_by}
use bonded_subsat_channel.Accounting.Order.Sorted.{sort_by-IsSorted, take-first}
use bonded_subsat_channel.Accounting.Netting.{
  floors, remainders, ensure_all-ok, sum-floors, sum_over-at, sum_over-winners, length-winners,
}
use bonded_subsat_channel.Accounting.Conserved.{IsConserved, conservation_check-IsConserved}

-- The keys order the parties totally.
key_le_total : (f : ℕ → ℕ) (i j : ℕ) → key_le f i j ≡ false → key_le f j i ≡ true
unfolding key_le
key_le_total f i j h = ground arith

key_le_trans :
    (f : ℕ → ℕ) (a b c : ℕ) → key_le f a b ≡ true → key_le f b c ≡ true → key_le f a c ≡ true
unfolding key_le
key_le_trans f a b c h k = ground arith

pub key_le-cases :
    (f : ℕ → ℕ) (i j : ℕ) → key_le f i j ≡ true → (f j < f i) ⊎ ((f i ≡ f j) × (i ≤ j))
unfolding key_le
key_le-cases f i j h = ground arith

pub get_elem?-at : (xs : List ℕ) (i : ℕ) {v : ℕ} → get_elem? xs i ≡ some v → at xs i ≡ v
unfolding at
get_elem?-at [] i h = cc
get_elem?-at (x ∷ xs) zero h = ground arith
get_elem?-at (x ∷ xs) (suc i) h = get_elem?-at xs i h

pub get_elem?-map {ℓ} :
    {A : Type ℓ} (f : A → ℕ) (xs : List A) (i : ℕ) {v : A}
    → get_elem? xs i ≡ some v
    → get_elem? (map f xs) i ≡ some (f v)
get_elem?-map f [] i h = cc
get_elem?-map f (x ∷ xs) zero h = ground arith
get_elem?-map f (x ∷ xs) (suc i) h = get_elem?-map f xs i h

get_elem?-range_from : (a n i : ℕ) → i < n → get_elem? (range_from a n) i ≡ some (a + i)
unfolding range_from
get_elem?-range_from a zero i h = absurd (omega arith)
get_elem?-range_from a (suc n) zero h = ap some (omega arith)
get_elem?-range_from a (suc n) (suc i) h =
    get_elem?-range_from (a + 1) n i (omega arith) ∙ ap some (omega arith)

pub get_elem?-range : (n i : ℕ) → i < n → get_elem? (range n) i ≡ some i
unfolding range
get_elem?-range n i h = get_elem?-range_from 0 n i h ∙ ap some (omega arith)

pub get_elem?-lt_length : (xs : List ℕ) (i : ℕ) {v : ℕ} → get_elem? xs i ≡ some v → i < length xs
get_elem?-lt_length [] i h = cc
get_elem?-lt_length (x ∷ xs) zero h = omega arith
get_elem?-lt_length (x ∷ xs) (suc i) h = omega (arith, get_elem?-lt_length xs i h)

-- What `quantise` returns, on any input that it accepts.
pub quantise-eq-map :
    (st : State) (cfg : ChannelConfig) {q : List ℕ}
    → quantise st cfg ≡ ok q
    → (q ≡ map (payout cfg st.balances) (range cfg.n)) × IsConserved st cfg × (sum q ≡ cfg.s)
unfolding quantise
quantise-eq-map st cfg {q} h = elim (Result-cases (conservation_check st cfg)) [
  | inl (u, e) ↦
      let c : IsConserved st cfg = conservation_check-IsConserved st cfg e in
      let r : List ℕ = map (payout cfg st.balances) (range cfg.n) in
      (ground (arith, e, ensure_all-ok r), c, ground (arith, e, ensure_all-ok r))
  | inr (x, e) ↦ ground (arith, e)
]

pub quantise-few :
    (st : State) (cfg : ChannelConfig) {q : List ℕ}
    → quantise st cfg ≡ ok q
    → cfg.s - sum (floors cfg.k st.balances) < cfg.n
unfolding quantise
quantise-few st cfg {q} h = elim (Result-cases (conservation_check st cfg)) [
  | inl (u, e) ↦ ground (arith, e)
  | inr (x, e) ↦ ground (arith, e)
]

-- The payout of a party with balance `a`: its floor, and one more for a winner.
pub payout-eq :
    (cfg : ChannelConfig) (bs : List ℕ) (i : ℕ) {a : ℕ}
    → get_elem? bs i ≡ some a
    → payout cfg bs i ≡ a / cfg.k + (if mem i (winners cfg bs) then 1 else 0)
unfolding payout
payout-eq cfg bs i e = rw (get_elem?-at (floors cfg.k bs) i (get_elem?-map (λ a. a / cfg.k) bs i e))

at-remainders-lt : (k : ℕ) (bs : List ℕ) (j : ℕ) → 1 ≤ k → at (remainders k bs) j < k
unfolding at
at-remainders-lt k [] j h = h
at-remainders-lt k (b ∷ bs) zero h = omega arith
at-remainders-lt k (b ∷ bs) (suc j) h = at-remainders-lt k bs j h

at_beyond : (xs : List ℕ) (j : ℕ) → length xs ≤ j → at xs j ≡ 0
unfolding at
at_beyond [] j h = refl
at_beyond (x ∷ xs) zero h = absurd (omega arith)
at_beyond (x ∷ xs) (suc j) h = at_beyond xs j (omega arith)

-- A winner's key comes before that of any other party.
pub winner_first :
    (cfg : ChannelConfig) (bs : List ℕ) (i j : ℕ)
    → mem i (winners cfg bs) ≡ true
    → j < cfg.n
    → mem j (winners cfg bs) ≡ false
    → key_le (at (remainders cfg.k bs)) i j ≡ true
unfolding winners
winner_first cfg bs i j won lt lost =
    let f : ℕ → ℕ = at (remainders cfg.k bs) in
    take-first (key_le f) (cfg.s - sum (floors cfg.k bs)) (order cfg bs) i j
      (sort_by-IsSorted (key_le f) (key_le_total f) (key_le_trans f) (range cfg.n)) won
      (mem-sort_by (key_le f) j (range cfg.n) (mem-range j cfg.n lt)) lost

sum_over_mono : (f g : ℕ → ℕ) (xs : List ℕ) → ((j : ℕ) → f j ≤ g j) → sum_over f xs ≤ sum_over g xs
sum_over_mono f g [] h = omega arith
sum_over_mono f g (x ∷ xs) h = omega (arith, h x, sum_over_mono f g xs h)

sum_over_scale : (c : ℕ) (f : ℕ → ℕ) (xs : List ℕ) → sum_over (λ j. f j * c) xs ≡ sum_over f xs * c
sum_over_scale c f [] = omega arith
sum_over_scale c f (x ∷ xs) = grind (arith, sum_over_scale c f xs)

mem-length : (i : ℕ) (xs : List ℕ) → mem i xs ≡ true → 1 ≤ length xs
unfolding mem
mem-length i [] h = cc
mem-length i (x ∷ xs) h = omega arith

too_little : (f r k s n : ℕ) → 1 ≤ k → 1 ≤ n → n ≡ s - f → f * k + r ≡ k * s → r ≤ n * (k - 1) → ⊥
too_little f r k s n hk hn e sums h =
    let whole : s ≡ f + n = omega arith in
    let less : n * (k - 1) + n ≡ n * k = grind arith in
    omega (arith, less, ap (λ (t : ℕ). k * t) whole)

module _ (st : State) (cfg : ChannelConfig) (pos_k : 1 ≤ cfg.k) (c : IsConserved st cfg)
    (few : cfg.s - sum (floors cfg.k st.balances) < cfg.n) where
  -- If a winner had no remainder, only winners would have one, and theirs would not make up the
  -- satoshis left over.
  remainder_of_winners :
      (i : ℕ)
      → mem i (winners cfg st.balances) ≡ true
      → at (remainders cfg.k st.balances) i ≡ 0
      → sum (remainders cfg.k st.balances) ≤ length (winners cfg st.balances) * (cfg.k - 1)
  unfolding range
  remainder_of_winners i won none_left =
      let rem : List ℕ = remainders cfg.k st.balances in
      let w : List ℕ = winners cfg st.balances in
      let width : length rem ≡ cfg.n = length-map st.balances (λ a. a % cfg.k) ∙ c.parties in
      let bound : (j : ℕ) → at rem j ≤ hit w j * (cfg.k - 1) = λ j. elim (dec_lt j cfg.n) [
        | no beyond ↦ omega (arith, at_beyond rem j (omega arith))
        | yes lt ↦ elim (Bool-cases (mem j w)) [
          | inl yes_won ↦ rw yes_won (omega (arith, at-remainders-lt cfg.k st.balances j pos_k))
          | inr lost ↦ omega (
            arith,
            none_left,
            key_le-cases (at rem) i j (winner_first cfg st.balances i j won lt lost),
          )
        ]
      ] in
      omega (
        arith,
        rw width at (sum_over-at rem),
        sum_over_mono (at rem) (λ j. hit w j * (cfg.k - 1)) (range cfg.n) bound,
        sum_over_scale (cfg.k - 1) (hit w) (range cfg.n),
        ap (λ (t : ℕ). t * (cfg.k - 1)) (sum_over-winners cfg st.balances),
      )

  -- Every winner has a remainder.
  pub winner_remainder :
      (i : ℕ) → mem i (winners cfg st.balances) ≡ true → 1 ≤ at (remainders cfg.k st.balances) i
  winner_remainder i won =
      let n : ℕ = length (winners cfg st.balances) in
      elim (dec_lt 0 (at (remainders cfg.k st.balances) i)) [
        | yes some_left ↦ some_left
        | no none_left ↦ absurd (
            too_little (sum (floors cfg.k st.balances)) (sum (remainders cfg.k st.balances)) cfg.k
              cfg.s n pos_k (mem-length i (winners cfg st.balances) won)
              (length-winners cfg st.balances few)
              (omega (arith, sum-floors cfg.k st.balances, c.total))
              (remainder_of_winners i won (omega arith)))
      ]
