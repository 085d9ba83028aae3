-- ===== src/Accounting/Fairness.antt =====
-- How `quantise` of src/channel/accounting.py treats each party.
use bonded_subsat_channel.Base.{
  mem, ℕ, ◌+◌, ◌*◌, ◌/◌, ◌%◌, ◌≤◌, ◌<◌, ◌≡◌, ◌≢◌, ap, ◌⊎◌, inl, inr, List, get_elem?, some, arith,
  ok, true, false, if◌then◌else◌, Bool-cases,
}
use bonded_subsat_channel.Config.{ChannelConfig}
use bonded_subsat_channel.Accounting.{State, at, winners, payout, quantise}
use bonded_subsat_channel.Accounting.Order.{range}
use bonded_subsat_channel.Accounting.Netting.{remainders}
use bonded_subsat_channel.Accounting.Winners.{
  get_elem?-at, get_elem?-map, get_elem?-range, get_elem?-lt_length, quantise-eq-map, quantise-few,
  payout-eq, winner_first, winner_remainder, key_le-cases,
}

div-mod : (a k : ℕ) → 1 ≤ k → (a / k * k + a % k ≡ a) × (a % k < k)
div-mod a k h = (grind arith, grind arith)

rounded_up : (p k a : ℕ) → 1 ≤ k → p ≡ a / k + 1 → 1 ≤ a % k → (p * k < a + k) × (a < p * k + k)
rounded_up p k a h e r =
    let (whole, small) = div-mod a k h in
    let up : p * k ≡ a / k * k + k = rw e (grind arith) in
    (omega (arith, whole, small, up), omega (arith, whole, small, up))

rounded_down : (p k a : ℕ) → 1 ≤ k → p ≡ a / k → (p * k < a + k) × (a < p * k + k)
rounded_down p k a h e =
    let (whole, small) = div-mod a k h in
    let down : p * k ≡ a / k * k = rw e in
    (omega (arith, whole, small, down), omega (arith, whole, small, down))

module _ (st : State) (cfg : ChannelConfig) {q : List ℕ} (done : quantise st cfg ≡ ok q) where
  index_lt : (i : ℕ) {a : ℕ} → get_elem? st.balances i ≡ some a → i < cfg.n
  index_lt i e =
      omega (arith, get_elem?-lt_length st.balances i e, (quantise-eq-map st cfg done).1.parties)

  payout_at :
      (i : ℕ) {a p : ℕ}
      → get_elem? st.balances i ≡ some a
      → get_elem? q i ≡ some p
      → p ≡ a / cfg.k + (if mem i (winners cfg st.balances) then 1 else 0)
  payout_at i {a} {p} e h =
      let found : get_elem? q i ≡ some (payout cfg st.balances i) =
        rw ((quantise-eq-map st cfg done).0) (
          get_elem?-map (payout cfg st.balances) (range cfg.n) i
            (get_elem?-range cfg.n i (index_lt i e))) in
      ground (arith, found, payout-eq cfg st.balances i e)

  remainder_at :
      (i : ℕ) {a : ℕ}
      → get_elem? st.balances i ≡ some a
      → at (remainders cfg.k st.balances) i ≡ a % cfg.k
  remainder_at i e =
      get_elem?-at (remainders cfg.k st.balances) i (get_elem?-map (λ a. a % cfg.k) st.balances i e)

  -- Every party of the state is paid.
  paid_at : (i : ℕ) {a : ℕ} → get_elem? st.balances i ≡ some a → (p : ℕ) × (get_elem? q i ≡ some p)
  paid_at i e = (
    payout cfg st.balances i,
    rw ((quantise-eq-map st cfg done).0) (
        get_elem?-map (payout cfg st.balances) (range cfg.n) i
          (get_elem?-range cfg.n i (index_lt i e))),
  )

  -- Whenever `quantise` returns, each party is paid the whole satoshis of its balance, rounded down
  -- or up: the payout in micro-units differs from the balance by less than one satoshi.
  pub quantise_within_satoshi :
      (i : ℕ) {a : ℕ}
      → 1 ≤ cfg.k
      → get_elem? st.balances i ≡ some a
      → (p : ℕ) × (get_elem? q i ≡ some p) × (p * cfg.k < a + cfg.k) × (a < p * cfg.k + cfg.k)
  quantise_within_satoshi i {a} pos_k e =
      let (p, h) = paid_at i e in
      let near : (p * cfg.k < a + cfg.k) × (a < p * cfg.k + cfg.k) =
        elim (Bool-cases (mem i (winners cfg st.balances))) [
          | inl won ↦ rounded_up p cfg.k a pos_k (rw (payout_at i e h, won)) (
              rw (remainder_at i e) at (
                winner_remainder st cfg pos_k (quantise-eq-map st cfg done).1
                  (quantise-few st cfg done) i won))
          | inr lost ↦ rounded_down p cfg.k a pos_k (rw (payout_at i e h, lost) (omega arith))
        ] in
      (p, h, near.0, near.1)

  -- Between a party that is paid a satoshi more than its floor and one that is not, the first has
  -- the larger remainder, or the same remainder and the smaller index.
  pub quantise_largest_remainder :
      (i j : ℕ) {a b p r : ℕ}
      → get_elem? st.balances i ≡ some a
      → get_elem? st.balances j ≡ some b
      → get_elem? q i ≡ some p
      → get_elem? q j ≡ some r
      → p ≡ a / cfg.k + 1
      → r ≡ b / cfg.k
      → (b % cfg.k < a % cfg.k) ⊎ ((b % cfg.k ≡ a % cfg.k) × (i < j))
  quantise_largest_remainder i j {a} {b} {p} {r} ei ej hi hj up down =
      let f : ℕ → ℕ = at (remainders cfg.k st.balances) in
      let won : mem i (winners cfg st.balances) ≡ true = ground (arith, payout_at i ei hi) in
      let lost : mem j (winners cfg st.balances) ≡ false = ground (arith, payout_at j ej hj) in
      let apart : i ≢ j = λ same. cc (won, lost, ap (λ x. mem x (winners cfg st.balances)) same) in
      omega (
        arith,
        apart,
        remainder_at i ei,
        remainder_at j ej,
        key_le-cases f i j (winner_first cfg st.balances i j won (index_lt j ej) lost),
      )
