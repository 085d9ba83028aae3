-- ===== src/Lifecycle/Seeding.antt =====
-- The state that a channel of src/channel/lifecycle.py starts in, and loops over its parties.
use bonded_subsat_channel.Base.{
  ℕ, zero, suc, ◌+◌, ◌*◌, ◌<◌, ◌≡◌, refl, ap, ap₂, ◌∙◌, some, List, [], ◌∷◌, map, length, get_elem?,
  set, replicate, length-set, length-replicate, arith, Result, ok, traverse,
}
use bonded_subsat_channel.Base.Int.{pos}
use bonded_subsat_channel.Base.Sums.{sum-set, sum-replicate_zero}
use bonded_subsat_channel.Config.{ChannelConfig}
use bonded_subsat_channel.Accounting.{State, at, initial_state}
use bonded_subsat_channel.Accounting.Order.{range, range_from}
use bonded_subsat_channel.Accounting.Conserved.{IsConserved, make_state-pos, conservation_check-ok}
use bonded_subsat_channel.Crypto.{Crypto}
use bonded_subsat_channel.Lifecycle.Settlement.{AllBelow}

set_zero : (n i v : ℕ) → i < n → get_elem? {A = ℕ} (replicate n 0) i ≡ some 0
set_zero zero i v h = absurd (omega arith)
set_zero (suc n) zero v h = refl
set_zero (suc n) (suc i) v h = set_zero n i v (omega arith)

-- The state that a channel starts in: all micro-units with the funder.
abbrev pub seeded : ChannelConfig → ℕ → State
seeded cfg i = record { balances = set (replicate cfg.n 0) i (cfg.k * cfg.s); version = 0 }

pub seeded-IsConserved : (cfg : ChannelConfig) (i : ℕ) → i < cfg.n → IsConserved (seeded cfg i) cfg
seeded-IsConserved cfg i h = record {
  total = omega (
    arith,
    sum-set (replicate cfg.n 0) i (cfg.k * cfg.s) (set_zero cfg.n i 0 h),
    sum-replicate_zero cfg.n,
  );
  parties = length-set (replicate cfg.n 0) i (cfg.k * cfg.s) ∙ length-replicate cfg.n 0;
}

-- For a party of the channel the initial state is built, conserved, at version 0.
pub initial_state-ok :
    (cfg : ChannelConfig) (i : ℕ) → i < cfg.n → initial_state cfg (pos i) ≡ ok (seeded cfg i)
unfolding initial_state
initial_state-ok cfg i h = ground (
  arith,
  make_state-pos (set (replicate cfg.n 0) i (cfg.k * cfg.s)) 0,
  conservation_check-ok (seeded cfg i) cfg (seeded-IsConserved cfg i h),
)

map-at :
    (xs : List ℕ) (a : ℕ) (f : ℕ → ℕ)
    → ((i : ℕ) → f (a + i) ≡ at xs i)
    → map f (range_from a (length xs)) ≡ xs
unfolding range_from at
map-at [] a f h = refl
map-at (x ∷ xs) a f h =
    ap₂ ◌∷◌ (ap f (let e : a ≡ a + 0 = omega arith in e) ∙ h 0) (
      map-at xs (a + 1) f
        (λ i. ap f (let e : a + 1 + i ≡ a + suc i = omega arith in e) ∙ h (suc i)))

pub map-at-range : (xs : List ℕ) (n : ℕ) → length xs ≡ n → map (at xs) (range n) ≡ xs
unfolding range
map-at-range xs n e =
    rw (← e) (map-at xs 0 (at xs) (λ i. ap (at xs) (let q : 0 + i ≡ i = omega arith in q)))

-- A loop over parties none of whose rounds raises.
pub traverse-ok :
    (c : Crypto) {B : Type 0} (f : ℕ → Result B) (v : B → ℕ) (w : ℕ → ℕ) (n : ℕ) (is : List ℕ)
    → ((i : ℕ) → i < n → (y : B) × (f i ≡ ok y) × (v y ≡ w i))
    → AllBelow c n is
    → (ys : List B) × (traverse f is ≡ ok ys) × (map v ys ≡ map w is)
unfolding traverse
traverse-ok c f v w n [] h b = ([], refl, refl)
traverse-ok c f v w n (i ∷ is) h b =
    let (y, ey, vy) = h i b.0 in
    let (ys, es, vs) = traverse-ok c f v w n is h b.1 in (y ∷ ys, rw (ey, es), ap₂ ◌∷◌ vy vs)
