-- ===== src/Accounting.antt =====
-- src/channel/accounting.py: the allocation of micro-units, transfers, and the netting
-- quantisation `Q*`. A `State` holds natural numbers, which `make_state` (`__post_init__`) makes
-- sure of; whatever the code tests for a sign comes in as an integer.
pub mod Order
pub mod Conserved
pub mod Transfers
pub mod Runs
pub mod Netting
pub mod Winners
pub mod Fairness
use bonded_subsat_channel.Base.{
  mem, ℕ, suc, zero, ◌+◌, ◌-◌, ◌*◌, ◌/◌, ◌%◌, Bool, true, false, not, ◌||◌, List, [], ◌∷◌, map,
  length, set, replicate, get_elem?, take, Result, ok, err, Error, ◌>>=◌, ◌>>◌, raise_if, or_raise,
  leb, ltb, ◌==◌, if◌then◌else◌,
}
use bonded_subsat_channel.Base.Int.{ℤ, pos, negsuc, ◌==ℤ◌, in_range, at_least}
use bonded_subsat_channel.Base.Sums.{sum}
use bonded_subsat_channel.Config.{ChannelConfig}
use Order.{range, sort_by}

-- The values that `ensure_whole_satoshi` tells apart.
pub data PyValue : Type 0 where
  boolean : Bool → PyValue
  int : ℤ → PyValue
  other : PyValue

unfoldable pub ensure_whole_satoshi : PyValue → Result ℕ
ensure_whole_satoshi (boolean _) = err Error.fractional_satoshi
ensure_whole_satoshi other = err Error.fractional_satoshi
ensure_whole_satoshi (int v) = at_least Error.fractional_satoshi 0 v

pub record State : Type 0 where
  pub balances : List ℕ
  pub version : ℕ

-- the loop of `State.__post_init__` over the balances
unfoldable pub check_balances : List ℤ → Result (List ℕ)
check_balances [] = ok []
check_balances (b ∷ bs) = do
  v ← at_least Error.accounting 0 b
  rest ← check_balances bs
  ok (v ∷ rest)

unfoldable pub make_state : List ℤ → ℤ → Result State
unfolding check_balances
make_state balances version = do
  v ← at_least Error.accounting 0 version
  bs ← check_balances balances
  ok (record { balances = bs; version = v })

unfoldable pub total_micro : State → ℕ
total_micro s = sum s.balances

unfoldable pub conservation_check : State → ChannelConfig → Result (Unit {0})
unfolding total_micro
conservation_check s cfg = do
  raise_if (not (total_micro s == cfg.k * cfg.s)) Error.accounting
  raise_if (not (length s.balances == cfg.n)) Error.accounting

unfoldable pub initial_state : ChannelConfig → ℤ → Result State
unfolding make_state conservation_check
initial_state cfg funder = do
  i ← in_range Error.accounting cfg.n funder
  s ← make_state (map pos (set (replicate cfg.n 0) i (cfg.k * cfg.s))) (pos 0)
  conservation_check s cfg
  ok s

unfoldable pub transfer : State → ℤ → ℤ → ℤ → ChannelConfig → Result State
unfolding make_state conservation_check
transfer state sender recipient delta cfg = do
  raise_if (sender ==ℤ recipient) Error.accounting
  i ← in_range Error.accounting cfg.n sender
  j ← in_range Error.accounting cfg.n recipient
  d ← at_least Error.accounting 0 delta
  held ← or_raise (get_elem? state.balances i) Error.index_error
  raise_if (ltb held d) Error.accounting
  let debited = set state.balances i (held - d)
  credited ← or_raise (get_elem? debited j) Error.index_error
  new_state ← make_state (map pos (set debited j (credited + d))) (pos (state.version + 1))
  conservation_check new_state cfg
  ok new_state

-- `(-remainders[i], i)` of one party comes before that of another, or equals it
unfoldable pub key_le : (ℕ → ℕ) → ℕ → ℕ → Bool
key_le remainder i j =
    if ltb (remainder j) (remainder i)
    then true
    else if ltb (remainder i) (remainder j)
    then false
    else leb i j

-- `xs[i]` at an index that the caller keeps in range
unfoldable pub at : List ℕ → ℕ → ℕ
at [] i = 0
at (x ∷ xs) zero = x
at (x ∷ xs) (suc i) = at xs i

unfoldable pub order : ChannelConfig → List ℕ → List ℕ
unfolding key_le at range sort_by
order cfg balances = sort_by (key_le (at (map (λ a. a % cfg.k) balances))) (range cfg.n)

-- the winners of the satoshis that are left, `set(order[:R])`
unfoldable pub winners : ChannelConfig → List ℕ → List ℕ
unfolding order
winners cfg balances = take (cfg.s - sum (map (λ a. a / cfg.k) balances)) (order cfg balances)

-- `floors[i] + (1 if i in winners else 0)`
unfoldable pub payout : ChannelConfig → List ℕ → ℕ → ℕ
unfolding winners at mem
payout cfg balances i =
    at (map (λ a. a / cfg.k) balances) i + (if mem i (winners cfg balances) then 1 else 0)

-- the closing loop of `quantise`
unfoldable pub ensure_all : List ℕ → Result (Unit {0})
unfolding ensure_whole_satoshi
ensure_all [] = ok tt
ensure_all (q ∷ qs) = do _ ← ensure_whole_satoshi (int (pos q)); ensure_all qs

-- `R < 0 or R >= n` with `R = S - total_floor`, then the payouts and the checks of them
unfoldable pub quantise : State → ChannelConfig → Result (List ℕ)
unfolding conservation_check payout ensure_all
quantise state cfg = do
  conservation_check state cfg
  let total_floor = sum (map (λ a. a / cfg.k) state.balances)
  raise_if (ltb cfg.s total_floor || leb cfg.n (cfg.s - total_floor)) Error.accounting
  let q = map (payout cfg state.balances) (range cfg.n)
  raise_if (not (sum q == cfg.s)) Error.accounting
  ensure_all q
  ok q

-- the loop of `assert_conservation_over_sequence`
unfoldable pub transfers_from : State → List (ℤ × ℤ × ℤ) → ChannelConfig → Result State
unfolding transfer
transfers_from cur [] cfg = ok cur
transfers_from cur ((s, r, d) ∷ ops) cfg = do
  next ← transfer cur s r d cfg
  conservation_check next cfg
  transfers_from next ops cfg

unfoldable pub assert_conservation_over_sequence :
    State → List (ℤ × ℤ × ℤ) → ChannelConfig → Result State
unfolding transfers_from
assert_conservation_over_sequence initial ops cfg = do
  conservation_check initial cfg
  transfers_from initial ops cfg
