-- ===== src/Accounting/Conserved.antt =====
-- Conserved states of src/channel/accounting.py, and the writes of `transfer` to them.
use bonded_subsat_channel.Base.{
  ℕ, suc, ◌+◌, ◌-◌, ◌*◌, ◌≤◌, ◌<◌, ◌≡◌, ◌≢◌, refl, ap, sym, ◌∙◌, inl, inr, List, [], ◌∷◌, map,
  length, set, get_elem?, get_elem?-set_self, get_elem?-set_ne, length-set, some, arith, ok, err,
  Error, Result-cases,
}
use bonded_subsat_channel.Base.Int.{pos}
use bonded_subsat_channel.Base.Sums.{sum, sum-set}
use bonded_subsat_channel.Config.{ChannelConfig}
use bonded_subsat_channel.Accounting.{
  State, check_balances, make_state, conservation_check, transfer,
}

-- The allocation sums to `k * S` and has a balance for each party.
pub record IsConserved (s : State) (cfg : ChannelConfig) : Type 0 where
  pub total : sum s.balances ≡ cfg.k * cfg.s
  pub parties : length s.balances ≡ cfg.n

check_balances-pos : (bs : List ℕ) → check_balances (map pos bs) ≡ ok bs
unfolding check_balances
check_balances-pos [] = refl
check_balances-pos (b ∷ bs) = ground (arith, check_balances-pos bs)

-- A state built from natural numbers passes `__post_init__`.
pub make_state-pos :
    (bs : List ℕ) (v : ℕ)
    → make_state (map pos bs) (pos v) ≡ ok (record { balances = bs; version = v })
unfolding make_state
make_state-pos bs v = ground (arith, check_balances-pos bs)

-- `conservation_check` passes exactly the states that are conserved.
pub conservation_check-ok :
    (s : State) (cfg : ChannelConfig) → IsConserved s cfg → conservation_check s cfg ≡ ok tt
unfolding conservation_check
conservation_check-ok s cfg h = ground arith

pub conservation_check-IsConserved :
    (s : State) (cfg : ChannelConfig) → conservation_check s cfg ≡ ok tt → IsConserved s cfg
unfolding conservation_check
conservation_check-IsConserved s cfg h = ground arith

pub conservation_check-err :
    (s : State) (cfg : ChannelConfig)
    → ¬ (IsConserved s cfg)
    → conservation_check s cfg ≡ err Error.accounting
unfolding conservation_check
conservation_check-err s cfg h = elim (Result-cases (conservation_check s cfg)) [
  | inl (t, e) ↦ absurd (h (conservation_check-IsConserved s cfg (e ∙ refl)))
  | inr (x, e) ↦ ground arith
]

-- What a transfer from `i` to `j` leaves, as a statement about the two states.
pub record Moved (s : State) (i j d : ℕ) (t : State) : Type 0 where
  pub held : ℕ
  pub received : ℕ
  pub was_held : get_elem? s.balances i ≡ some (held + d)
  pub was_received : get_elem? s.balances j ≡ some received
  pub sender : get_elem? t.balances i ≡ some held
  pub recipient : get_elem? t.balances j ≡ some (received + d)
  pub others : (p : ℕ) → p ≢ i → p ≢ j → get_elem? t.balances p ≡ get_elem? s.balances p
  pub version : t.version ≡ suc s.version

-- The state that `transfer` builds.
abbrev pub after_move : State → ℕ → ℕ → ℕ → ℕ → ℕ → State
after_move s i j d held received = record {
  balances = set (set s.balances i (held - d)) j (received + d);
  version = s.version + 1;
}

module _ (s : State) (cfg : ChannelConfig) (i j d : ℕ) {held received : ℕ} (ne : i ≢ j)
    (hi : get_elem? s.balances i ≡ some held) (hj : get_elem? s.balances j ≡ some received)
    (enough : d ≤ held) (c : IsConserved s cfg) where
  debited_j : get_elem? (set s.balances i (held - d)) j ≡ some received
  debited_j = get_elem?-set_ne s.balances (held - d) ne ∙ hj

  pub after_move-IsConserved : IsConserved (after_move s i j d held received) cfg
  after_move-IsConserved = record {
    total = omega (
      arith,
      c.total,
      sum-set s.balances i (held - d) hi,
      sum-set (set s.balances i (held - d)) j (received + d) debited_j,
    );
    parties =
        length-set (set s.balances i (held - d)) j (received + d)
        ∙ length-set s.balances i (held - d)
        ∙ c.parties;
  }

  pub transfer_lem :
      i < cfg.n
      → j < cfg.n
      → transfer s (pos i) (pos j) (pos d) cfg ≡ ok (after_move s i j d held received)
  unfolding transfer
  transfer_lem li lj = ground (
    arith,
    debited_j,
    make_state-pos (set (set s.balances i (held - d)) j (received + d)) (s.version + 1),
    conservation_check-ok (after_move s i j d held received) cfg after_move-IsConserved,
  )

  pub after_move-Moved :
      i < length s.balances
      → j < length s.balances
      → Moved s i j d (after_move s i j d held received)
  after_move-Moved li lj =
      let debited : List ℕ = set s.balances i (held - d) in
      record {
        held = held - d;
        received = received;
        was_held = hi ∙ ap some (omega arith);
        was_received = hj;
        sender =
            get_elem?-set_ne debited (received + d) (λ e. ne (sym e))
            ∙ get_elem?-set_self s.balances i (held - d) li;
        recipient =
            get_elem?-set_self debited j (received + d)
              (omega (arith, length-set s.balances i (held - d)));
        others = λ p pi pj.
            get_elem?-set_ne debited (received + d) (λ e. pj (sym e))
            ∙ get_elem?-set_ne s.balances (held - d) (λ e. pi (sym e));
        version = omega arith;
      }
