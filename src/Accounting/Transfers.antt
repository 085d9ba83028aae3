-- ===== src/Accounting/Transfers.antt =====
-- `transfer` of src/channel/accounting.py, branch by branch.
use bonded_subsat_channel.Base.{
  ℕ, suc, ◌≤◌, ◌<◌, ◌≡◌, ◌≢◌, refl, ◌⊎◌, inl, inr, get_elem?, get_elem?-lt, some, arith, Result, ok,
  err, Error, dec_lt, ℕ_discrete, true,
}
use bonded_subsat_channel.Base.Int.{ℤ, pos, negsuc, ◌==ℤ◌}
use bonded_subsat_channel.Config.{ChannelConfig}
use bonded_subsat_channel.Accounting.{State, transfer}
use bonded_subsat_channel.Accounting.Conserved.{
  IsConserved, Moved, transfer_lem, after_move, after_move-IsConserved, after_move-Moved,
}

-- The calls that `transfer` accepts.
pub record CanMove (s : State) (cfg : ChannelConfig) (a b delta : ℤ) : Type 0 where
  pub from : ℕ
  pub to : ℕ
  pub amount : ℕ
  pub held : ℕ
  pub is_from : a ≡ pos from
  pub is_to : b ≡ pos to
  pub is_amount : delta ≡ pos amount
  pub differ : from ≢ to
  pub from_lt : from < cfg.n
  pub to_lt : to < cfg.n
  pub is_held : get_elem? s.balances from ≡ some held
  pub enough : amount ≤ held

-- What a call that returned `r` has done: it moved the amount and kept the allocation, or it
-- raised `AccountingError` on a call that is not acceptable.
abbrev pub TransferOutcome : State → ChannelConfig → ℤ → ℤ → ℤ → Result State → Type 0
TransferOutcome s cfg a b delta (ok t) =
    (m : CanMove s cfg a b delta) × Moved s m.from m.to m.amount t × IsConserved t cfg
TransferOutcome s cfg a b delta (err e) = (e ≡ Error.accounting) × (¬ CanMove s cfg a b delta)

same_index : (a b : ℤ) → a ≡ b → (a ==ℤ b) ≡ true
same_index (pos a) b e = rw (← e) (ground arith)
same_index (negsuc a) b e = rw (← e) (ground arith)

transfer-can :
    (s : State) (cfg : ChannelConfig) (a b delta : ℤ)
    → IsConserved s cfg
    → (m : CanMove s cfg a b delta)
    → (t : State) × (transfer s a b delta cfg ≡ ok t)
      × Moved s m.from m.to m.amount t
      × IsConserved t cfg
transfer-can s cfg a b delta c m =
    let (r, hr) = get_elem?-lt s.balances m.to (omega (arith, c.parties, m.to_lt)) in
    (
      after_move s m.from m.to m.amount m.held r,
      rw (m.is_from, m.is_to, m.is_amount)
          (transfer_lem s cfg m.from m.to m.amount m.differ m.is_held hr m.enough c m.from_lt
            m.to_lt),
      after_move-Moved s cfg m.from m.to m.amount m.differ m.is_held hr m.enough c
          (omega (arith, c.parties, m.from_lt)) (omega (arith, c.parties, m.to_lt)),
      after_move-IsConserved s cfg m.from m.to m.amount m.differ m.is_held hr m.enough c,
    )

-- The guards on natural numbers, in the order in which `transfer` tests them.
refused :
    (s : State) (cfg : ChannelConfig) (i j d : ℕ)
    → (i ≡ j) ⊎ (cfg.n ≤ i) ⊎ (cfg.n ≤ j)
    → transfer s (pos i) (pos j) (pos d) cfg ≡ err Error.accounting
unfolding transfer
refused s cfg i j d h = ground arith

overdrawn :
    (s : State) (cfg : ChannelConfig) (i j d held : ℕ)
    → i ≢ j
    → i < cfg.n
    → j < cfg.n
    → get_elem? s.balances i ≡ some held
    → held < d
    → transfer s (pos i) (pos j) (pos d) cfg ≡ err Error.accounting
unfolding transfer
overdrawn s cfg i j d held ne li lj e h = ground arith

abbrev Decided : State → ChannelConfig → ℤ → ℤ → ℤ → Type 0
Decided s cfg a b delta =
    CanMove s cfg a b delta
    ⊎ ((¬ CanMove s cfg a b delta) × (transfer s a b delta cfg ≡ err Error.accounting))

-- The numbers that a call carries are those that it may move.
CanMove-numbers :
    (s : State) (cfg : ChannelConfig) (i j d : ℕ) {held : ℕ}
    → get_elem? s.balances i ≡ some held
    → CanMove s cfg (pos i) (pos j) (pos d)
    → (i ≢ j) × (i < cfg.n) × (j < cfg.n) × (d ≤ held)
CanMove-numbers s cfg i j d e m = (
  λ q. m.differ (ground (arith, m.is_from, m.is_to, q)),
  ground (arith, m.is_from, m.from_lt),
  ground (arith, m.is_to, m.to_lt),
  ground (arith, m.is_from, m.is_amount, m.is_held, m.enough, e),
)

-- A call on two indices in range is decided by the sender's balance.
decide_amount :
    (s : State) (cfg : ChannelConfig) (i j d : ℕ) {held : ℕ}
    → i ≢ j
    → i < cfg.n
    → j < cfg.n
    → get_elem? s.balances i ≡ some held
    → Decided s cfg (pos i) (pos j) (pos d)
decide_amount s cfg i j d {held} ne li lj e = elim (dec_lt held d) [
  | yes short ↦ inr (
    λ m. absurd (omega (arith, (CanMove-numbers s cfg i j d e m).3)),
    overdrawn s cfg i j d held ne li lj e short,
  )
  | no enough ↦ inl (record {
    from = i;
    to = j;
    amount = d;
    held = held;
    is_from = refl;
    is_to = refl;
    is_amount = refl;
    differ = ne;
    from_lt = li;
    to_lt = lj;
    is_held = e;
    enough = omega arith;
  })
]

dec_CanMove_pos :
    (s : State) (cfg : ChannelConfig) (i j d : ℕ)
    → IsConserved s cfg
    → Decided s cfg (pos i) (pos j) (pos d)
dec_CanMove_pos s cfg i j d c = elim (dec_lt i cfg.n) [
  | no out ↦ inr (
    λ m. out (ground (arith, m.is_from, m.from_lt)),
    refused s cfg i j d (inr (inl (omega arith))),
  )
  | yes li ↦ elim (dec_lt j cfg.n) [
    | no out ↦
        inr (
          λ m. out (ground (arith, m.is_to, m.to_lt)),
          refused s cfg i j d (inr (inr (omega arith))),
        )
    | yes lj ↦ elim (ℕ_discrete i j) [
      | yes same ↦
          inr (
            λ m. m.differ (ground (arith, m.is_from, m.is_to, same)),
            refused s cfg i j d (inl same),
          )
      | no ne ↦
          decide_amount s cfg i j d ne li lj
            (get_elem?-lt s.balances i (omega (arith, c.parties))).1
    ]
  ]
]

dec_CanMove :
    (s : State) (cfg : ChannelConfig) (a b delta : ℤ) → IsConserved s cfg → Decided s cfg a b delta
unfolding transfer
dec_CanMove s cfg (negsuc a) b delta c = inr (λ m. cc m.is_from, ground arith)
dec_CanMove s cfg (pos a) (negsuc b) delta c = inr (λ m. cc m.is_to, ground arith)
dec_CanMove s cfg (pos a) (pos b) (negsuc d) c = inr (λ m. cc m.is_amount, ground arith)
dec_CanMove s cfg (pos a) (pos b) (pos d) c = dec_CanMove_pos s cfg a b d c

-- On a conserved state a transfer either is one of the acceptable calls, and then it moves exactly
-- the amount, leaves every other balance, steps the version by one and conserves the allocation;
-- or it raises `AccountingError` and is not acceptable. No other exception escapes.
pub transfer-TransferOutcome :
    (s : State) (cfg : ChannelConfig) (a b delta : ℤ)
    → IsConserved s cfg
    → TransferOutcome s cfg a b delta (transfer s a b delta cfg)
transfer-TransferOutcome s cfg a b delta c = elim (dec_CanMove s cfg a b delta c) [
  | inl m ↦ let (t, e, moved, kept) = transfer-can s cfg a b delta c m in rw e (m, moved, kept)
  | inr (stuck, e) ↦ rw e (refl, stuck)
]

-- A state that a call of `transfer` returned.
pub transfer-step :
    (s : State) (cfg : ChannelConfig) (a b delta : ℤ) {t : State}
    → IsConserved s cfg
    → transfer s a b delta cfg ≡ ok t
    → IsConserved t cfg × (t.version ≡ suc s.version)
transfer-step s cfg a b delta c e =
    let out = rw e at (transfer-TransferOutcome s cfg a b delta c) in (out.2, out.1.version)
