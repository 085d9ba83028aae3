-- ===== src/Accounting/Runs.antt =====
-- `assert_conservation_over_sequence` of src/channel/accounting.py, branch by branch.
use bonded_subsat_channel.Base.{
  ℕ, suc, ◌+◌, ◌≡◌, inl, inr, List, [], ◌∷◌, length, arith, Result, ok, err, Error, Result-cases,
}
use bonded_subsat_channel.Base.Int.{ℤ}
use bonded_subsat_channel.Config.{ChannelConfig}
use bonded_subsat_channel.Accounting.{
  State, transfer, transfers_from, assert_conservation_over_sequence,
}
use bonded_subsat_channel.Accounting.Conserved.{IsConserved, conservation_check-ok}
use bonded_subsat_channel.Accounting.Transfers.{transfer-TransferOutcome, transfer-step}

-- How a run of transfers ends: at a conserved state whose version has grown by the number of
-- transfers, or with `AccountingError`.
abbrev pub RunOutcome : State → ChannelConfig → ℕ → Result State → Type 0
RunOutcome s cfg steps (ok t) = IsConserved t cfg × (t.version ≡ s.version + steps)
RunOutcome s cfg steps (err e) = e ≡ Error.accounting

RunOutcome-suc :
    (s t : State) (cfg : ChannelConfig) (steps : ℕ) (r : Result State)
    → t.version ≡ suc s.version
    → RunOutcome t cfg steps r
    → RunOutcome s cfg (suc steps) r
RunOutcome-suc s t cfg steps (ok u) e h = (h.0, omega arith)
RunOutcome-suc s t cfg steps (err x) e h = h

transfers_from-RunOutcome :
    (s : State) (cfg : ChannelConfig) (ops : List (ℤ × ℤ × ℤ))
    → IsConserved s cfg
    → RunOutcome s cfg (length ops) (transfers_from s ops cfg)
unfolding transfers_from
transfers_from-RunOutcome s cfg [] c = (c, omega arith)
transfers_from-RunOutcome s cfg ((a, b, d) ∷ ops) c = elim (Result-cases (transfer s a b d cfg)) [
  | inl (t, e) ↦
      let (kept, stepped) = transfer-step s cfg a b d c e in
      rw (e, conservation_check-ok t cfg kept)
        (RunOutcome-suc s t cfg (length ops) _ stepped (transfers_from-RunOutcome t cfg ops kept))
  | inr (x, e) ↦ rw e (rw e at (transfer-TransferOutcome s cfg a b d c)).0
]

-- A sequence of transfers keeps the allocation: from a conserved state it ends at a conserved state
-- with the version raised by the length of the sequence, or with `AccountingError`.
pub assert_conservation_over_sequence-RunOutcome :
    (s : State) (cfg : ChannelConfig) (ops : List (ℤ × ℤ × ℤ))
    → IsConserved s cfg
    → RunOutcome s cfg (length ops) (assert_conservation_over_sequence s ops cfg)
unfolding assert_conservation_over_sequence
assert_conservation_over_sequence-RunOutcome s cfg ops c =
    rw (conservation_check-ok s cfg c) (transfers_from-RunOutcome s cfg ops c)
