-- ===== src/Node/Mempool/States.antt =====
-- The version rule of src/channel/lifecycle.py and the replacement rule of
-- src/channel/node/mempool.py together, on two states of one channel.
use bonded_subsat_channel.Base.{
  ℕ, ◌≡◌, ◌<◌, ◌≤◌, refl, inr, true, false, none, some, [], ◌∷◌, arith, ok,
}
use bonded_subsat_channel.Base.Int.{pos}
use bonded_subsat_channel.Base.Dict.{lookup, outpoint_eq, nat_eq, beq_refl, lookup-insert_self}
use bonded_subsat_channel.Chain.{Bytes, Hash, Tx, Bitcoinx}
use bonded_subsat_channel.Lifecycle.{sequence_for_version}
use bonded_subsat_channel.Lifecycle.Versions.{sequence_for_version_mono}
use bonded_subsat_channel.Node.Validation.{Reason, refusal, validate_tx}
use bonded_subsat_channel.Node.Mempool.{Mempool, MempoolEntry, Event, admit, entry_for, old_seqs}
use bonded_subsat_channel.Node.Mempool.Invariant.{Inv, spends}
use bonded_subsat_channel.Node.Mempool.Admit.{Observers, IsTame}
use bonded_subsat_channel.Node.Mempool.Outbid.{OnlyBy}
use bonded_subsat_channel.Node.Mempool.Replace.{admit_overtakes, admit_keeps}

-- The input of a state transaction of the channel funded by `funding`, as it is signed.
pub record SettlesAt (tx : Tx) (funding : Hash) (version : ℕ) : Type 0 where
  pub script_sig : Bytes
  pub sequence : ℕ
  pub encoded : sequence_for_version (pos version) ≡ ok sequence
  pub only_input :
      tx.inputs
      ≡ record { prev_hash = funding; prev_idx = 0; script_sig = script_sig; sequence = sequence }
        ∷ []

sequence_is_version : (v : ℕ) {p : ℕ} → sequence_for_version (pos v) ≡ ok p → v ≡ p
unfolding sequence_for_version
sequence_is_version v h = ground arith

SettlesAt-spends :
    (tx : Tx) (funding : Hash) (version : ℕ)
    → SettlesAt tx funding version
    → spends (funding, 0) tx.inputs ≡ true
SettlesAt-spends tx funding version s = rw s.only_input (rw (beq_refl nat_eq funding) refl)

module _ {W : Type 0} (lib : Bitcoinx) (notify : Observers W) (tame : IsTame lib notify) (tx : Tx)
    (m : Mempool) (w : W) (v : Inv lib m) (fresh : lookup (lib.tx_hash tx) m.entries ≡ none)
    (old : Hash) (e : MempoolEntry) (found : lookup old m.entries ≡ some e) (funding : Hash)
    (held next : ℕ) (was : SettlesAt e.tx funding held) (is : SettlesAt tx funding next) where
  marked : lookup (funding, 0) m.spent_by ≡ some old
  marked = v.marked old e (funding, 0) found (SettlesAt-spends e.tx funding held was)

  only_old : OnlyBy old tx.inputs m.spent_by
  only_old = rw is.only_input (inr marked, tt)

  recorded : lookup (funding, 0) (old_seqs e.tx.inputs []) ≡ some was.sequence
  unfolding old_seqs
  recorded = rw was.only_input (lookup-insert_self (funding, 0) was.sequence [])

  -- In a pool that holds a state of the channel, a valid transaction of a later state takes its
  -- place: the older one is gone, the newer one is in, and the observers are told.
  pub later_state_overtakes :
      held < next
      → (validate_tx lib m.store tx false).passed ≡ true
      → (n : Mempool) × (admit lib notify tx (m, w)
          ≡ (ok (validate_tx lib m.store tx false), notify Event.replaced tx (n, w)))
        × (lookup old n.entries ≡ none)
        × (lookup (lib.tx_hash tx) n.entries
            ≡ some (entry_for tx (validate_tx lib m.store tx false)))
        × Inv lib n
  later_state_overtakes lt passed =
      admit_overtakes lib notify tame tx m w v fresh old e (funding, 0) found
        (SettlesAt-spends tx funding next is) (SettlesAt-spends e.tx funding held was) only_old
        (rw is.only_input (
          λ seq h.
              let higher : was.sequence < is.sequence =
                sequence_for_version_mono held next lt was.encoded is.encoded in
              ground (arith, h, recorded, higher),
          tt,
        ))
        passed

  -- A transaction of a state that is not later is refused, and the pool stays as it was.
  pub earlier_state_refused :
      next ≤ held → admit lib notify tx (m, w) ≡ (ok (refusal Reason.sequence_too_low), (m, w))
  earlier_state_refused le =
      admit_keeps lib notify tame tx m w v fresh old e (funding, 0) found
        (SettlesAt-spends tx funding next is) (SettlesAt-spends e.tx funding held was) only_old
        (λ above.
          let higher : was.sequence < is.sequence =
            (rw is.only_input at above).0 was.sequence recorded in
          omega (
            arith,
            higher,
            sequence_is_version held was.encoded,
            sequence_is_version next is.encoded,
          ))
