-- ===== src/Node/Mempool/Admit.antt =====
-- `Mempool.admit` of src/channel/node/mempool.py as a whole, with observers that may call the
-- mempool again.
use bonded_subsat_channel.Base.{
  mem, ◌≡◌, ◌≢◌, ap, ◌∙◌, inl, inr, true, false, none, some, [], ◌∷◌, arith, if◌then◌else◌,
  Bool-cases, Option-cases, ok,
}
use bonded_subsat_channel.Base.Dict.{lookup, outpoint_eq, nat_eq, lookup-erase}
use bonded_subsat_channel.Chain.{Hash, Outpoint, Tx, Bitcoinx}
use bonded_subsat_channel.Node.Validation.{ValidationResult, Reason, refusal, validate_tx}
use bonded_subsat_channel.Node.Mempool.{
  Mempool, MempoolEntry, Event, conflicts, old_seqs, outbids, insert_entry, drop_entry, evict,
  admit_straight, admit_replacing, put_replacement,
}
use bonded_subsat_channel.Node.Mempool.Invariant.{
  Inv, spends, mem-conflicts, conflicts-Contested, lookup-unmark,
}
use bonded_subsat_channel.Node.Mempool.Evict.{drop_entry-unmarked, drop_entry-Inv, insert_entry-Inv}

abbrev pub Observers : Type 0 → Type 0
Observers W = Event → Tx → Mempool × W → Mempool × W

-- What the mempool relies on: observers keep its index, and do nothing on an eviction, as the
-- watchtowers do.
pub record IsTame {W : Type 0} (lib : Bitcoinx) (notify : Observers W) : Type 0 where
  pub keeps :
      (ev : Event) (tx : Tx) (m : Mempool) (w : W) → Inv lib m → Inv lib (notify ev tx (m, w)).0
  pub quiet : (tx : Tx) (m : Mempool) (w : W) → notify Event.evicted tx (m, w) ≡ (m, w)

module _ {W : Type 0} (lib : Bitcoinx) (notify : Observers W) (tame : IsTame lib notify) where
  module _ (tx : Tx) (m : Mempool) (w : W) (v : Inv lib m)
      (fresh : lookup (lib.tx_hash tx) m.entries ≡ none) where
    -- With no conflict every output that the transaction spends is unmarked.
    pub no_conflict-free :
        conflicts (lib.tx_hash tx) tx.inputs m.spent_by ≡ []
        → (op : Outpoint) → spends op tx.inputs ≡ true
        → lookup op m.spent_by ≡ none
    unfolding mem
    no_conflict-free none_found op s = elim (Option-cases (lookup op m.spent_by)) [
      | inl free ↦ free
      | inr (owner, e) ↦
          let foreign : owner ≢ lib.tx_hash tx = λ same.
            (let (f, found, _) = v.owned op owner e in
              cc (found, fresh, ap (λ x. lookup x m.entries) same)) in
          cc (
            ap (mem owner) none_found,
            mem-conflicts op owner (lib.tx_hash tx) tx.inputs m.spent_by s e foreign,
          )
    ]

    pub admit_straight-Inv :
        conflicts (lib.tx_hash tx) tx.inputs m.spent_by ≡ []
        → Inv lib (admit_straight lib notify tx (m, w)).1.0
    unfolding admit_straight
    admit_straight-Inv none_found =
        let r : ValidationResult = validate_tx lib m.store tx false in
        elim (Bool-cases r.passed) [
          | inl passed ↦ simp passed (
              tame.keeps Event.admitted tx (insert_entry lib tx r m) w
                (insert_entry-Inv lib m v tx r fresh (no_conflict-free none_found)))
          | inr failed ↦ simp failed v
        ]

    module _ (old : Hash) (one : conflicts (lib.tx_hash tx) tx.inputs m.spent_by ≡ old ∷ []) where
      -- The one conflict is an entry, so that the lookup of it does not raise.
      pub conflict_entry : (e : MempoolEntry) × (lookup old m.entries ≡ some e)
      unfolding mem
      conflict_entry =
          let (op, s, marked, ne) =
            conflicts-Contested old (lib.tx_hash tx) tx.inputs m.spent_by (rw one (ground arith)) in
          let (e, found, _) = v.owned op old marked in (e, found)

      -- Once the conflict is out, every output that the transaction spends is unmarked.
      pub evicted-free :
          (e : MempoolEntry)
          → lookup old m.entries ≡ some e
          → (op : Outpoint) → spends op tx.inputs ≡ true
          → lookup op (drop_entry old e m).spent_by ≡ none
      unfolding mem drop_entry
      evicted-free e found op s = elim (Option-cases (lookup op (drop_entry old e m).spent_by)) [
        | inl free ↦ free
        | inr (owner, left) ↦
            let was : lookup op m.spent_by ≡ some owner =
              ground (arith, left, lookup-unmark op e.tx.inputs old m.spent_by) in
            let foreign : owner ≢ lib.tx_hash tx = λ same.
              (let (f, there, _) = v.owned op owner was in
                cc (there, fresh, ap (λ x. lookup x m.entries) same)) in
            let same : owner ≡ old = ground (
              arith,
              ap (mem owner) one,
              mem-conflicts op owner (lib.tx_hash tx) tx.inputs m.spent_by s was foreign,
            ) in
            absurd (drop_entry-unmarked lib m v old e found op (left ∙ ap some same))
      ]

      -- The mempool that a replacement hands to the observers.
      pub replaced-Inv :
          (e : MempoolEntry) (r : ValidationResult)
          → lookup old m.entries ≡ some e
          → Inv lib (insert_entry lib tx r (drop_entry old e m))
      unfolding drop_entry
      replaced-Inv e r found =
          insert_entry-Inv lib (drop_entry old e m) (drop_entry-Inv lib m v old e found) tx r
            (ground (arith, fresh, lookup-erase (lib.tx_hash tx) old m.entries))
            (evicted-free e found)

      evict_lem :
          (e : MempoolEntry)
          → lookup old m.entries ≡ some e
          → (evict lib notify old (m, w)).1 ≡ (drop_entry old e m, w)
      unfolding evict
      evict_lem e found = ground (arith, tame.quiet e.tx (drop_entry old e m) w)

      -- What a replacement does, by the sequences and the validation.
      pub admit_replacing_lem :
          (e : MempoolEntry)
          → lookup old m.entries ≡ some e
          → let r = validate_tx lib m.store tx false in
            admit_replacing lib notify tx old (m, w) ≡ (
              if outbids tx.inputs (old_seqs e.tx.inputs [])
              then (if r.passed
                  then (
                    ok r,
                    notify Event.replaced tx (insert_entry lib tx r (drop_entry old e m), w),
                  )
                  else (ok r, (m, w)))
              else (ok (refusal Reason.sequence_too_low), (m, w)))
      unfolding admit_replacing put_replacement
      admit_replacing_lem e found = ground (arith, evict_lem e found)
