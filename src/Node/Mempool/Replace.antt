-- ===== src/Node/Mempool/Replace.antt =====
-- The replacement rule of src/channel/node/mempool.py.
use bonded_subsat_channel.Base.{
  ◌≡◌, ◌≢◌, refl, ap, ◌∙◌, ◌⊎◌, inl, inr, Bool, true, false, none, some, List, [], ◌∷◌, arith,
  if◌then◌else◌, Bool-cases, Option-cases, Result, ok,
}
use bonded_subsat_channel.Base.Dict.{
  lookup, outpoint_eq, nat_eq, lookup-insert_self, lookup-insert_ne, lookup-erase_self, erase,
}
use bonded_subsat_channel.Chain.{Hash, Outpoint, Tx, Bitcoinx}
use bonded_subsat_channel.Node.Validation.{ValidationResult, Reason, refusal, validate_tx}
use bonded_subsat_channel.Node.Mempool.{
  Mempool, MempoolEntry, Event, conflicts, old_seqs, outbids, entry_for, insert_entry, drop_entry,
  already, admit, admit_straight, admit_replacing,
}
use bonded_subsat_channel.Node.Mempool.Invariant.{Inv, spends}
use bonded_subsat_channel.Node.Mempool.Admit.{
  Observers, IsTame, admit_straight-Inv, admit_replacing_lem, replaced-Inv, conflict_entry,
}
use bonded_subsat_channel.Node.Mempool.Outbid.{
  AllAbove, OnlyBy, outbids-AllAbove, AllAbove-outbids, conflicts_only, ids-cases,
}

-- What a call of `admit` from `(m, w)` has done.
abbrev pub AdmitOutcome :
    {W : Type 0} → Bitcoinx → Mempool → W → Result ValidationResult × (Mempool × W) → Type 0
AdmitOutcome lib m w x =
    (r : ValidationResult) × (x.0 ≡ ok r) × Inv lib x.1.0 × ((r.passed ≡ true) ⊎ (x.1 ≡ (m, w)))

-- The two tests at the end of a replacement.
settled :
    {W : Type 0} (lib : Bitcoinx) (m : Mempool) (w : W) (above : Bool) (r : ValidationResult)
    (after : Mempool × W)
    → Inv lib m
    → Inv lib after.0
    → AdmitOutcome lib m w (
        if above
        then (if r.passed then (ok r, after) else (ok r, (m, w)))
        else (ok (refusal Reason.sequence_too_low), (m, w)))
settled lib m w false r after v u = (refusal Reason.sequence_too_low, refl, v, inr refl)
settled lib m w true r after v u = elim (Bool-cases r.passed) [
  | inl passed ↦ simp passed (r, refl, u, inl passed)
  | inr failed ↦ simp failed (r, refl, v, inr refl)
]

module _ {W : Type 0} (lib : Bitcoinx) (notify : Observers W) where
  -- The branches of `admit`.
  admit_known :
      (tx : Tx) (m : Mempool) (w : W) {e : MempoolEntry}
      → lookup (lib.tx_hash tx) m.entries ≡ some e
      → admit lib notify tx (m, w) ≡ (ok already, (m, w))
  unfolding admit
  admit_known tx m w found = ground (arith, found)

  pub admit_unopposed :
      (tx : Tx) (m : Mempool) (w : W)
      → lookup (lib.tx_hash tx) m.entries ≡ none
      → conflicts (lib.tx_hash tx) tx.inputs m.spent_by ≡ []
      → admit lib notify tx (m, w) ≡ admit_straight lib notify tx (m, w)
  unfolding admit
  admit_unopposed tx m w fresh none_found = ground (arith, fresh, none_found)

  pub admit_opposed :
      (tx : Tx) (m : Mempool) (w : W) {old : Hash}
      → lookup (lib.tx_hash tx) m.entries ≡ none
      → conflicts (lib.tx_hash tx) tx.inputs m.spent_by ≡ old ∷ []
      → admit lib notify tx (m, w) ≡ admit_replacing lib notify tx old (m, w)
  unfolding admit
  admit_opposed tx m w fresh one = ground (arith, fresh, one)

  admit_many :
      (tx : Tx) (m : Mempool) (w : W) {a b : Hash} {rest : List Hash}
      → lookup (lib.tx_hash tx) m.entries ≡ none
      → conflicts (lib.tx_hash tx) tx.inputs m.spent_by ≡ a ∷ b ∷ rest
      → admit lib notify tx (m, w) ≡ (ok (refusal Reason.multi_conflict), (m, w))
  unfolding admit
  admit_many tx m w fresh many = ground (arith, fresh, many)

  module _ (tame : IsTame lib notify) where
    straight-Outcome :
        (tx : Tx) (m : Mempool) (w : W)
        → Inv lib m
        → lookup (lib.tx_hash tx) m.entries ≡ none
        → conflicts (lib.tx_hash tx) tx.inputs m.spent_by ≡ []
        → AdmitOutcome lib m w (admit_straight lib notify tx (m, w))
    straight-Outcome tx m w v fresh none_found = (
      validate_tx lib m.store tx false,
      unfold admit_straight in ground arith,
      admit_straight-Inv lib notify tame tx m w v fresh none_found,
      elim (Bool-cases (validate_tx lib m.store tx false).passed) [
        | inl passed ↦ inl passed
        | inr failed ↦ inr (unfold admit_straight in ground (arith, failed))
      ],
    )

    replacing-Outcome :
        (tx : Tx) (m : Mempool) (w : W) (old : Hash)
        → Inv lib m
        → lookup (lib.tx_hash tx) m.entries ≡ none
        → conflicts (lib.tx_hash tx) tx.inputs m.spent_by ≡ old ∷ []
        → AdmitOutcome lib m w (admit_replacing lib notify tx old (m, w))
    replacing-Outcome tx m w old v fresh one =
        let (e, found) = conflict_entry lib notify tame tx m w v fresh old one in
        let r : ValidationResult = validate_tx lib m.store tx false in
        rw (admit_replacing_lem lib notify tame tx m w v fresh old one e found) (
          settled lib m w (outbids tx.inputs (old_seqs e.tx.inputs [])) r
            (notify Event.replaced tx (insert_entry lib tx r (drop_entry old e m), w)) v
            (tame.keeps Event.replaced tx (insert_entry lib tx r (drop_entry old e m)) w
              (replaced-Inv lib notify tame tx m w v fresh old one e r found)))

    -- `admit` always returns a result, keeps the index of the mempool in step with its entries, and
    -- changes nothing when the result is a refusal.
    pub admit-AdmitOutcome :
        (tx : Tx) (m : Mempool) (w : W)
        → Inv lib m
        → AdmitOutcome lib m w (admit lib notify tx (m, w))
    admit-AdmitOutcome tx m w v = elim (Option-cases (lookup (lib.tx_hash tx) m.entries)) [
      | inr (e, found) ↦ rw (admit_known tx m w found) (already, refl, v, inl refl)
      | inl fresh ↦ elim (ids-cases (conflicts (lib.tx_hash tx) tx.inputs m.spent_by)) [
        | inl none_found ↦
            rw (admit_unopposed tx m w fresh none_found)
              (straight-Outcome tx m w v fresh none_found)
        | inr (inl (old, one)) ↦
            rw (admit_opposed tx m w fresh one) (replacing-Outcome tx m w old v fresh one)
        | inr (inr (a, b, rest, many)) ↦
            rw (admit_many tx m w fresh many) (refusal Reason.multi_conflict, refl, v, inr refl)
      ]
    ]

    module _ (tx : Tx) (m : Mempool) (w : W) (v : Inv lib m)
        (fresh : lookup (lib.tx_hash tx) m.entries ≡ none) (old : Hash) (e : MempoolEntry)
        (op : Outpoint) (found : lookup old m.entries ≡ some e)
        (shared : spends op tx.inputs ≡ true) (held : spends op e.tx.inputs ≡ true)
        (only : OnlyBy old tx.inputs m.spent_by) where
      one_conflict : conflicts (lib.tx_hash tx) tx.inputs m.spent_by ≡ old ∷ []
      one_conflict =
          conflicts_only old (lib.tx_hash tx) tx.inputs m.spent_by op only shared
            (v.marked old e op found held)
            (λ same. cc (found, fresh, ap (λ x. lookup x m.entries) same))

      branch :
          let r = validate_tx lib m.store tx false in
          admit lib notify tx (m, w) ≡ (
            if outbids tx.inputs (old_seqs e.tx.inputs [])
            then (if r.passed
                then (
                  ok r,
                  notify Event.replaced tx (insert_entry lib tx r (drop_entry old e m), w),
                )
                else (ok r, (m, w)))
            else (ok (refusal Reason.sequence_too_low), (m, w)))
      branch =
          admit_opposed tx m w fresh one_conflict
          ∙ admit_replacing_lem lib notify tame tx m w v fresh old one_conflict e found

      overtaken :
          (r : ValidationResult)
          → lookup old (insert_entry lib tx r (drop_entry old e m)).entries ≡ none
      unfolding insert_entry drop_entry
      overtaken r =
          let apart : old ≢ lib.tx_hash tx =
            λ same. cc (found, fresh, ap (λ x. lookup x m.entries) same) in
          lookup-insert_ne old (lib.tx_hash tx) (entry_for tx r) (erase old m.entries) apart
          ∙ lookup-erase_self old m.entries

      placed :
          (r : ValidationResult)
          → lookup (lib.tx_hash tx) (insert_entry lib tx r (drop_entry old e m)).entries
            ≡ some (entry_for tx r)
      unfolding insert_entry drop_entry
      placed r = lookup-insert_self (lib.tx_hash tx) (entry_for tx r) (erase old m.entries)

      -- A transaction whose conflicts are all with one entry overtakes it when each input that
      -- conflicts has a higher sequence and the transaction is valid: the entry is gone, the
      -- transaction is in its place, and the observers are told.
      pub admit_overtakes :
          AllAbove tx.inputs (old_seqs e.tx.inputs [])
          → (validate_tx lib m.store tx false).passed ≡ true
          → (n : Mempool) × (admit lib notify tx (m, w)
              ≡ (ok (validate_tx lib m.store tx false), notify Event.replaced tx (n, w)))
            × (lookup old n.entries ≡ none)
            × (lookup (lib.tx_hash tx) n.entries
                ≡ some (entry_for tx (validate_tx lib m.store tx false)))
            × Inv lib n
      admit_overtakes above passed =
          let r : ValidationResult = validate_tx lib m.store tx false in
          let n : Mempool = insert_entry lib tx r (drop_entry old e m) in
          (
            n,
            branch
                ∙ ground
                    (arith, passed, AllAbove-outbids tx.inputs (old_seqs e.tx.inputs []) above),
            overtaken r,
            placed r,
            replaced-Inv lib notify tame tx m w v fresh old one_conflict e r found,
          )

      -- When one of those inputs has no higher sequence, the transaction is refused and the entry
      -- stays: an older state cannot overtake a newer one.
      pub admit_keeps :
          ¬ AllAbove tx.inputs (old_seqs e.tx.inputs [])
          → admit lib notify tx (m, w) ≡ (ok (refusal Reason.sequence_too_low), (m, w))
      admit_keeps low = elim (Bool-cases (outbids tx.inputs (old_seqs e.tx.inputs []))) [
        | inl high ↦ absurd (low (outbids-AllAbove tx.inputs (old_seqs e.tx.inputs []) high))
        | inr refused ↦ branch ∙ ground (arith, refused)
      ]
