-- ===== src/Node/Mempool/Evict.antt =====
-- Taking an entry out of the mempool and putting one in (src/channel/node/mempool.py,
-- `_evict_internal` and `_insert`).
use bonded_subsat_channel.Base.{
  ◌≡◌, ◌≢◌, ap, ◌∙◌, inl, inr, true, none, some, arith, ◌==◌, Bool-cases,
}
use bonded_subsat_channel.Base.Dict.{
  lookup, outpoint_eq, nat_eq, lookup-insert, lookup-erase, lookup-erase_ne, lookup-insert_ne,
}
use bonded_subsat_channel.Chain.{Hash, Outpoint, Tx, Bitcoinx}
use bonded_subsat_channel.Node.Validation.{ValidationResult}
use bonded_subsat_channel.Node.Mempool.{Mempool, MempoolEntry, entry_for, insert_entry, drop_entry}
use bonded_subsat_channel.Node.Mempool.Invariant.{Inv, spends, lookup-mark_spent, lookup-unmark}

module _ (lib : Bitcoinx) (m : Mempool) (v : Inv lib m) where
  module _ (txid : Hash) (e : MempoolEntry) (here : lookup txid m.entries ≡ some e) where
    -- No mark of the transaction is left.
    pub drop_entry-unmarked : (op : Outpoint) → lookup op (drop_entry txid e m).spent_by ≢ some txid
    unfolding drop_entry
    drop_entry-unmarked op h = elim (Bool-cases (spends op e.tx.inputs)) [
      | inl spent ↦ ground (arith, spent, h, lookup-unmark op e.tx.inputs txid m.spent_by)
      | inr other ↦
          let was : lookup op m.spent_by ≡ some txid =
            ground (arith, other, h, lookup-unmark op e.tx.inputs txid m.spent_by) in
          let (f, found, spent) = v.owned op txid was in ground (arith, other, here, found, spent)
    ]

    pub drop_entry-Inv : Inv lib (drop_entry txid e m)
    unfolding drop_entry
    drop_entry-Inv = record {
      hashed = λ t f h. v.hashed t f (ground (arith, h, lookup-erase t txid m.entries));
      marked = λ t f op h s. ground (
        arith,
        h,
        lookup-erase t txid m.entries,
        v.marked t f op (ground (arith, h, lookup-erase t txid m.entries)) s,
        lookup-unmark op e.tx.inputs txid m.spent_by,
      );
      owned = λ op t h.
          let was : lookup op m.spent_by ≡ some t =
            ground (arith, h, lookup-unmark op e.tx.inputs txid m.spent_by) in
          let (f, found, spent) = v.owned op t was in
          let apart : t ≢ txid = λ same. drop_entry-unmarked op (h ∙ ap some same) in
          (f, lookup-erase_ne t txid m.entries apart ∙ found, spent);
    }

  module _ (tx : Tx) (result : ValidationResult) (fresh : lookup (lib.tx_hash tx) m.entries ≡ none)
      (free : (op : Outpoint) → spends op tx.inputs ≡ true → lookup op m.spent_by ≡ none) where
    pub insert_entry-Inv : Inv lib (insert_entry lib tx result m)
    unfolding insert_entry
    insert_entry-Inv =
        let txid : Hash = lib.tx_hash tx in
        let new : MempoolEntry = entry_for tx result in
        record {
          hashed = λ t f h. elim (Bool-cases (t == txid)) [
            | inl same ↦ ground (arith, h, same, lookup-insert t txid new m.entries)
            | inr other ↦
                v.hashed t f (ground (arith, h, other, lookup-insert t txid new m.entries))
          ];
          marked = λ t f op h s. elim (Bool-cases (t == txid)) [
            | inl same ↦ ground (
              arith,
              h,
              same,
              s,
              lookup-insert t txid new m.entries,
              lookup-mark_spent op tx.inputs txid m.spent_by,
            )
            | inr other ↦
                let was =
                  v.marked t f op (ground (arith, h, other, lookup-insert t txid new m.entries))
                    s in
                elim (Bool-cases (spends op tx.inputs)) [
                  | inl taken ↦ ground (arith, was, free op taken)
                  | inr left ↦
                      ground (arith, was, left, lookup-mark_spent op tx.inputs txid m.spent_by)
                ]
          ];
          owned = λ op t h. elim (Bool-cases (spends op tx.inputs)) [
            | inl taken ↦ (
              new,
              ground (
                arith,
                h,
                taken,
                lookup-mark_spent op tx.inputs txid m.spent_by,
                lookup-insert t txid new m.entries,
              ),
              taken,
            )
            | inr left ↦
                let (f, found, spent) =
                  v.owned op t
                    (ground (arith, h, left, lookup-mark_spent op tx.inputs txid m.spent_by)) in
                let apart : t ≢ txid =
                  λ same. cc (found, fresh, ap (λ x. lookup x m.entries) same) in
                (f, lookup-insert_ne t txid new m.entries apart ∙ found, spent)
          ];
        }
