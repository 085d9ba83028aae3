-- ===== src/Watchtower/Liveness.antt =====
-- A watchtower of src/channel/watchtower/tower.py against an old state in the mempool.
use bonded_subsat_channel.Base.{
  ℕ, suc, ◌≡◌, ◌≢◌, ◌<◌, ◌∙◌, refl, ap, true, false, none, some, [], ◌∷◌, Result, ok, leb,
  if◌then◌else◌, arith,
}
use bonded_subsat_channel.Base.Dict.{
  lookup, nat_eq, outpoint_eq, lookup-insert_self, lookup-insert_ne,
}
use bonded_subsat_channel.Chain.{Hash, Tx, TxInput}
use bonded_subsat_channel.Crypto.{Crypto}
use bonded_subsat_channel.Lifecycle.Versions.{sequence_for_version_mono}
use bonded_subsat_channel.Node.Validation.{ValidationResult, validate_tx}
use bonded_subsat_channel.Node.Mempool.{
  Mempool, MempoolEntry, Event, admit, admit_straight, conflicts, insert_entry, entry_for,
}
use bonded_subsat_channel.Node.Mempool.Invariant.{Inv}
use bonded_subsat_channel.Node.Mempool.Admit.{IsTame, no_conflict-free}
use bonded_subsat_channel.Node.Mempool.Evict.{insert_entry-Inv}
use bonded_subsat_channel.Node.Mempool.Replace.{admit_unopposed}
use bonded_subsat_channel.Node.Mempool.States.{SettlesAt, later_state_overtakes}
use bonded_subsat_channel.Store.{Codec}
use bonded_subsat_channel.Watchtower.{
  WatchRecord, Watchers, Tower, Seen, stale, current_state_tx, to_rebroadcast, intervened,
  observe_inputs, observe, observe_all, notify, submit_tx,
}
use bonded_subsat_channel.Watchtower.Observers.{notify-IsTame}

module _ (c : Crypto) (codec : Codec c) where
  open c use {lib, PublicKey}
  open codec use {Text, from_hex}

  -- The record of the tower for the channel holds the state transaction `current`.
  pub record Guards (tower : Tower Text PublicKey) (funding : Hash) (current : Tx) : Type 0 where
    pub entry : WatchRecord Text
    pub registered : lookup funding tower.registry ≡ some entry
    pub decoded : from_hex entry.current_state_tx_hex ≡ ok current

  -- the watchers of a node that one tower observes
  abbrev pub lone : Tower Text PublicKey → Watchers Text PublicKey
  lone tower = record { towers = tower ∷ []; observers = 0 ∷ [] }

  -- the tower once it has intervened
  abbrev pub intervened_once : Tower Text PublicKey → Tower Text PublicKey
  intervened_once tower = record tower { interventions = suc tower.interventions }

  module _ (tower : Tower Text PublicKey) (funding : Hash) (current : Tx)
      (g : Guards tower funding current) (next : ℕ) (is : SettlesAt current funding next) where
    seen :
        (t : TxInput)
        → t.prev_hash ≡ funding
        → t.prev_idx ≡ 0
        → to_rebroadcast c codec tower.registry t
          ≡ ok (if leb is.sequence t.sequence then none else some current)
    unfolding to_rebroadcast stale current_state_tx
    seen t e z = rw (z, e, g.registered, g.decoded, is.only_input)

    -- a state of the channel that is not older leaves the tower still
    content :
        (submit : Tx → Seen c codec → Result ValidationResult × Seen c codec) (m : Mempool)
        → observe_all c codec submit (0 ∷ []) Event.replaced current (m, lone tower)
          ≡ (m, lone tower)
    unfolding observe_all observe observe_inputs
    content submit m =
        let t : TxInput = record {
          prev_hash = funding;
          prev_idx = 0;
          script_sig = is.script_sig;
          sequence = is.sequence;
        } in
        let level : leb is.sequence is.sequence ≡ true = ground arith in
        rw (is.only_input, observe_inputs, seen t refl refl, level)

    -- an older state has the tower submit its own, and count that when it passes
    acts :
        (submit : Tx → Seen c codec → Result ValidationResult × Seen c codec) (t : TxInput)
        (m n : Mempool) (r : ValidationResult)
        → t.prev_hash ≡ funding
        → t.prev_idx ≡ 0
        → t.sequence < is.sequence
        → submit current (m, lone tower) ≡ (ok r, (n, lone tower))
        → r.passed ≡ true
        → observe_inputs c codec submit 0 (t ∷ []) (m, lone tower)
          ≡ (n, lone (intervened_once tower))
    unfolding observe_inputs intervened
    acts submit t m n r e z lt answer passed =
        let below : leb is.sequence t.sequence ≡ false = ground (arith, lt) in
        rw (observe_inputs, seen t e z, below, answer, passed)
          (ap (λ x. (x.1.0, intervened c codec 0 x.1.1)) answer)

    still_content :
        (fuel : ℕ) (m : Mempool)
        → notify c codec (suc fuel) Event.replaced current (m, lone tower) ≡ (m, lone tower)
    unfolding notify
    still_content fuel m = content (admit lib (notify c codec fuel)) m

    roused :
        (fuel : ℕ) (old_tx : Tx) (held : ℕ) (was : SettlesAt old_tx funding held) (m n : Mempool)
        (r : ValidationResult)
        → held < next
        → submit_tx c codec fuel current (m, lone tower) ≡ (ok r, (n, lone tower))
        → r.passed ≡ true
        → notify c codec (suc fuel) Event.admitted old_tx (m, lone tower)
          ≡ (n, lone (intervened_once tower))
    unfolding notify observe_all observe submit_tx
    roused fuel old_tx held was m n r lt answer passed =
        let t : TxInput = record {
          prev_hash = funding;
          prev_idx = 0;
          script_sig = was.script_sig;
          sequence = was.sequence;
        } in
        rw was.only_input (
          acts (submit_tx c codec fuel) t m n r refl refl
            (sequence_for_version_mono held next lt was.encoded is.encoded) answer passed)

    module _ (old_tx : Tx) (held : ℕ) (was : SettlesAt old_tx funding held) (m : Mempool)
        (v : Inv lib m) (fresh : lookup (lib.tx_hash old_tx) m.entries ≡ none)
        (free : conflicts (lib.tx_hash old_tx) old_tx.inputs m.spent_by ≡ [])
        (absent : lookup (lib.tx_hash current) m.entries ≡ none)
        (apart : lib.tx_hash current ≢ lib.tx_hash old_tx) where
      -- the mempool that the admission of the old state hands to the tower
      abbrev with_old : Mempool
      with_old = insert_entry lib old_tx (validate_tx lib m.store old_tx false) m

      straight :
          (fuel : ℕ)
          → (validate_tx lib m.store old_tx false).passed ≡ true
          → admit_straight lib (notify c codec (suc (suc fuel))) old_tx (m, lone tower) ≡ (
            ok (validate_tx lib m.store old_tx false),
            notify c codec (suc (suc fuel)) Event.admitted old_tx (with_old, lone tower),
          )
      unfolding admit_straight
      straight fuel passed = rw (admit_straight, passed)

      -- In a mempool that the tower observes and that no entry conflicts with it, the admission of
      -- a valid state transaction of a version below that of the tower's record ends with the old
      -- state gone, the state of the record in its place when that is valid, and one intervention
      -- more, however much fuel beyond two levels of notifications is given.
      pub tower_overtakes :
          (fuel : ℕ)
          → held < next
          → (validate_tx lib m.store old_tx false).passed ≡ true
          → (validate_tx lib m.store current false).passed ≡ true
          → (n : Mempool) × (submit_tx c codec (suc (suc fuel)) old_tx (m, lone tower)
              ≡ (ok (validate_tx lib m.store old_tx false), (n, lone (intervened_once tower))))
            × (lookup (lib.tx_hash old_tx) n.entries ≡ none)
            × (lookup (lib.tx_hash current) n.entries
                ≡ some (entry_for current (validate_tx lib m.store current false)))
            × Inv lib n
      unfolding submit_tx insert_entry
      tower_overtakes fuel lt passed fine =
          let r : ValidationResult = validate_tx lib m.store old_tx false in
          let fresh_result : ValidationResult = validate_tx lib m.store current false in
          let e : MempoolEntry = entry_for old_tx r in
          let tame : IsTame lib (notify c codec (suc fuel)) = notify-IsTame c codec (suc fuel) in
          let w = lone tower in
          let v1 : Inv lib with_old =
            insert_entry-Inv lib m v old_tx r fresh
              (no_conflict-free lib (notify c codec (suc fuel)) tame old_tx m w v fresh free) in
          let found : lookup (lib.tx_hash old_tx) with_old.entries ≡ some e =
            lookup-insert_self (lib.tx_hash old_tx) e m.entries in
          let absent1 : lookup (lib.tx_hash current) with_old.entries ≡ none =
            lookup-insert_ne (lib.tx_hash current) (lib.tx_hash old_tx) e m.entries apart
            ∙ absent in
          let (n, replaces, gone, placed, inv) =
            later_state_overtakes lib (notify c codec (suc fuel)) tame current with_old w v1 absent1
              (lib.tx_hash old_tx) e found funding held next was is lt fine in
          let answer : submit_tx c codec (suc fuel) current (with_old, w)
              ≡ (ok fresh_result, (n, w)) =
            replaces ∙ ap (λ s. (ok fresh_result, s)) (still_content fuel n) in
          (
            n,
            admit_unopposed lib (notify c codec (suc (suc fuel))) old_tx m w fresh free
                ∙ straight fuel passed
                ∙ ap (λ s. (ok r, s))
                    (roused (suc fuel) old_tx held was with_old n fresh_result lt answer fine),
            gone,
            placed,
            inv,
          )
