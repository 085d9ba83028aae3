-- ===== src/Watchtower.antt =====
-- src/channel/watchtower/registry.py and tower.py: watchtowers as observers of the mempool. The
-- observers of a node are the towers of the list `towers` at the positions `observers`, in order;
-- `on_intervention`, a callback for display, is left out, and so is the file of a registry.
pub mod Cluster
pub mod Observers
pub mod Liveness
use bonded_subsat_channel.Base.{
  ℕ, zero, suc, Option, none, some, List, [], ◌∷◌, get_elem?, Result, ok, err, Error, ◌>>=◌, ◌>>◌,
  or_raise, leb, ◌==◌, if◌then◌else◌, set, arith,
}
use bonded_subsat_channel.Base.Int.{ℤ}
use bonded_subsat_channel.Base.Dict.{Dict, lookup, insert, nat_eq, int_eq}
use bonded_subsat_channel.Chain.{Hash, Tx, TxInput}
use bonded_subsat_channel.Crypto.{Crypto}
use bonded_subsat_channel.Node.Validation.{ValidationResult}
use bonded_subsat_channel.Node.Mempool.{Mempool, Event, admit}
use bonded_subsat_channel.Store.{Codec}

pub record WatchRecord (Text : Type 0) : Type 0 where
  pub channel_id : Hash
  pub current_state_tx_hex : Text
  pub forfeit_tx_hex_by_owner : Dict ℤ Text
  pub horizon : ℕ

abbrev pub Registry : Type 0 → Type 0
Registry Text = Dict Hash (WatchRecord Text)

pub record Tower (Text PublicKey : Type 0) : Type 0 where
  pub registry : Registry Text
  pub tower_pubkey : Option PublicKey
  pub interventions : ℕ
  pub forfeits : ℕ

-- the towers that are bound to one node, and those of them that observe its mempool
pub record Watchers (Text PublicKey : Type 0) : Type 0 where
  pub towers : List (Tower Text PublicKey)
  pub observers : List ℕ

module _ (c : Crypto) (codec : Codec c) where
  open c use {lib, PublicKey}
  open codec use {Text, from_hex}

  abbrev Record : Type 0
  Record = WatchRecord Text

  abbrev Towers : Type 0
  Towers = Watchers Text PublicKey

  abbrev pub Seen : Type 0
  Seen = Mempool × Towers

  unfoldable pub current_state_tx : Record → Result Tx
  current_state_tx r = from_hex r.current_state_tx_hex

  unfoldable pub forfeit_tx_for : Record → ℤ → Result Tx
  forfeit_tx_for r owner = do
    text ← or_raise (lookup owner r.forfeit_tx_hex_by_owner) Error.registry
    from_hex text

  -- `Registry.register` and `Registry.update`
  unfoldable pub register : Record → Registry Text → Registry Text
  register r records = insert r.channel_id r records

  -- the current state if it has a higher sequence than the input; a transaction with no input raises
  unfoldable pub stale : Record → TxInput → Result (Option Tx)
  stale r t = do
    current ← current_state_tx r
    first ← or_raise (get_elem? current.inputs 0) Error.index_error
    ok (if leb first.sequence t.sequence then none else some current)

  -- the tests of a round of the loop in `_observe`
  unfoldable pub to_rebroadcast : Registry Text → TxInput → Result (Option Tx)
  to_rebroadcast records t =
      if t.prev_idx == 0
      then elim (lookup t.prev_hash records) [ none ↦ ok none | some r ↦ stale r t ]
      else ok none

  -- `self.interventions += 1` of the tower at position `j`
  unfoldable pub intervened : ℕ → Towers → Towers
  intervened j w = elim (get_elem? w.towers j) [
    | none ↦ w
    | some t ↦ record w {
      towers = set w.towers j (record t { interventions = suc t.interventions });
    }
  ]

  module _ (submit_tx : Tx → Seen → Result ValidationResult × Seen) where
    -- the loop of `_observe` over the inputs, for the tower at position `j`; an exception ends it,
    -- and `_notify` catches it
    unfoldable pub observe_inputs : ℕ → List TxInput → Seen → Seen
    observe_inputs j [] s = s
    observe_inputs j (t ∷ ts) s = elim (get_elem? s.1.towers j) [
      | none ↦ s
      | some tower ↦ elim (to_rebroadcast tower.registry t) [
        | err _ ↦ s
        | ok found ↦ elim found [
          | none ↦ observe_inputs j ts s
          | some current ↦
              let (answer, after) = submit_tx current s in
              elim answer [
                | err _ ↦ after
                | ok result ↦
                    observe_inputs j ts
                      (after.0, if result.passed then intervened j after.1 else after.1)
              ]
        ]
      ]
    ]

    -- `_observe`
    unfoldable pub observe : ℕ → Event → Tx → Seen → Seen
    observe j Event.admitted tx s = observe_inputs j tx.inputs s
    observe j Event.replaced tx s = observe_inputs j tx.inputs s
    observe j Event.evicted tx s = s

    -- `Mempool._notify`
    unfoldable pub observe_all : List ℕ → Event → Tx → Seen → Seen
    observe_all [] ev tx s = s
    observe_all (j ∷ js) ev tx s = observe_all js ev tx (observe j ev tx s)

  -- The observers of a mempool whose `submit_tx` notifies them again, nested at most as deep as the
  -- fuel.
  unfoldable pub notify : ℕ → Event → Tx → Seen → Seen
  notify zero ev tx s = s
  notify (suc fuel) ev tx s = observe_all (admit lib (notify fuel)) s.1.observers ev tx s

  unfoldable pub submit_tx : ℕ → Tx → Seen → Result ValidationResult × Seen
  submit_tx fuel tx s = admit lib (notify fuel) tx s

  -- `Tower.forfeit_offender_bond` of the tower at position `j`
  unfoldable pub forfeited : ℕ → Towers → Towers
  forfeited j w = elim (get_elem? w.towers j) [
    | none ↦ w
    | some t ↦ record w { towers = set w.towers j (record t { forfeits = suc t.forfeits }) }
  ]

  unfoldable pub forfeit_offender_bond : ℕ → ℕ → Hash → ℤ → Seen → Result ValidationResult × Seen
  forfeit_offender_bond fuel j channel_id offender s =
      let tx = (do
        tower ← or_raise (get_elem? s.1.towers j) Error.index_error
        r ← or_raise (lookup channel_id tower.registry) Error.tower
        forfeit_tx_for r offender) in
      elim tx [
        | err e ↦ (err e, s)
        | ok found ↦
            let (answer, after) = submit_tx fuel found s in
            elim answer [
              | err e ↦ (err e, after)
              | ok result ↦
                  (ok result, (after.0, if result.passed then forfeited j after.1 else after.1))
            ]
      ]
