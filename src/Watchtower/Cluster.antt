-- ===== src/Watchtower/Cluster.antt =====
-- src/channel/watchtower/cluster.py: independent watchtowers of one node.
use bonded_subsat_channel.Base.{
  ◌-◌, mem, ℕ, suc, Option, none, some, List, [], ◌∷◌, ◌++◌, map, length, Result, ok, err, Error,
  ◌>>=◌, ◌>>◌, raise_if, ltb, ◌==◌, if◌then◌else◌,
}
use bonded_subsat_channel.Base.Int.{ℤ, pos, negsuc, in_range}
use bonded_subsat_channel.Base.Dict.{Dict, insert, nat_eq, int_eq}
use bonded_subsat_channel.Accounting.Order.{range}
use bonded_subsat_channel.Base.Sums.{sum}
use bonded_subsat_channel.Chain.{Tx}
use bonded_subsat_channel.Crypto.{Crypto}
use bonded_subsat_channel.Lifecycle.{Channel, funding_txid}
use bonded_subsat_channel.Lifecycle.Closing.{sign_state_tx, forfeit_bond_tx}
use bonded_subsat_channel.Store.{Codec}
use bonded_subsat_channel.Watchtower.{WatchRecord, Tower, Watchers, register}

pub record WatcherSpec (PublicKey : Type 0) : Type 0 where
  pub pubkey : PublicKey
  pub fee_per_intervention : ℤ

module _ (c : Crypto) (codec : Codec c) where
  open c use {PrivateKey, PublicKey}
  open codec use {Text, to_hex}

  abbrev Record : Type 0
  Record = WatchRecord Text

  abbrev Towers : Type 0
  Towers = Watchers Text PublicKey

  -- `WatchCluster.of_size`; each tower registers itself as an observer
  unfoldable pub of_size : List (WatcherSpec PublicKey) → Result Towers
  of_size specs = do
    raise_if (length specs == 0) Error.cluster
    ok (record {
      towers =
          map
            (λ spec. record {
              registry = [];
              tower_pubkey = some spec.pubkey;
              interventions = 0;
              forfeits = 0;
            })
            specs;
      observers = range (length specs);
    })

  -- the loop over the offenders
  unfoldable pub presigned :
      Channel PrivateKey → WatcherSpec PublicKey → List ℤ → Dict ℤ Text → Result (Dict ℤ Text)
  presigned ch spec [] d = ok d
  presigned ch spec (o ∷ os) d = do
    (tx, _) ← forfeit_bond_tx c ch o (some spec.pubkey) spec.fee_per_intervention
    text ← to_hex tx
    presigned ch spec os (insert o text d)

  -- the texts of a record
  unfoldable pub record_texts :
      Channel PrivateKey → WatcherSpec PublicKey → Tx → List ℤ → Result (Dict ℤ Text × Text)
  record_texts ch spec current offenders = do
    forfeits ← presigned ch spec offenders []
    current_hex ← to_hex current
    ok (forfeits, current_hex)

  -- the loop over the watchers, each with its specification; an exception leaves those before it
  -- registered
  unfoldable pub register_each :
      Channel PrivateKey
      → Tx
      → List ℤ
      → List (WatcherSpec PublicKey)
      → List (Tower Text PublicKey)
      → Result (Unit {0}) × List (Tower Text PublicKey)
  register_each ch current offenders [] towers = (ok tt, towers)
  register_each ch current offenders (spec ∷ specs) [] = (ok tt, [])
  register_each ch current offenders (spec ∷ specs) (t ∷ ts) =
      elim (record_texts ch spec current offenders) [
        | err e ↦ (err e, t ∷ ts)
        | ok (forfeits, text) ↦
            let r : Record = record {
              channel_id = funding_txid c ch;
              current_state_tx_hex = text;
              forfeit_tx_hex_by_owner = forfeits;
              horizon = ch.cfg.l0;
            } in
            let (answer, rest) = register_each ch current offenders specs ts in
            (answer, record t { registry = register c codec r t.registry } ∷ rest)
      ]

  unfoldable pub register_channel :
      Channel PrivateKey
      → List (WatcherSpec PublicKey)
      → List ℤ
      → Towers
      → Result (Unit {0}) × Towers
  register_channel ch specs offenders w =
      if length specs == length w.towers
      then elim (sign_state_tx c ch ch.state) [
        | err e ↦ (err e, w)
        | ok signed ↦
            let (answer, towers) = register_each ch signed.0 offenders specs w.towers in
            (answer, record w { towers = towers })
      ]
      else (err Error.cluster, w)

  unfoldable pub total_interventions : Towers → ℕ
  total_interventions w = sum (map (λ t. t.interventions) w.towers)

  unfoldable pub total_forfeits : Towers → ℕ
  total_forfeits w = sum (map (λ t. t.forfeits) w.towers)

  -- `list.remove`, with the `except` clause around it
  unfoldable pub remove_first : ℕ → List ℕ → List ℕ
  remove_first j [] = []
  remove_first j (k ∷ ks) = let rest = remove_first j ks in if j == k then ks else k ∷ rest

  unfoldable pub disable : List ℤ → Towers → Result (Unit {0}) × Towers
  disable [] w = (ok tt, w)
  disable (i ∷ is) w = elim (in_range Error.cluster (length w.towers) i) [
    | err e ↦ (err e, w)
    | ok j ↦ disable is (record w { observers = remove_first j w.observers })
  ]

  -- `self.watchers[i]`, where a negative index counts from the end
  unfoldable pub watcher_at : ℕ → ℤ → Option ℕ
  watcher_at n (pos i) = if ltb i n then some i else none
  watcher_at n (negsuc i) = if ltb i n then some (n - suc i) else none

  unfoldable pub enable : List ℤ → Towers → Result (Unit {0}) × Towers
  enable [] w = (ok tt, w)
  enable (i ∷ is) w = elim (watcher_at (length w.towers) i) [
    | none ↦ (err Error.index_error, w)
    | some j ↦
        enable is (if mem j w.observers then w else record w { observers = w.observers ++ j ∷ [] })
  ]
