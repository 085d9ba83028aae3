-- ===== src/Manager/Late.antt =====
-- The order of a transfer and a close of one channel in src/channel/runtime/manager.py.
use mathlib.Core.Path.{subst}
use bonded_subsat_channel.Base.{
  ℕ, ◌≡◌, refl, true, false, none, some, List, [], ◌∷◌, Result, ok, err, Error, ◌>>=◌,
}
use bonded_subsat_channel.Base.Int.{ℤ}
use bonded_subsat_channel.Base.Dict.{lookup, insert, nat_eq, lookup-insert_self}
use bonded_subsat_channel.Accounting.{State, transfer}
use bonded_subsat_channel.Chain.{Hash, Tx, TxOutput}
use bonded_subsat_channel.Crypto.{Crypto}
use bonded_subsat_channel.Lifecycle.{Channel}
use bonded_subsat_channel.Lifecycle
use bonded_subsat_channel.Lifecycle.Closing
use bonded_subsat_channel.Store.{SystemStore, Codec, persist_channel}
use bonded_subsat_channel.Manager.{
  ChannelManager, is_in, put_in, persisted, apply_transfer, locked, transfer_locked, close_locked,
  cooperative_close, World, Pending, Step, passes, commits, closes, Steps, done, then_step,
}
use bonded_subsat_channel.Manager.Safety.{is_in-put_in_self, AllConserved, Steps-Keeps}

module _ (c : Crypto) (codec : Codec c) where
  open c use {PrivateKey}
  open codec use {Text}

  abbrev Chan : Type 0
  Chan = Channel PrivateKey

  abbrev Manager : Type 0
  Manager = ChannelManager PrivateKey Text

  closed_refuses :
      (m : Manager) (id : Hash) (ch : Chan)
      → lookup id m.channels ≡ some ch
      → is_in id m.closed_channels ≡ true
      → cooperative_close c codec m id ≡ (err Error.state, m)
  unfolding cooperative_close locked close_locked
  closed_refuses m id ch there shut = rw (cooperative_close, locked, close_locked, there, shut)

  -- From a manager whose channels are conserved, once a channel is closed there is no later point,
  -- however the calls interleave, at which `cooperative_close` or `apply_transfer` of it, called
  -- from its start, does more than raise `StateError` and leave the manager as it was.
  pub closed_for_good :
      {u w : World c codec} (id : Hash) (ch : Chan) (a b d : ℤ)
      → AllConserved c codec u.manager
      → lookup id u.manager.channels ≡ some ch
      → is_in id u.manager.closed_channels ≡ true
      → Steps c codec u w
      → (cooperative_close c codec w.manager id ≡ (err Error.state, w.manager))
        × (apply_transfer c codec w.manager id a b d ≡ (err Error.state, w.manager))
  unfolding apply_transfer
  closed_for_good {u} {w} id ch a b d all there shut steps =
      let k = Steps-Keeps c codec steps in
      let (next, here, _, _) = k.stays id ch there (all id ch there) in
      let still = k.closed id shut in
      (closed_refuses w.manager id next here still, rw (apply_transfer, still))

  module _ (m : Manager) (id : Hash) (ch : Chan) (there : lookup id m.channels ≡ some ch) where
    close_goes :
        {result : Tx × List TxOutput}
        → (persist_channel c codec m.store ch).0 ≡ ok tt
        → is_in id m.closed_channels ≡ false
        → Lifecycle.Closing.cooperative_close c ch none ≡ ok result
        → (v : Manager) × (cooperative_close c codec m id ≡ (ok result, v))
          × (v.channels ≡ m.channels)
          × (is_in id v.closed_channels ≡ true)
    unfolding cooperative_close locked close_locked persisted
    close_goes saves still e = (
      record m {
        closed_channels = put_in id m.closed_channels;
        store = (persist_channel c codec m.store ch).1;
      },
      rw (cooperative_close, locked, close_locked, there, still, e, persisted, saves),
      refl,
      is_in-put_in_self id m.closed_channels,
    )

    transfer_goes :
        (a b d : ℤ) {s : State}
        → transfer ch.state a b d ch.cfg ≡ ok s
        → (store : SystemStore Text) × (answer : Result ℕ) × (locked c codec m id
              (transfer_locked c codec m id a b d)
            ≡ (
              answer,
              record m { channels = insert id (record ch { state = s }) m.channels; store = store },
            ))
    unfolding locked transfer_locked Lifecycle.apply_transfer persisted
    transfer_goes a b d {s} e = (
      (persist_channel c codec m.store (record ch { state = s })).1,
      (persist_channel c codec m.store (record ch { state = s })).0 >>= λ _. ok s.version,
      rw (locked, transfer_locked, there, Lifecycle.apply_transfer, e, persisted),
    )

  -- A transfer that has passed its test of `closed_channels` commits behind the close: on a funded
  -- channel of the manager that is not closed, that can be closed and written to the store, and on
  -- which the transfer is acceptable, calls interleave such that the close returns the transaction
  -- of the earlier state, and then the transfer puts its new state into the closed channel.
  pub late_transfer_commits :
      (m : Manager) (id : Hash) (ch : Chan) (a b d : ℤ) {s : State} {result : Tx × List TxOutput}
      → lookup id m.channels ≡ some ch
      → is_in id m.closed_channels ≡ false
      → (persist_channel c codec m.store ch).0 ≡ ok tt
      → Lifecycle.Closing.cooperative_close c ch none ≡ ok result
      → transfer ch.state a b d ch.cfg ≡ ok s
      → (v : Manager) × (n : Manager) × (p : Pending c codec) × (cooperative_close c codec m id
          ≡ (ok result, v))
        × (is_in id v.closed_channels ≡ true)
        × Steps c codec
            (record { manager = m; pending = [] })
            (record { manager = v; pending = p ∷ [] })
        × Step c codec
            (record { manager = v; pending = p ∷ [] })
            (record { manager = n; pending = [] })
        × (lookup id n.channels ≡ some (record ch { state = s }))
  late_transfer_commits m id ch a b d {s} there still saves e t =
      let p : Pending c codec = record { channel_id = id; sender = a; recipient = b; delta = d } in
      let u : World c codec = record { manager = m; pending = [] } in
      let u' : World c codec = record { manager = m; pending = p ∷ [] } in
      let (v, shuts, same, shut) = close_goes m id ch there saves still e in
      let w : World c codec = record { manager = v; pending = p ∷ [] } in
      let kept : lookup id v.channels ≡ some ch = rw same there in
      let (store, answer, goes) = transfer_goes v id ch kept a b d t in
      (
        v,
        record v { channels = insert id (record ch { state = s }) v.channels; store = store },
        p,
        shuts,
        shut,
        then_step u u' w (then_step u u u' (done u) (passes u p still)) (
            subst
              (λ (x : Result (Tx × List TxOutput) × Manager).
                Step c codec u' (record { manager = x.1; pending = p ∷ [] }))
              shuts (closes u' id)),
        subst (λ (x : Result ℕ × Manager). Step c codec w (record { manager = x.1; pending = [] }))
            goes (commits w [] [] p refl),
        lookup-insert_self id (record ch { state = s }) v.channels,
      )
