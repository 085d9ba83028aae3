-- ===== src/Manager.antt =====
-- src/channel/runtime/manager.py: channels by the hash of their funding transaction, their locks,
-- and calls of concurrent threads. A method returns its result, or the exception that it raises,
-- with the manager that it leaves. `_locks` gets its key with `channels`, under the lock of the
-- registry, so the keys of `channels` stand for both.
pub mod Safety
pub mod Late
use bonded_subsat_channel.Base.{
  ℕ, ◌≡◌, Bool, true, false, none, some, List, [], ◌∷◌, ◌++◌, Result, ok, err, Error, ◌>>=◌,
  or_raise, ◌==◌, if◌then◌else◌,
}
use bonded_subsat_channel.Base.Int.{ℤ}
use bonded_subsat_channel.Base.Dict.{Dict, lookup, insert, contains, nat_eq}
use bonded_subsat_channel.Chain.{Hash, Tx, TxOutput}
use bonded_subsat_channel.Crypto.{Crypto}
use bonded_subsat_channel.Lifecycle.{Channel, funding_txid}
use bonded_subsat_channel.Lifecycle
use bonded_subsat_channel.Lifecycle.Closing
use bonded_subsat_channel.Store.{SystemStore, Codec, persist_channel}

-- `closed_channels` is the list of its elements
pub record ChannelManager (K Text : Type 0) : Type 0 where
  pub store : SystemStore Text
  pub channels : Dict Hash (Channel K)
  pub closed_channels : List Hash

-- `x in s` and `s.add(x)`
unfoldable pub is_in : Hash → List Hash → Bool
is_in x [] = false
is_in x (y ∷ ys) = let rest = is_in x ys in if x == y then true else rest

unfoldable pub put_in : Hash → List Hash → List Hash
put_in x xs = if is_in x xs then xs else x ∷ xs

module _ (c : Crypto) (codec : Codec c) where
  open c use {PrivateKey}
  open codec use {Text}

  abbrev Chan : Type 0
  Chan = Channel PrivateKey

  abbrev Manager : Type 0
  Manager = ChannelManager PrivateKey Text

  -- `persist_channel(self.store, ch)`, and the result of the method behind it
  unfoldable pub persisted {ℓ} : {A : Type ℓ} → Manager → Chan → A → Result A × Manager
  persisted m ch result =
      let (answer, store) = persist_channel c codec m.store ch in
      (answer >>= λ _. ok result, record m { store = store })

  -- the part of `add` under the lock of the registry
  unfoldable pub registered : Manager → Chan → Result Hash × Manager
  registered m ch =
      let id = funding_txid c ch in
      if contains id m.channels
      then (err Error.manager, m)
      else (ok id, record m { channels = insert id ch m.channels })

  unfoldable pub add : Manager → Chan → Result Hash × Manager
  add m ch =
      let (answer, after) = registered m ch in
      elim answer [ err e ↦ (err e, after) | ok id ↦ persisted after ch id ]

  unfoldable pub get : Manager → Hash → Result Chan
  get m id = or_raise (lookup id m.channels) Error.manager

  -- `with self.locked(channel_id) as ch`
  unfoldable pub locked {ℓ} :
      {A : Type ℓ} → Manager → Hash → (Chan → Result A × Manager) → Result A × Manager
  locked m id body = elim (lookup id m.channels) [
    | none ↦ (err Error.manager, m)
    | some ch ↦ body ch
  ]

  -- the body of `apply_transfer` under the lock
  unfoldable pub transfer_locked : Manager → Hash → ℤ → ℤ → ℤ → Chan → Result ℕ × Manager
  transfer_locked m id sender recipient delta ch =
      elim (Lifecycle.apply_transfer c ch sender recipient delta) [
        | err e ↦ (err e, m)
        | ok next ↦
            persisted (record m { channels = insert id next m.channels }) next next.state.version
      ]

  unfoldable pub apply_transfer : Manager → Hash → ℤ → ℤ → ℤ → Result ℕ × Manager
  apply_transfer m id sender recipient delta =
      if is_in id m.closed_channels
      then (err Error.state, m)
      else locked m id (transfer_locked m id sender recipient delta)

  -- the body of `cooperative_close` under the lock
  unfoldable pub close_locked : Manager → Hash → Chan → Result (Tx × List TxOutput) × Manager
  close_locked m id ch =
      if is_in id m.closed_channels
      then (err Error.state, m)
      else elim (Lifecycle.Closing.cooperative_close c ch none) [
        | err e ↦ (err e, m)
        | ok result ↦
            persisted (record m { closed_channels = put_in id m.closed_channels }) ch result
      ]

  unfoldable pub cooperative_close : Manager → Hash → Result (Tx × List TxOutput) × Manager
  cooperative_close m id = locked m id (close_locked m id)

  -- a call of `apply_transfer` that has passed its test and does not hold the lock yet
  pub record Pending : Type 0 where
    pub channel_id : Hash
    pub sender : ℤ
    pub recipient : ℤ
    pub delta : ℤ

  pub record World : Type 0 where
    pub manager : Manager
    pub pending : List Pending

  -- A step of a thread: what runs under a lock is one step, `add` registers a channel of any state
  -- under the lock of the registry and writes it to the store in a later step, when the channel may
  -- have moved on, and `apply_transfer` tests `closed_channels` in a step before the one under the
  -- lock. A write is a step at any time for any channel of the manager, which allows more orders than
  -- the code has.
  pub data Step : World → World → Type 0 where
    registers :
        (w : World) (ch : Chan) → Step w (record w { manager = (registered w.manager ch).1 })
    writes :
        (w : World) (id : Hash) (ch : Chan)
        → lookup id w.manager.channels ≡ some ch
        → Step w (record w { manager = (persisted w.manager ch id).1 })
    passes :
        (w : World) (p : Pending)
        → is_in p.channel_id w.manager.closed_channels ≡ false
        → Step w (record w { pending = p ∷ w.pending })
    commits :
        (w : World) (before after : List Pending) (p : Pending)
        → w.pending ≡ before ++ (p ∷ after)
        → Step w (record {
          manager =
              (locked w.manager p.channel_id
                (transfer_locked w.manager p.channel_id p.sender p.recipient p.delta)).1;
          pending = before ++ after;
        })
    closes :
        (w : World) (id : Hash) → Step w (record w { manager = (cooperative_close w.manager id).1 })

  pub data Steps : World → World → Type 0 where
    done : (w : World) → Steps w w
    then_step : (u v w : World) → Steps u v → Step v w → Steps u w
