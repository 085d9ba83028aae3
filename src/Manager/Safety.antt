-- ===== src/Manager/Safety.antt =====
-- What concurrent calls of src/channel/runtime/manager.py leave of the channels.
use bonded_subsat_channel.Base.{
  ◌≤◌, ◌≡◌, ◌⊎◌, refl, inl, inr, true, false, none, some, List, ◌==◌, arith, Bool-cases,
  Option-cases, Result-cases,
}
use bonded_subsat_channel.Base.Int.{ℤ}
use bonded_subsat_channel.Base.Dict.{lookup, insert, contains, nat_eq, lookup-insert}
use bonded_subsat_channel.Accounting.{transfer}
use bonded_subsat_channel.Accounting.Conserved.{IsConserved}
use bonded_subsat_channel.Accounting.Transfers.{transfer-step}
use bonded_subsat_channel.Chain.{Hash}
use bonded_subsat_channel.Crypto.{Crypto}
use bonded_subsat_channel.Lifecycle.{Channel, funding_txid}
use bonded_subsat_channel.Lifecycle
use bonded_subsat_channel.Lifecycle.Closing
use bonded_subsat_channel.Store.{Codec, persist_channel}
use bonded_subsat_channel.Manager.{
  ChannelManager, is_in, put_in, persisted, registered, registers, writes, locked, transfer_locked,
  close_locked, cooperative_close, World, Step, passes, commits, closes, Steps, done, then_step,
}

pub is_in-put_in_self : (x : Hash) (xs : List Hash) → is_in x (put_in x xs) ≡ true
unfolding is_in put_in
is_in-put_in_self x xs = elim (Bool-cases (is_in x xs)) [
  | inl there ↦ rw there there
  | inr fresh ↦ ground (arith, fresh)
]

is_in-put_in : (x y : Hash) (xs : List Hash) → is_in x xs ≡ true → is_in x (put_in y xs) ≡ true
unfolding is_in put_in
is_in-put_in x y xs h = elim (Bool-cases (is_in y xs)) [
  | inl there ↦ rw there h
  | inr fresh ↦ ground (arith, fresh, h)
]

module _ (c : Crypto) (codec : Codec c) where
  open c use {PrivateKey}
  open codec use {Text}

  abbrev Chan : Type 0
  Chan = Channel PrivateKey

  abbrev Manager : Type 0
  Manager = ChannelManager PrivateKey Text

  abbrev pub AllConserved : Manager → Type 0
  AllConserved m =
      (id : Hash) (ch : Chan) → lookup id m.channels ≡ some ch → IsConserved ch.state ch.cfg

  -- the channel is the other one at a version that is not lower
  pub record Later (ch next : Chan) : Type 0 where
    pub same_cfg : next.cfg ≡ ch.cfg
    pub no_lower : ch.state.version ≤ next.state.version

  -- every channel at a conserved state is still there, at one whose version has not fallen, and what
  -- was closed is closed
  pub record Keeps (m n : Manager) : Type 0 where
    pub stays :
        (id : Hash) (ch : Chan)
        → lookup id m.channels ≡ some ch
        → IsConserved ch.state ch.cfg
        → (next : Chan) × (lookup id n.channels ≡ some next)
          × Later ch next
          × IsConserved next.state next.cfg
    pub closed : (id : Hash) → is_in id m.closed_channels ≡ true → is_in id n.closed_channels ≡ true

  same-Later : (ch : Chan) → Later ch ch
  same-Later ch = record { same_cfg = refl; no_lower = omega arith }

  -- Channels as they were, with more of them closed.
  same_channels-Keeps :
      (m n : Manager)
      → n.channels ≡ m.channels
      → ((id : Hash) → is_in id m.closed_channels ≡ true → is_in id n.closed_channels ≡ true)
      → Keeps m n
  same_channels-Keeps m n same more = record {
    stays = λ id ch h fine. (ch, rw same h, same-Later ch, fine);
    closed = more;
  }

  trans-Keeps : (l m n : Manager) → Keeps l m → Keeps m n → Keeps l n
  trans-Keeps l m n k j = record {
    stays = λ id ch h fine.
        let (mid, there, a, middle) = k.stays id ch h fine in
        let (next, here, b, last) = j.stays id mid there middle in
        (
          next,
          here,
          record {
            same_cfg = rw (b.same_cfg, a.same_cfg);
            no_lower = omega (arith, a.no_lower, b.no_lower);
          },
          last,
        );
    closed = λ id h. j.closed id (k.closed id h);
  }

  persisted-Keeps {ℓ} :
      {A : Type ℓ} (m : Manager) (ch : Chan) (a : A) → Keeps m (persisted c codec m ch a).1
  unfolding persisted
  persisted-Keeps m ch a =
      same_channels-Keeps m (record m { store = (persist_channel c codec m.store ch).1 }) refl
        (λ id h. h)

  -- A channel goes in over none, or over an earlier version of itself, conserved if that was.
  insert-Keeps :
      (m : Manager) (id : Hash) (next : Chan)
      → ((ch : Chan)
          → lookup id m.channels ≡ some ch
          → IsConserved ch.state ch.cfg
          → Later ch next × IsConserved next.state next.cfg)
      → Keeps m (record m { channels = insert id next m.channels })
  insert-Keeps m id next up = record {
    stays = λ k ch h fine. elim (Bool-cases (k == id)) [
      | inl same ↦
          let at : k ≡ id = ground (arith, same) in
          let (later, now) = up ch (rw at at h) fine in
          (next, ground (arith, same, lookup-insert k id next m.channels), later, now)
      | inr other ↦
          (ch, ground (arith, h, other, lookup-insert k id next m.channels), same-Later ch, fine)
    ];
    closed = λ k h. h;
  }

  transfer_locked-Keeps :
      (m : Manager) (id : Hash) (a b d : ℤ) (ch : Chan)
      → lookup id m.channels ≡ some ch
      → Keeps m (transfer_locked c codec m id a b d ch).1
  unfolding transfer_locked Lifecycle.apply_transfer
  transfer_locked-Keeps m id a b d ch there = elim (Result-cases (transfer ch.state a b d ch.cfg)) [
    | inr (raised, e) ↦
        rw (transfer_locked, Lifecycle.apply_transfer, e) (same_channels-Keeps m m refl (λ k h. h))
    | inl (s, e) ↦
        let next : Chan = record ch { state = s } in
        let put : Manager = record m { channels = insert id next m.channels } in
        let k : Keeps m put = insert-Keeps m id next (λ old h sound.
          let is : ch ≡ old = cc (h, there) in
          let (fine, up) = transfer-step ch.state ch.cfg a b d (rw is sound) e in
          (rw (← is) (record { same_cfg = refl; no_lower = omega (arith, up) }), fine)) in
        rw (transfer_locked, Lifecycle.apply_transfer, e)
          (trans-Keeps m put (persisted c codec put next s.version).1 k
            (persisted-Keeps put next s.version))
  ]

  registered-Keeps : (m : Manager) (ch : Chan) → Keeps m (registered c codec m ch).1
  unfolding registered
  registered-Keeps m ch =
      let id : Hash = funding_txid c ch in
      elim (Bool-cases (contains id m.channels)) [
        | inl there ↦ rw (registered, there) (same_channels-Keeps m m refl (λ k h. h))
        | inr fresh ↦
            rw (registered, fresh)
              (insert-Keeps m id ch
                (λ old there _. let never = rw (contains, there) at fresh in absurd (cc never)))
      ]

  cooperative_close-Keeps : (m : Manager) (id : Hash) → Keeps m (cooperative_close c codec m id).1
  unfolding cooperative_close locked close_locked
  cooperative_close-Keeps m id = elim (Option-cases (lookup id m.channels)) [
    | inl missing ↦
        rw (cooperative_close, locked, missing) (same_channels-Keeps m m refl (λ k h. h))
    | inr (ch, there) ↦ elim (Bool-cases (is_in id m.closed_channels)) [
      | inl already ↦
          rw (cooperative_close, locked, close_locked, there, already)
            (same_channels-Keeps m m refl (λ k h. h))
      | inr still ↦ elim (Result-cases (Lifecycle.Closing.cooperative_close c ch none)) [
        | inr (raised, e) ↦
            rw (cooperative_close, locked, close_locked, there, still, e)
              (same_channels-Keeps m m refl (λ k h. h))
        | inl (result, e) ↦
            let put : Manager = record m { closed_channels = put_in id m.closed_channels } in
            let k : Keeps m put =
              same_channels-Keeps m put refl (λ x h. is_in-put_in x id m.closed_channels h) in
            rw (cooperative_close, locked, close_locked, there, still, e)
              (trans-Keeps m put (persisted c codec put ch result).1 k
                (persisted-Keeps put ch result))
      ]
    ]
  ]

  commit-Keeps :
      (m : Manager) (id : Hash) (a b d : ℤ)
      → Keeps m (locked c codec m id (transfer_locked c codec m id a b d)).1
  unfolding locked
  commit-Keeps m id a b d = elim (Option-cases (lookup id m.channels)) [
    | inl missing ↦ rw (locked, missing) (same_channels-Keeps m m refl (λ k h. h))
    | inr (ch, there) ↦ rw (locked, there) (transfer_locked-Keeps m id a b d ch there)
  ]

  call-Keeps : {u w : World c codec} → Step c codec u w → Keeps u.manager w.manager
  call-Keeps (registers w ch) = registered-Keeps w.manager ch
  call-Keeps (writes w id ch there) = persisted-Keeps w.manager ch id
  call-Keeps (passes w p open_still) = same_channels-Keeps w.manager w.manager refl (λ k h. h)
  call-Keeps (commits w before after p here) =
      commit-Keeps w.manager p.channel_id p.sender p.recipient p.delta
  call-Keeps (closes w id) = cooperative_close-Keeps w.manager id

  pub Steps-Keeps : {u w : World c codec} → Steps c codec u w → Keeps u.manager w.manager
  Steps-Keeps (done w) = same_channels-Keeps w.manager w.manager refl (λ k h. h)
  Steps-Keeps (then_step u v w before last) =
      trans-Keeps u.manager v.manager w.manager (Steps-Keeps before) (call-Keeps last)

  -- However the calls of concurrent threads interleave, those that add channels of any state
  -- included: a channel that is in the manager at a conserved state stays there, at a conserved state
  -- under the same configuration whose version is not lower, and if it was closed it is closed.
  pub channels_endure :
      {u w : World c codec} (id : Hash) (ch : Chan)
      → Steps c codec u w
      → lookup id u.manager.channels ≡ some ch
      → IsConserved ch.state ch.cfg
      → (next : Chan) × (lookup id w.manager.channels ≡ some next)
        × Later ch next
        × IsConserved next.state next.cfg
        × ((is_in id u.manager.closed_channels ≡ false)
            ⊎ (is_in id w.manager.closed_channels ≡ true))
  channels_endure {u} id ch steps there fine =
      let k = Steps-Keeps steps in
      let (next, here, up, now) = k.stays id ch there fine in
      (
        next,
        here,
        up,
        now,
        elim (Bool-cases (is_in id u.manager.closed_channels)) [
          | inl shut ↦ inr (k.closed id shut)
          | inr still ↦ inl still
        ],
      )
