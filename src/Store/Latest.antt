-- ===== src/Store/Latest.antt =====
-- The row of the highest version, which `get_latest_channel_state` of src/channel/store/store.py
-- selects.
use bonded_subsat_channel.Base.{
  ℕ, ◌≤◌, ◌≡◌, ◌≢◌, refl, ◌⊎◌, inl, inr, Option, none, some, [], ◌∷◌, leb, ◌==◌, arith, Bool-cases,
}
use bonded_subsat_channel.Base.Dict.{Dict, insert, nat_eq, outpoint_eq}
use bonded_subsat_channel.Chain.{Hash}
use bonded_subsat_channel.Store.{later, latest}

-- No row of the channel has a version above `v`.
abbrev pub AllUpTo : {D : Type 0} → Hash → ℕ → Dict (Hash × ℕ) D → Type 0
AllUpTo id v [] = Unit {0}
AllUpTo id v (((h, w), d) ∷ rows) = ((h ≢ id) ⊎ (w ≤ v)) × AllUpTo id v rows

-- Nothing that was found has a version above `v`.
abbrev UpTo : {D : Type 0} → ℕ → Option (ℕ × D) → Type 0
UpTo v none = Unit {0}
UpTo v (some (w, e)) = w ≤ v

later-UpTo :
    {D : Type 0} (v w : ℕ) (d : D) (r : Option (ℕ × D)) → w ≤ v → UpTo v r → UpTo v (later w d r)
unfolding later
later-UpTo v w d none h k = h
later-UpTo v w d (some (x, e)) h k = elim (Bool-cases (leb x w)) [
  | inl here ↦ rw here h
  | inr there ↦ rw there k
]

later_top : {D : Type 0} (v : ℕ) (d : D) (r : Option (ℕ × D)) → UpTo v r → later v d r ≡ some (v, d)
unfolding later
later_top v d none h = refl
later_top v d (some (x, e)) h = ground arith

latest-UpTo :
    {D : Type 0} (id : Hash) (v : ℕ) (rows : Dict (Hash × ℕ) D)
    → AllUpTo id v rows
    → UpTo v (latest id rows)
unfolding latest
latest-UpTo id v [] h = tt
latest-UpTo id v (((k, w), d) ∷ rows) (low, lows) = elim (Bool-cases (k == id)) [
  | inr other ↦ rw other (latest-UpTo id v rows lows)
  | inl same ↦
      rw same
        (later-UpTo v w d (latest id rows) (ground (arith, same, low)) (latest-UpTo id v rows lows))
]

pub latest-insert :
    {D : Type 0} (id : Hash) (v : ℕ) (d : D) (rows : Dict (Hash × ℕ) D)
    → AllUpTo id v rows
    → latest id (insert (id, v) d rows) ≡ some (v, d)
unfolding latest insert
latest-insert id v d [] h = unfold later in ground arith
latest-insert id v d (((k, w), e) ∷ rows) (low, lows) =
    elim (Bool-cases (outpoint_eq.beq (id, v) (k, w))) [
      | inl same ↦
          rw same (ground (arith, later_top v d (latest id rows) (latest-UpTo id v rows lows)))
      | inr other ↦
          let rest = latest-insert id v d rows lows in
          rw (other, rest)
            (elim (Bool-cases (k == id)) [
              | inr apart ↦ rw apart
              | inl here ↦ rw here (unfold later in ground (arith, other, here, low))
            ])
    ]
