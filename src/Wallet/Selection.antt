-- ===== src/Wallet/Selection.antt =====
-- The outputs that `select_utxos` of src/channel/wallet/builder.py picks: no choice that reaches the
-- target has fewer.
use bonded_subsat_channel.Base.{
  ℕ, zero, suc, ◌+◌, ◌≤◌, ◌<◌, ◌≡◌, ◌∙◌, refl, ap, inl, inr, false, List, [], ◌∷◌, take, length,
  length-take, dec_lt, arith, Result, ok, err, Error, Bool-cases, leb→le, Result-cases,
}
use bonded_subsat_channel.Base.Int.{
  ℤ, pos, leb_ℤ, ltb_ℤ, ◌+ℤ◌, ◌≤ℤ◌, ◌<ℤ◌, pos_part, neg_part, +ℤ_parts, eq_of_parts,
}
use bonded_subsat_channel.Accounting.Order.{insert_by, sort_by}
use bonded_subsat_channel.Node.BlockStore.{UtxoEntry}
use bonded_subsat_channel.Wallet.{larger_first, select_from, select_utxos, sum_entries}

-- A choice from a list, which takes each of its items once at most.
pub data Picks : List UtxoEntry → List UtxoEntry → Type 0 where
  nothing : Picks [] []
  pick : {os us : List UtxoEntry} (u : UtxoEntry) → Picks os us → Picks (u ∷ os) (u ∷ us)
  pass : {os us : List UtxoEntry} (u : UtxoEntry) → Picks os us → Picks os (u ∷ us)

-- The values do not grow along the list.
abbrev Falls : List UtxoEntry → Type 0
Falls [] = Unit {0}
Falls (u ∷ []) = Unit {0}
Falls (u ∷ v ∷ us) = (v.value ≤ℤ u.value) × Falls (v ∷ us)

-- A choice of the same number and the same worth.
abbrev Same : ℕ → ℤ → List UtxoEntry → Type 0
Same n total us = (os : List UtxoEntry) × Picks os us × (length os ≡ n) × (sum_entries os ≡ total)

Picks-insert_pass :
    (u : UtxoEntry) {os us : List UtxoEntry} → Picks os us → Picks os (insert_by larger_first u us)
unfolding insert_by
Picks-insert_pass u nothing = pass u nothing
Picks-insert_pass u (pick v p) = elim (Bool-cases (larger_first u v)) [
  | inl first ↦ rw first (pass u (pick v p))
  | inr later ↦ rw later (pick v (Picks-insert_pass u p))
]
Picks-insert_pass u (pass v p) = elim (Bool-cases (larger_first u v)) [
  | inl first ↦ rw first (pass u (pass v p))
  | inr later ↦ rw later (pass v (Picks-insert_pass u p))
]

swap_values :
    (u v : UtxoEntry) (rest total : ℤ)
    → total ≡ u.value +ℤ rest
    → v.value +ℤ total ≡ u.value +ℤ (v.value +ℤ rest)
swap_values u v rest total e = rw e (
    eq_of_parts _ _ (
      omega (
        arith,
        +ℤ_parts v.value (u.value +ℤ rest),
        +ℤ_parts u.value rest,
        +ℤ_parts u.value (v.value +ℤ rest),
        +ℤ_parts v.value rest,
      )))

Picks-insert_pick :
    (u : UtxoEntry) {os us : List UtxoEntry}
    → Picks os us
    → Same (suc (length os)) (u.value +ℤ sum_entries os) (insert_by larger_first u us)
unfolding insert_by sum_entries
Picks-insert_pick u nothing = (u ∷ [], pick u nothing, refl, refl)
Picks-insert_pick u (pick {os} {us} v p) = elim (Bool-cases (larger_first u v)) [
  | inl first ↦ rw first (u ∷ v ∷ os, pick u (pick v p), refl, refl)
  | inr later ↦
      let (os', p', n, e) = Picks-insert_pick u p in
      rw later (v ∷ os', pick v p', ap suc n, swap_values u v (sum_entries os) (sum_entries os') e)
]
Picks-insert_pick u (pass {os} {us} v p) = elim (Bool-cases (larger_first u v)) [
  | inl first ↦ rw first (u ∷ os, pick u (pass v p), refl, refl)
  | inr later ↦ let (os', p', n, e) = Picks-insert_pick u p in rw later (os', pass v p', n, e)
]

-- A choice from a list is one from the sorted list, but for its order.
Picks-sort_by :
    {os us : List UtxoEntry}
    → Picks os us
    → Same (length os) (sum_entries os) (sort_by larger_first us)
unfolding sort_by sum_entries
Picks-sort_by nothing = ([], nothing, refl, refl)
Picks-sort_by (pick u p) =
    let (os', p', n, e) = Picks-sort_by p in
    let (os'', p'', m, d) = Picks-insert_pick u p' in
    (os'', p'', m ∙ ap suc n, d ∙ ap (λ t. u.value +ℤ t) e)
Picks-sort_by (pass u p) =
    let (os', p', n, e) = Picks-sort_by p in (os', Picks-insert_pass u p', n, e)

insert_by-Falls :
    (u : UtxoEntry) (us : List UtxoEntry) → Falls us → Falls (insert_by larger_first u us)
unfolding insert_by
insert_by-Falls u [] h = tt
insert_by-Falls u (v ∷ []) h = ground arith
insert_by-Falls u (v ∷ w ∷ us) h = ground (arith, insert_by-Falls u (w ∷ us) h.1)

sort_by-Falls : (us : List UtxoEntry) → Falls (sort_by larger_first us)
unfolding sort_by
sort_by-Falls [] = tt
sort_by-Falls (u ∷ us) = insert_by-Falls u (sort_by larger_first us) (sort_by-Falls us)

-- The first items of a list that falls are worth at least as much as those behind the first one.
shift :
    (k : ℕ) (u : UtxoEntry) (us : List UtxoEntry)
    → k ≤ length us
    → Falls (u ∷ us)
    → sum_entries (take k us) ≤ℤ sum_entries (take k (u ∷ us))
unfolding sum_entries
shift zero u us h f = omega arith
shift (suc k) u [] h f = absurd (omega arith)
shift (suc k) u (v ∷ us) h f = omega (
  arith,
  shift k v us (omega arith) f.1,
  f.0,
  +ℤ_parts u.value (sum_entries (take k (v ∷ us))),
  +ℤ_parts v.value (sum_entries (take k us)),
)

Picks-length : {os us : List UtxoEntry} → Picks os us → length os ≤ length us
Picks-length nothing = omega arith
Picks-length (pick u p) = omega (arith, Picks-length p)
Picks-length (pass u p) = omega (arith, Picks-length p)

Falls-tail : (u : UtxoEntry) (us : List UtxoEntry) → Falls (u ∷ us) → Falls us
Falls-tail u [] f = tt
Falls-tail u (v ∷ us) f = f.1

≤ℤ-trans : (a b c : ℤ) → a ≤ℤ b → b ≤ℤ c → a ≤ℤ c
≤ℤ-trans a b c h k = omega arith

-- No choice of a number of items is worth more than the first so many of a list that falls.
Picks-le-take :
    {os us : List UtxoEntry}
    → Picks os us
    → Falls us
    → sum_entries os ≤ℤ sum_entries (take (length os) us)
unfolding sum_entries
Picks-le-take nothing f = omega arith
Picks-le-take (pick {os} {us} u p) f = omega (
  arith,
  Picks-le-take p (Falls-tail u us f),
  +ℤ_parts u.value (sum_entries os),
  +ℤ_parts u.value (sum_entries (take (length os) us)),
)
Picks-le-take (pass {os} {us} u p) f =
    ≤ℤ-trans (sum_entries os) (sum_entries (take (length os) us))
      (sum_entries (take (length os) (u ∷ us))) (Picks-le-take p (Falls-tail u us f))
      (shift (length os) u us (Picks-length p) f)

-- How the loop ends: with the shortest part of the front, one item at least, that reaches the target.
abbrev pub Selected : ℤ → ℤ → List UtxoEntry → Result (List UtxoEntry) → Type 0
Selected target acc us (err e) =
    (e ≡ Error.wallet_build)
    × ((j : ℕ) → j < length us → acc +ℤ sum_entries (take (suc j) us) <ℤ target)
Selected target acc us (ok found) =
    (n : ℕ) × (found ≡ take (suc n) us)
    × (n < length us)
    × (target ≤ℤ acc +ℤ sum_entries found)
    × ((j : ℕ) → j < n → acc +ℤ sum_entries (take (suc j) us) <ℤ target)

regroup : (a b d : ℤ) → ((a +ℤ b) +ℤ d ≤ℤ a +ℤ (b +ℤ d)) × (a +ℤ (b +ℤ d) ≤ℤ (a +ℤ b) +ℤ d)
regroup a b d =
    let same : pos_part ((a +ℤ b) +ℤ d) + neg_part (a +ℤ (b +ℤ d))
        ≡ pos_part (a +ℤ (b +ℤ d)) + neg_part ((a +ℤ b) +ℤ d) =
      omega (arith, +ℤ_parts a b, +ℤ_parts (a +ℤ b) d, +ℤ_parts b d, +ℤ_parts a (b +ℤ d)) in
    (omega (arith, same), omega (arith, same))

front_short :
    (target acc : ℤ) (u : UtxoEntry) (us : List UtxoEntry) (n : ℕ)
    → leb_ℤ target (acc +ℤ u.value) ≡ false
    → ((j : ℕ) → j < n → (acc +ℤ u.value) +ℤ sum_entries (take (suc j) us) <ℤ target)
    → (j : ℕ) → j < suc n
    → acc +ℤ sum_entries (take (suc j) (u ∷ us)) <ℤ target
unfolding sum_entries
front_short target acc u us n short below zero h =
    let under : acc +ℤ u.value <ℤ target = ground (arith, short) in
    omega (
      arith,
      under,
      +ℤ_parts acc u.value,
      +ℤ_parts u.value (pos 0),
      +ℤ_parts acc (u.value +ℤ pos 0),
    )
front_short target acc u us n short below (suc j) h =
    let total : ℤ = sum_entries (take (suc j) us) in
    omega (arith, below j (omega arith), (regroup acc u.value total).1)

pub select_from-Selected :
    (target acc : ℤ) (us : List UtxoEntry) → Selected target acc us (select_from target acc us)
unfolding select_from sum_entries
select_from-Selected target acc [] = (refl, λ j h. absurd (omega arith))
select_from-Selected target acc (u ∷ us) = elim (Bool-cases (leb_ℤ target (acc +ℤ u.value))) [
  | inl reached ↦ rw reached (
    0,
    refl,
    omega arith,
    omega (
      arith,
      leb→le _ _ reached,
      +ℤ_parts acc u.value,
      +ℤ_parts u.value (pos 0),
      +ℤ_parts acc (u.value +ℤ pos 0),
    ),
    λ j h. absurd (omega arith),
  )
  | inr short ↦ elim (Result-cases (select_from target (acc +ℤ u.value) us)) [
    | inl (found, e) ↦
        let (n, is, fits, enough, below) =
          rw e at (select_from-Selected target (acc +ℤ u.value) us) in
        rw (short, e)
          (
            suc n,
            ap (◌∷◌ u) is,
            omega (arith, fits),
            ≤ℤ-trans target ((acc +ℤ u.value) +ℤ sum_entries found) _ enough
                (regroup acc u.value (sum_entries found)).0,
            front_short target acc u us n short below,
          )
    | inr (x, e) ↦
        let (is, below) = rw e at (select_from-Selected target (acc +ℤ u.value) us) in
        rw (short, e) (is, front_short target acc u us (length us) short below)
  ]
]

-- What a selection comes to.
abbrev pub SelectOutcome : List UtxoEntry → ℤ → Result (List UtxoEntry) → Type 0
SelectOutcome utxos target (err e) =
    (e ≡ Error.wallet_build) × ((os : List UtxoEntry) → Picks os utxos → sum_entries os <ℤ target)
SelectOutcome utxos target (ok found) =
    (target ≤ℤ sum_entries found)
    × ((n : ℕ) × (found ≡ take (suc n) (sort_by larger_first utxos)))
    × ((os : List UtxoEntry) → Picks os utxos → target ≤ℤ sum_entries os → length found ≤ length os)

choice_width :
    {os utxos : List UtxoEntry} → Picks os utxos → length os ≤ length (sort_by larger_first utxos)
choice_width p = let (os', p', width, _) = Picks-sort_by p in rw (← width) (Picks-length p')

-- What a choice is worth, against the front of the sorted list.
choice_short :
    (target : ℕ) (utxos os : List UtxoEntry) (n : ℕ)
    → 0 < target
    → ((j : ℕ)
        → j < n
        → pos 0 +ℤ sum_entries (take (suc j) (sort_by larger_first utxos)) <ℤ pos target)
    → Picks os utxos
    → length os ≤ n
    → sum_entries os <ℤ pos target
unfolding sum_entries
choice_short target utxos [] n positive below p few = omega (arith, positive)
choice_short target utxos (o ∷ os) n positive below p few =
    let sorted : List UtxoEntry = sort_by larger_first utxos in
    let (os', p', width, worth) = Picks-sort_by p in
    let most : sum_entries os' ≤ℤ sum_entries (take (length os') sorted) =
      Picks-le-take p' (sort_by-Falls utxos) in
    let front : ℤ = sum_entries (take (suc (length os)) sorted) in
    let bound : sum_entries (o ∷ os) ≤ℤ front = rw (← worth) (rw width at most) in
    omega (arith, bound, below (length os) (omega (arith, few)), +ℤ_parts (pos 0) front)

fewer :
    (target : ℕ) (utxos os found : List UtxoEntry) (n : ℕ)
    → 0 < target
    → ((j : ℕ)
        → j < n
        → pos 0 +ℤ sum_entries (take (suc j) (sort_by larger_first utxos)) <ℤ pos target)
    → Picks os utxos
    → pos target ≤ℤ sum_entries os
    → length found ≤ suc n
    → length found ≤ length os
fewer target utxos os found n positive below p reaches few = elim (dec_lt n (length os)) [
  | yes more ↦ omega (arith, few, more)
  | no less ↦ absurd (
      omega (arith, reaches, choice_short target utxos os n positive below p (omega (arith, less))))
]

-- For a target above zero, `select_utxos` picks outputs from the largest on that reach it, and no
-- choice among the outputs that reaches it has fewer; it raises `WalletBuildError` only if no choice
-- reaches the target.
pub select_utxos-SelectOutcome :
    (utxos : List UtxoEntry) (target : ℕ)
    → 0 < target
    → SelectOutcome utxos (pos target) (select_utxos utxos (pos target))
unfolding select_utxos
select_utxos-SelectOutcome utxos target positive =
    let sorted : List UtxoEntry = sort_by larger_first utxos in
    let low : ltb_ℤ (pos target) (pos 0) ≡ false = ground arith in
    let outcome = select_from-Selected (pos target) (pos 0) sorted in
    elim (Result-cases (select_from (pos target) (pos 0) sorted)) [
      | inl (found, e) ↦
          let (n, is, fits, enough, below) = rw e at outcome in
          rw (low, e)
            (
              omega (arith, enough, +ℤ_parts (pos 0) (sum_entries found)),
              (n, is),
              λ os p reaches.
                  fewer target utxos os found n positive below p reaches
                    (omega (arith, ap length is, length-take (suc n) sorted)),
            )
      | inr (x, e) ↦
          let (is, below) = rw e at outcome in
          rw (low, e)
            (
              is,
              λ os p.
                  choice_short target utxos os (length sorted) positive below p (choice_width p),
            )
    ]
