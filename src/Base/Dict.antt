-- ===== src/Base/Dict.antt =====
-- Python dictionaries and tables with a primary key, as association lists in insertion order, for
-- any type of keys with a Boolean equality.
use Prim.Native.Nat.{ℕ}
use mathlib.Core.Path.{◌≡◌, refl, ap}
use mathlib.Core.Logic.{◌↔◌, inl, inr}
use mathlib.Core.Bool.{Bool, true, false}
use mathlib.Core.Option.{Option, none, some}
use mathlib.Core.List.{List, [], ◌∷◌}
use native.Mathlib.Omega.{arith}
use bonded_subsat_channel.Base.Int.{ℤ, ◌==ℤ◌, ==ℤ_iff}
use bonded_subsat_channel.Base.Tests.{if◌then◌else◌, ==_iff, Bool-cases, ◌==◌}

pub record Eq (A : Type 0) : Type 0 where
  pub beq : A → A → Bool
  pub beq_iff : (a b : A) → (beq a b ≡ true) ↔ (a ≡ b)

infix 50 ◌=?◌
abbrev pub ◌=?◌ : {A : Type 0} ⦃e : Eq A⦄ → A → A → Bool
◌=?◌ ⦃e⦄ = e.beq

abbrev pub nat_beq : ℕ → ℕ → Bool
nat_beq a b = a == b

instance abbrev pub nat_eq : Eq ℕ
nat_eq = record { beq = nat_beq; beq_iff = ==_iff }

abbrev pub int_beq : ℤ → ℤ → Bool
int_beq a b = a ==ℤ b

instance abbrev pub int_eq : Eq ℤ
int_eq = record { beq = int_beq; beq_iff = ==ℤ_iff }

module _ {A B : Type 0} (f : Eq A) (g : Eq B) where
  abbrev pub pair_beq : A × B → A × B → Bool
  pair_beq (a, b) (c, d) = if f.beq a c then g.beq b d else false

  pub pair_beq_iff : (p q : A × B) → (pair_beq p q ≡ true) ↔ (p ≡ q)
  pair_beq_iff (a, b) (c, d) = (
    λ h.
        let ea : a ≡ c = (f.beq_iff a c).0 (ground arith) in
        let eb : b ≡ d = (g.beq_iff b d).0 (ground arith) in λ i. (ea i, eb i),
    λ e.
        rw ((f.beq_iff a c).1 (ap (λ (p : A × B). p.0) e))
          ((g.beq_iff b d).1 (ap (λ (p : A × B). p.1) e)),
  )

  abbrev pub pair_eq : Eq (A × B)
  pair_eq = record { beq = pair_beq; beq_iff = pair_beq_iff }

-- an outpoint is a pair of numbers
instance abbrev pub outpoint_eq : Eq (ℕ × ℕ)
outpoint_eq = pair_eq nat_eq nat_eq

abbrev pub Dict : Type 0 → Type 0 → Type 0
Dict K V = List (K × V)

pub beq_refl : {K : Type 0} (e : Eq K) (k : K) → e.beq k k ≡ true
beq_refl e k = (e.beq_iff k k).1 refl

pub beq_ne : {K : Type 0} (e : Eq K) (j k : K) → ¬ (j ≡ k) → e.beq j k ≡ false
beq_ne e j k h = elim (Bool-cases (e.beq j k)) [
  | inl same ↦ absurd (h ((e.beq_iff j k).0 same))
  | inr other ↦ other
]

-- Two keys that compare alike with a third.
beq_same : {K : Type 0} (e : Eq K) (i j k : K) → e.beq k i ≡ true → e.beq j k ≡ e.beq j i
beq_same e i j k h = ap (e.beq j) ((e.beq_iff k i).0 h)

beq_apart :
    {K : Type 0} (e : Eq K) (i j k : K) → e.beq k i ≡ false → e.beq j i ≡ true → e.beq j k ≡ false
beq_apart e i j k other same = elim (Bool-cases (e.beq j k)) [
  | inl h ↦ cc (other, same, ap (λ x. e.beq x i) ((e.beq_iff j k).0 h))
  | inr h ↦ h
]

module _ {K V : Type 0} ⦃e : Eq K⦄ where
  -- `d.get(k)`
  unfoldable pub lookup : K → Dict K V → Option V
  lookup k [] = none
  lookup k ((j, v) ∷ d) = if e.beq k j then some v else lookup k d

  -- `k in d`
  abbrev pub contains : K → Dict K V → Bool
  contains k d = elim (lookup k d) [ none ↦ false | some _ ↦ true ]

  -- `d[k] = v`
  unfoldable pub insert : K → V → Dict K V → Dict K V
  insert k v [] = (k, v) ∷ []
  insert k v ((j, w) ∷ d) = if e.beq k j then (k, v) ∷ d else (j, w) ∷ insert k v d

  -- `d.pop(k, None)` and `del d[k]`; a key stands once in a dictionary
  unfoldable pub erase : K → Dict K V → Dict K V
  erase k [] = []
  erase k ((j, w) ∷ d) = let rest = erase k d in if e.beq k j then rest else (j, w) ∷ rest

  pub lookup-insert :
      (j k : K) (v : V) (d : Dict K V)
      → lookup j (insert k v d) ≡ (if e.beq j k then some v else lookup j d)
  unfolding lookup insert
  lookup-insert j k v [] = refl
  lookup-insert j k v ((i, w) ∷ d) = elim (Bool-cases (e.beq k i)) [
    | inl same ↦ rw (same, beq_same e i j k same) (ground arith)
    | inr other ↦ elim (Bool-cases (e.beq j i)) [
      | inl here ↦ rw (other, here, beq_apart e i j k other here) (ground (arith, here))
      | inr there ↦ rw (other, there) (ground (arith, there, lookup-insert j k v d))
    ]
  ]

  pub lookup-erase :
      (j k : K) (d : Dict K V) → lookup j (erase k d) ≡ (if e.beq j k then none else lookup j d)
  unfolding lookup erase
  lookup-erase j k [] = ground arith
  lookup-erase j k ((i, w) ∷ d) = elim (Bool-cases (e.beq k i)) [
    | inl same ↦
        rw (same, beq_same e i j k same) (ground (arith, beq_same e i j k same, lookup-erase j k d))
    | inr other ↦ elim (Bool-cases (e.beq j i)) [
      | inl here ↦ rw (other, here, beq_apart e i j k other here) (ground (arith, here))
      | inr there ↦ rw (other, there) (ground (arith, there, lookup-erase j k d))
    ]
  ]

  pub lookup-insert_self : (k : K) (v : V) (d : Dict K V) → lookup k (insert k v d) ≡ some v
  lookup-insert_self k v d = rw (lookup-insert k k v d, beq_refl e k)

  pub lookup-insert_ne :
      (j k : K) (v : V) (d : Dict K V) → ¬ (j ≡ k) → lookup j (insert k v d) ≡ lookup j d
  lookup-insert_ne j k v d h = rw (lookup-insert j k v d, beq_ne e j k h)

  pub lookup-erase_self : (k : K) (d : Dict K V) → lookup k (erase k d) ≡ none
  lookup-erase_self k d = rw (lookup-erase k k d, beq_refl e k)

  pub lookup-erase_ne : (j k : K) (d : Dict K V) → ¬ (j ≡ k) → lookup j (erase k d) ≡ lookup j d
  lookup-erase_ne j k d h = rw (lookup-erase j k d, beq_ne e j k h)
