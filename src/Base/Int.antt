-- ===== src/Base/Int.antt =====
-- Python's integers over the native numbers, where the source tests a sign.
use Prim.Native.Nat.{ℕ, suc, ◌+◌, ◌-◌, ◌≤◌, ◌<◌}
use mathlib.Core.Path.{◌≡◌, refl}
use mathlib.Core.Logic.{◌↔◌, ◌⊎◌, inl, inr}
use mathlib.Core.Bool.{Bool, true, false}
use native.Mathlib.Omega.{arith}
use bonded_subsat_channel.Base.Tests.{ltb, leb, ◌==◌, if◌then◌else◌}
use bonded_subsat_channel.Base.Errors.{Result, ok, err, Error}

-- `negsuc n` is -(n + 1).
pub data ℤ : Type 0 where
  pos : ℕ → ℤ
  negsuc : ℕ → ℤ

abbrev pub pos_part : ℤ → ℕ
pos_part (pos n) = n
pos_part (negsuc n) = 0

abbrev pub neg_part : ℤ → ℕ
neg_part (pos n) = 0
neg_part (negsuc n) = suc n

-- a - b, as an integer.
abbrev pub sub_ℕ : ℕ → ℕ → ℤ
sub_ℕ a b = if leb b a then pos (a - b) else negsuc (b - a - 1)

infixl 65 ◌+ℤ◌ ◌-ℤ◌
infix 50 ◌≤ℤ◌
unfoldable pub ◌+ℤ◌ : ℤ → ℤ → ℤ
a +ℤ b = sub_ℕ (pos_part a + pos_part b) (neg_part a + neg_part b)

unfoldable pub ◌-ℤ◌ : ℤ → ℤ → ℤ
a -ℤ b = sub_ℕ (pos_part a + neg_part b) (neg_part a + pos_part b)

abbrev pub ◌≤ℤ◌ : ℤ → ℤ → Type 0
a ≤ℤ b = pos_part a + neg_part b ≤ pos_part b + neg_part a

abbrev pub ltb_ℤ : ℤ → ℤ → Bool
ltb_ℤ a b = ltb (pos_part a + neg_part b) (pos_part b + neg_part a)

abbrev pub leb_ℤ : ℤ → ℤ → Bool
leb_ℤ a b = leb (pos_part a + neg_part b) (pos_part b + neg_part a)

infix 50 ◌<ℤ◌
abbrev pub ◌<ℤ◌ : ℤ → ℤ → Type 0
a <ℤ b = pos_part a + neg_part b < pos_part b + neg_part a

-- With the sum shut, `omega` works with its parts.
pub +ℤ_parts :
    (a b : ℤ)
    → pos_part (a +ℤ b) + neg_part a + neg_part b ≡ neg_part (a +ℤ b) + pos_part a + pos_part b
unfolding ◌+ℤ◌
+ℤ_parts a b = ground arith

pub eq_of_parts : (a b : ℤ) → pos_part a + neg_part b ≡ pos_part b + neg_part a → a ≡ b
eq_of_parts a b h = ground arith

infix 50 ◌==ℤ◌
abbrev pub ◌==ℤ◌ : ℤ → ℤ → Bool
pos a ==ℤ pos b = a == b
negsuc a ==ℤ negsuc b = a == b
_ ==ℤ _ = false

pub ==ℤ_iff : (a b : ℤ) → ((a ==ℤ b) ≡ true) ↔ (a ≡ b)
==ℤ_iff (pos a) (pos b) = ground arith
==ℤ_iff (pos a) (negsuc b) = ground arith
==ℤ_iff (negsuc a) (pos b) = ground arith
==ℤ_iff (negsuc a) (negsuc b) = ground arith

-- The difference of two numbers is a number when the second is not larger.
pub -ℤ-pos : (a b : ℕ) → b ≤ a → pos a -ℤ pos b ≡ pos (a - b)
unfolding ◌-ℤ◌
-ℤ-pos a b h = ground arith

pub -ℤ-==ℤ : (a b d : ℕ) → (pos a -ℤ pos b ==ℤ pos d) ≡ true → a ≡ b + d
unfolding ◌-ℤ◌
-ℤ-==ℤ a b d h = ground arith

pub ==ℤ-pos : (a b d : ℕ) → a ≡ b + d → (pos a -ℤ pos b ==ℤ pos d) ≡ true
unfolding ◌-ℤ◌
==ℤ-pos a b d h = ground arith

-- `if not 0 <= i < n: raise e`, with the index that passes.
abbrev pub in_range : Error → ℕ → ℤ → Result ℕ
in_range e n (pos i) = if ltb i n then ok i else err e
in_range e n (negsuc _) = err e

-- `if v < low: raise e`, for a bound that is not negative.
abbrev pub at_least : Error → ℕ → ℤ → Result ℕ
at_least e low (pos v) = if ltb v low then err e else ok v
at_least e low (negsuc _) = err e

pub in_range-lt :
    (e : Error) (n : ℕ) (i : ℤ) {k : ℕ} → in_range e n i ≡ ok k → (i ≡ pos k) × (suc k ≤ n)
in_range-lt e n (pos i) h = ground arith
in_range-lt e n (negsuc i) h = cc

pub at_least-le :
    (e : Error) (low : ℕ) (z : ℤ) {v : ℕ} → at_least e low z ≡ ok v → (z ≡ pos v) × (low ≤ v)
at_least-le e low (pos i) h = ground arith
at_least-le e low (negsuc i) h = cc

pub ℤ-cases : (z : ℤ) → ((n : ℕ) × (z ≡ pos n)) ⊎ ((n : ℕ) × (z ≡ negsuc n))
ℤ-cases (pos n) = inl (n, refl)
ℤ-cases (negsuc n) = inr (n, refl)
