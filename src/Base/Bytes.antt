-- ===== src/Base/Bytes.antt =====
-- Byte strings as lists of numbers below 256, `int.to_bytes` and `int.from_bytes` in little-endian
-- order, and the reads of `io.BytesIO`, which hand on what is left.
use Prim.Native.Nat.{ℕ, zero, suc, ◌+◌, ◌*◌, ◌-◌, ◌/◌, ◌%◌, ◌<◌}
use mathlib.Core.Path.{◌≡◌, refl, ap}
use mathlib.Core.Bool.{Bool, true, false}
use mathlib.Core.List.{List, [], ◌∷◌, ◌++◌}
use mathlib.Core.Logic.{◌↔◌}
use bonded_subsat_channel.Base.Dict.{Eq}
use native.Mathlib.Omega.{arith}
use bonded_subsat_channel.Base.Tests.{leb, ltb, ◌==◌, if◌then◌else◌}
use bonded_subsat_channel.Base.Lists.{length, take, drop}
use bonded_subsat_channel.Base.Int.{ℤ, pos, negsuc}
use bonded_subsat_channel.Base.Errors.{Result, ok, Error, raise_if, ◌>>◌}

-- 256 ^ w
abbrev pub limit : ℕ → ℕ
limit zero = 1
limit (suc w) = 256 * limit w

abbrev pub IsBytes : List ℕ → Type 0
IsBytes [] = Unit {0}
IsBytes (b ∷ bs) = (b < 256) × IsBytes bs

unfoldable pub le : ℕ → ℕ → List ℕ
le zero n = []
le (suc w) n = (n % 256) ∷ le w (n / 256)

unfoldable pub from_le : List ℕ → ℕ
from_le [] = 0
from_le (b ∷ bs) = b + 256 * from_le bs

-- `n.to_bytes(w, "little")`
unfoldable pub to_le : ℕ → ℕ → Result (List ℕ)
to_le w n = do raise_if (leb (limit w) n) Error.overflow; ok (le w n)

-- `n.to_bytes(w, "little", signed=True)`, in two's complement
unfoldable pub to_le_signed : ℕ → ℤ → Result (List ℕ)
to_le_signed w (pos n) = do raise_if (leb (limit w) (2 * n)) Error.overflow; ok (le w n)
to_le_signed w (negsuc n) = do
  raise_if (ltb (limit w) (2 * (n + 1))) Error.overflow
  ok (le w (limit w - (n + 1)))

-- `int.from_bytes(bs, "little", signed=True)`
unfoldable pub from_le_signed : List ℕ → ℤ
from_le_signed bs =
    let n = from_le bs in
    if ltb (2 * n) (limit (length bs)) then pos n else negsuc (limit (length bs) - n - 1)

-- `buf.read(n)`
abbrev pub read : ℕ → List ℕ → List ℕ × List ℕ
read n buf = (take n buf, drop n buf)

-- equality of byte strings
unfoldable pub same_bytes : List ℕ → List ℕ → Bool
same_bytes [] [] = true
same_bytes [] (y ∷ ys) = false
same_bytes (x ∷ xs) [] = false
same_bytes (x ∷ xs) (y ∷ ys) = let rest = same_bytes xs ys in if x == y then rest else false

pub length-le : (w n : ℕ) → length (le w n) ≡ w
unfolding le
length-le zero n = refl
length-le (suc w) n = ap suc (length-le w (n / 256))

pub from_le-le : (w n : ℕ) → n < limit w → from_le (le w n) ≡ n
unfolding le from_le
from_le-le zero n h = omega arith
from_le-le (suc w) n h = omega (arith, from_le-le w (n / 256) (omega arith))

pub from_le-lt : (bs : List ℕ) → IsBytes bs → from_le bs < limit (length bs)
unfolding from_le
from_le-lt [] h = omega arith
from_le-lt (b ∷ bs) h = omega (arith, from_le-lt bs h.1)

pub le-from_le : (bs : List ℕ) → IsBytes bs → le (length bs) (from_le bs) ≡ bs
unfolding le from_le
le-from_le [] h = refl
le-from_le (b ∷ bs) h =
    let low : (b + 256 * from_le bs) % 256 ≡ b = omega arith in
    let high : (b + 256 * from_le bs) / 256 ≡ from_le bs = omega arith in
    rw (low, high, le-from_le bs h.1)

pub take-append {ℓ} : {A : Type ℓ} (xs ys : List A) (n : ℕ) → length xs ≡ n → take n (xs ++ ys) ≡ xs
take-append [] ys zero e = refl
take-append [] ys (suc n) e = absurd (omega arith)
take-append (x ∷ xs) ys zero e = absurd (omega arith)
take-append (x ∷ xs) ys (suc n) e = ap (◌∷◌ x) (take-append xs ys n (omega arith))

pub drop-append {ℓ} : {A : Type ℓ} (xs ys : List A) (n : ℕ) → length xs ≡ n → drop n (xs ++ ys) ≡ ys
drop-append [] ys zero e = refl
drop-append [] ys (suc n) e = absurd (omega arith)
drop-append (x ∷ xs) ys zero e = absurd (omega arith)
drop-append (x ∷ xs) ys (suc n) e = drop-append xs ys n (omega arith)

pub same_bytes_refl : (xs : List ℕ) → same_bytes xs xs ≡ true
unfolding same_bytes
same_bytes_refl [] = refl
same_bytes_refl (x ∷ xs) = ground (arith, same_bytes_refl xs)

pub same_bytes-≡ : (xs ys : List ℕ) → same_bytes xs ys ≡ true → xs ≡ ys
unfolding same_bytes
same_bytes-≡ [] [] h = refl
same_bytes-≡ [] (y ∷ ys) h = cc
same_bytes-≡ (x ∷ xs) [] h = cc
same_bytes-≡ (x ∷ xs) (y ∷ ys) h = ground (arith, same_bytes-≡ xs ys)

abbrev pub bytes_beq : List ℕ → List ℕ → Bool
bytes_beq xs ys = same_bytes xs ys

pub bytes_beq_iff : (xs ys : List ℕ) → (bytes_beq xs ys ≡ true) ↔ (xs ≡ ys)
bytes_beq_iff xs ys = (same_bytes-≡ xs ys, λ e. rw e (same_bytes_refl ys))

instance abbrev pub bytes_eq : Eq (List ℕ)
bytes_eq = record { beq = bytes_beq; beq_iff = bytes_beq_iff }
