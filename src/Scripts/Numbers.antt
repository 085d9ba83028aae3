-- ===== src/Scripts/Numbers.antt =====
-- `_encode_script_num` of src/channel/scripts.py against the sign-magnitude reading of its bytes.
use bonded_subsat_channel.Base.{
  ℕ, zero, suc, ◌+◌, ◌*◌, ◌%◌, ◌/◌, ◌<◌, ◌≤◌, ◌≡◌, refl, ◌∙◌, Bool, true, false, [], ◌∷◌, arith,
  leb, ◌==◌, if◌then◌else◌, Bool-cases, inl, inr,
}
use bonded_subsat_channel.Base.Int.{ℤ, pos, negsuc, sub_ℕ}
use bonded_subsat_channel.Chain.{Bytes}
use bonded_subsat_channel.Scripts.{le_bytes, with_sign, encode_script_num}

-- The number that bytes write, the least first.
pub value : Bytes → ℕ
value [] = 0
value (b ∷ bs) = b + 256 * value bs

abbrev pub AllBytes : Bytes → Type 0
AllBytes [] = Unit {0}
AllBytes (b ∷ bs) = (b < 256) × AllBytes bs

-- A script number: the top bit of the last byte is the sign, the rest is the magnitude.
pub sign_of : Bytes → Bool
sign_of [] = false
sign_of (b ∷ []) = leb 128 b
sign_of (b ∷ c ∷ bs) = sign_of (c ∷ bs)

pub magnitude : Bytes → ℕ
magnitude [] = 0
magnitude (b ∷ []) = b % 128
magnitude (b ∷ c ∷ bs) = b + 256 * magnitude (c ∷ bs)

pub decode_script_num : Bytes → ℤ
decode_script_num bs = if sign_of bs then sub_ℕ 0 (magnitude bs) else pos (magnitude bs)

with_sign-cons :
    (negative : Bool) (b : ℕ) (bs : Bytes)
    → (x : ℕ) × (ys : Bytes) × (with_sign negative (b ∷ bs) ≡ x ∷ ys)
unfolding with_sign
with_sign-cons negative b (c ∷ bs) = (b, with_sign negative (c ∷ bs), refl)
with_sign-cons negative b [] = elim (Bool-cases (b / 128 % 2 == 1)) [
  | inl high ↦ (b, (if negative then 0x80 else 0) ∷ [], rw high)
  | inr low ↦ ((if negative then b + 0x80 else b), [], rw low)
]

-- The sign and the magnitude of what `with_sign` returns.
abbrev Reads : Bool → ℕ → Bytes → Type 0
Reads negative n bs = (sign_of bs ≡ negative) × (magnitude bs ≡ n)

with_sign-last :
    (negative : Bool) (b : ℕ) → b < 256 → Reads negative b (with_sign negative (b ∷ []))
unfolding with_sign sign_of magnitude
with_sign-last true b h = elim (Bool-cases (b / 128 % 2 == 1)) [
  | inl high ↦ rw high (refl, omega arith)
  | inr low ↦ rw low (ground arith, ground arith)
]
with_sign-last false b h = elim (Bool-cases (b / 128 % 2 == 1)) [
  | inl high ↦ rw high (refl, omega arith)
  | inr low ↦ rw low (ground arith, ground arith)
]

Reads-cons :
    (negative : Bool) (b n : ℕ) (bs : Bytes) (x : ℕ) (ys : Bytes)
    → bs ≡ x ∷ ys
    → Reads negative n bs
    → Reads negative (b + 256 * n) (b ∷ bs)
unfolding sign_of magnitude
Reads-cons negative b n bs x ys e (s, m) = rw e (rw e at s, omega (arith, rw e at m))

with_sign-Reads :
    (negative : Bool) (b : ℕ) (bs : Bytes)
    → AllBytes (b ∷ bs)
    → Reads negative (value (b ∷ bs)) (with_sign negative (b ∷ bs))
unfolding value with_sign
with_sign-Reads negative b [] h = let (s, m) = with_sign-last negative b h.0 in (s, m ∙ omega arith)
with_sign-Reads negative b (c ∷ bs) h =
    let (x, ys, e) = with_sign-cons negative c bs in
    Reads-cons negative b (value (c ∷ bs)) (with_sign negative (c ∷ bs)) x ys e
      (with_sign-Reads negative c bs h.1)

le_bytes-value :
    (fuel n : ℕ) → n ≤ fuel → (value (le_bytes fuel n) ≡ n) × AllBytes (le_bytes fuel n)
unfolding le_bytes value
le_bytes-value zero n h = (omega arith, tt)
le_bytes-value (suc fuel) n h = ground (arith, le_bytes-value fuel (n / 256))

le_bytes-cons : (n : ℕ) → 0 < n → (b : ℕ) × (bs : Bytes) × (le_bytes n n ≡ b ∷ bs)
unfolding le_bytes
le_bytes-cons zero h = absurd (omega arith)
le_bytes-cons (suc n) h = (suc n % 256, le_bytes n (suc n / 256), ground arith)

-- A positive number is written with either sign.
signed-Reads :
    (negative : Bool) (n : ℕ) → 0 < n → Reads negative n (with_sign negative (le_bytes n n))
signed-Reads negative n h =
    let (b, bs, e) = le_bytes-cons n h in
    let (v, bytes) = le_bytes-value n n (omega arith) in
    let (s, m) = with_sign-Reads negative b bs (rw e at bytes) in rw e (s, m ∙ (rw e at v))

-- The encoding loses nothing: reading the bytes back as a sign-magnitude number, least byte first,
-- gives the number that was encoded, whatever its sign and size.
pub decode-encode_script_num : (z : ℤ) → decode_script_num (encode_script_num z) ≡ z
unfolding decode_script_num encode_script_num
decode-encode_script_num (pos zero) = unfold sign_of magnitude in refl
decode-encode_script_num (pos (suc n)) =
    let (s, m) = signed-Reads false (suc n) (omega arith) in ground (arith, s, m)
decode-encode_script_num (negsuc n) =
    let (s, m) = signed-Reads true (suc n) (omega arith) in ground (arith, s, m)
