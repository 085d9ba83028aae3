-- ===== src/Base/Hex.antt =====
-- `bytes.hex`, `bytes.fromhex`, `",".join` and `str.split(",")`, on the code points of a text.
use bonded_subsat_channel.Base.{
  ℕ, ◌+◌, ◌-◌, ◌*◌, ◌/◌, ◌%◌, ◌<◌, ◌≡◌, refl, ap, ◌∙◌, Bool, false, ◌||◌, ◌&&◌, List, [], ◌∷◌, ◌++◌,
  length, arith, Result, ok, err, Error, ◌>>=◌, leb, ltb, ◌==◌, if◌then◌else◌,
}
use bonded_subsat_channel.Base.Bytes.{IsBytes}

abbrev pub Text : Type 0
Text = List ℕ

unfoldable pub hex_digit : ℕ → ℕ
hex_digit d = if ltb d 10 then 48 + d else 87 + d

unfoldable pub hex : List ℕ → Text
hex [] = []
hex (b ∷ bs) = hex_digit (b / 16) ∷ hex_digit (b % 16) ∷ hex bs

unfoldable pub digit_value : ℕ → Result ℕ
digit_value x =
    if leb 48 x && leb x 57
    then ok (x - 48)
    else if leb 97 x && leb x 102
    then ok (x - 87)
    else if leb 65 x && leb x 70
    then ok (x - 55)
    else err Error.value_error

-- what `fromhex` passes over between two bytes
unfoldable pub is_space : ℕ → Bool
is_space x = (leb 9 x && leb x 13) || x == 32

unfoldable pub fromhex : Text → Result (List ℕ)
fromhex [] = ok []
fromhex (a ∷ []) = if is_space a then ok [] else err Error.value_error
fromhex (a ∷ b ∷ rest) =
    let skipped = fromhex (b ∷ rest) in
    let read = (do
      hi ← digit_value a
      lo ← digit_value b
      bs ← fromhex rest
      ok ((16 * hi + lo) ∷ bs)) in
    if is_space a then skipped else read

unfoldable pub join_commas : List Text → Text
join_commas [] = []
join_commas (p ∷ []) = p
join_commas (p ∷ q ∷ ps) = p ++ (44 ∷ join_commas (q ∷ ps))

abbrev in_front : ℕ → List Text → List Text
in_front x [] = (x ∷ []) ∷ []
in_front x (p ∷ ps) = (x ∷ p) ∷ ps

unfoldable pub split_commas : Text → List Text
split_commas [] = [] ∷ []
split_commas (x ∷ xs) = let rest = split_commas xs in if x == 44 then [] ∷ rest else in_front x rest

digit_value-hex_digit : (d : ℕ) → d < 16 → digit_value (hex_digit d) ≡ ok d
unfolding digit_value hex_digit
digit_value-hex_digit d h = ground arith

is_space-hex_digit : (d : ℕ) → is_space (hex_digit d) ≡ false
unfolding is_space hex_digit
is_space-hex_digit d = ground arith

-- Bytes that are written in hexadecimal digits are read back.
pub fromhex-hex : (bs : List ℕ) → IsBytes bs → fromhex (hex bs) ≡ ok bs
unfolding fromhex hex
fromhex-hex [] h = refl
fromhex-hex (b ∷ bs) h =
    rw
      (
        is_space-hex_digit (b / 16),
        digit_value-hex_digit (b / 16) (omega (arith, h.0)),
        digit_value-hex_digit (b % 16) (omega arith),
        fromhex-hex bs h.1,
      )
      (ap (λ x. ok (x ∷ bs)) (omega arith))

abbrev pub NoComma : Text → Type 0
NoComma [] = Unit {0}
NoComma (x ∷ xs) = ((x == 44) ≡ false) × NoComma xs

hex_digit-44 : (d : ℕ) → (hex_digit d == 44) ≡ false
unfolding hex_digit
hex_digit-44 d = ground arith

pub hex-NoComma : (bs : List ℕ) → NoComma (hex bs)
unfolding hex
hex-NoComma [] = tt
hex-NoComma (b ∷ bs) = (hex_digit-44 (b / 16), (hex_digit-44 (b % 16), hex-NoComma bs))

split_commas-one : (p : Text) → NoComma p → split_commas p ≡ p ∷ []
unfolding split_commas
split_commas-one [] h = refl
split_commas-one (x ∷ p) h = rw (h.0, split_commas-one p h.1)

split_commas-append :
    (p rest : Text) → NoComma p → split_commas (p ++ (44 ∷ rest)) ≡ p ∷ split_commas rest
unfolding split_commas
split_commas-append [] rest h = refl
split_commas-append (x ∷ p) rest h = rw (h.0, split_commas-append p rest h.1)

abbrev pub AllNoComma : List Text → Type 0
AllNoComma [] = Unit {0}
AllNoComma (p ∷ ps) = NoComma p × AllNoComma ps

-- Pieces without commas that are joined are parted again, when there is one at least.
pub split_commas-join_commas :
    (ps : List Text) → 0 < length ps → AllNoComma ps → split_commas (join_commas ps) ≡ ps
unfolding join_commas
split_commas-join_commas [] w h = absurd (omega arith)
split_commas-join_commas (p ∷ []) w h = split_commas-one p h.0
split_commas-join_commas (p ∷ q ∷ ps) w h =
    split_commas-append p (join_commas (q ∷ ps)) h.0
    ∙ ap (◌∷◌ p) (split_commas-join_commas (q ∷ ps) (omega arith) h.1)
