-- ===== src/Node/P2p/Varints.antt =====
-- The variable-length integers and byte strings of src/channel/node/p2p.py, written and read back.
use bonded_subsat_channel.Base.{ℕ, ◌≤◌, ◌<◌, ◌≡◌, refl, [], ◌∷◌, ◌++◌, length, ok, arith, dec_lt}
use mathlib.Core.List.{append_assoc}
use bonded_subsat_channel.Base.Int.{pos}
use bonded_subsat_channel.Base.Bytes.{
  limit, le, to_le, length-le, from_le-le, take-append, drop-append,
}
use bonded_subsat_channel.Chain.{Bytes}
use bonded_subsat_channel.Node.P2p.{
  encode_varint, read_int, read_varint, encode_var_bytes, read_var_bytes,
}

pub to_le-ok : (w n : ℕ) → n < limit w → to_le w n ≡ ok (le w n)
unfolding to_le
to_le-ok w n h = ground arith

pub read_int-le :
    (w n : ℕ) (rest : Bytes) → n < limit w → read_int w (le w n ++ rest) ≡ ok (n, rest)
unfolding read_int
read_int-le w n rest h =
    rw
      (
        take-append (le w n) rest w (length-le w n),
        drop-append (le w n) rest w (length-le w n),
        from_le-le w n h,
      )
      (ground (arith, length-le w n))

-- A number below 2 ^ 64 is written as a variable-length integer, and read back from the front of a
-- buffer, which leaves what follows.
pub read_varint-encode_varint :
    (n : ℕ) (rest : Bytes)
    → n < limit 8
    → (bs : Bytes) × (encode_varint (pos n) ≡ ok bs) × (read_varint (bs ++ rest) ≡ ok (n, rest))
unfolding encode_varint read_varint
read_varint-encode_varint n rest h = elim (dec_lt n 0xFD) [
  | yes small ↦ (n ∷ [], ground arith, ground arith)
  | no wide ↦ elim (dec_lt 0xFFFF n) [
    | no short ↦ (
      0xFD ∷ le 2 n,
      ground (arith, to_le-ok 2 n (omega arith)),
      read_int-le 2 n rest (omega arith),
    )
    | yes above ↦ elim (dec_lt 0xFFFFFFFF n) [
      | no middle ↦ (
        0xFE ∷ le 4 n,
        ground (arith, to_le-ok 4 n (omega arith)),
        read_int-le 4 n rest (omega arith),
      )
      | yes long ↦ (0xFF ∷ le 8 n, ground (arith, to_le-ok 8 n h), read_int-le 8 n rest h)
    ]
  ]
]

-- A byte string that the cap admits is written behind its length and read back.
pub read_var_bytes-encode_var_bytes :
    (cap : ℕ) (b rest : Bytes)
    → length b < limit 8
    → length b ≤ cap
    → (bs : Bytes) × (encode_var_bytes b ≡ ok bs) × (read_var_bytes cap (bs ++ rest) ≡ ok (b, rest))
unfolding encode_var_bytes read_var_bytes
read_var_bytes-encode_var_bytes cap b rest h fits =
    let (n, en, rn) = read_varint-encode_varint (length b) (b ++ rest) h in
    (
      n ++ b,
      rw en,
      rw
          (
            append_assoc n b rest,
            rn,
            take-append b rest (length b) refl,
            drop-append b rest (length b) refl,
          )
          (ground arith),
    )
