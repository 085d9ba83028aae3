-- ===== src/Node/P2p/Frames.antt =====
-- The frames of src/channel/node/p2p.py, written and read back.
use mathlib.Core.List.{append_assoc}
use bonded_subsat_channel.Base.{
  ℕ, zero, suc, ◌+◌, ◌-◌, ◌≤◌, ◌<◌, ◌≡◌, refl, ap, ◌∙◌, true, false, Option, List, [], ◌∷◌, ◌++◌,
  length, length-append, length-take, length-replicate, take, drop, replicate, ok, arith,
}
use bonded_subsat_channel.Base.Bytes.{
  le, from_le, length-le, from_le-le, take-append, drop-append, same_bytes, same_bytes_refl,
}
use bonded_subsat_channel.Chain.{Bytes}
use bonded_subsat_channel.Node.P2p.{
  Frame, encode_ascii, decode_ascii, rstrip, serialise, parse_frame, wrong_magic, max_message_size,
}
use bonded_subsat_channel.Node.P2p.Varints.{to_le-ok}

-- The code points of a command: ASCII, and none is NUL.
abbrev pub IsCommand : List ℕ → Type 0
IsCommand [] = Unit {0}
IsCommand (x ∷ xs) = ((0 < x) × (x < 128)) × IsCommand xs

encode_ascii-ok : (xs : List ℕ) → IsCommand xs → encode_ascii xs ≡ ok xs
unfolding encode_ascii
encode_ascii-ok [] h = refl
encode_ascii-ok (x ∷ xs) h = ground (arith, encode_ascii-ok xs h.1)

decode_ascii-id : (xs : List ℕ) → IsCommand xs → decode_ascii xs ≡ xs
unfolding decode_ascii
decode_ascii-id [] h = refl
decode_ascii-id (x ∷ xs) h = ground (arith, decode_ascii-id xs h.1)

rstrip-zeros : (k : ℕ) → rstrip (replicate k 0) ≡ []
unfolding rstrip
rstrip-zeros zero = refl
rstrip-zeros (suc k) = rw (rstrip-zeros k)

rstrip-last : (b : ℕ) (bs : Bytes) → rstrip bs ≡ [] → 0 < b → rstrip (b ∷ bs) ≡ b ∷ []
unfolding rstrip
rstrip-last b bs e h = ground (arith, e)

rstrip-more :
    (b : ℕ) (bs : Bytes) {c : ℕ} {cs : Bytes} → rstrip bs ≡ c ∷ cs → rstrip (b ∷ bs) ≡ b ∷ c ∷ cs
unfolding rstrip
rstrip-more b bs e = ground (arith, e)

rstrip-padded : (xs : List ℕ) (k : ℕ) → IsCommand xs → rstrip (xs ++ replicate k 0) ≡ xs
rstrip-padded [] k h = rstrip-zeros k
rstrip-padded (x ∷ []) k h = rstrip-last x (replicate k 0) (rstrip-zeros k) h.0.0
rstrip-padded (x ∷ y ∷ ys) k h =
    rstrip-more x (y ∷ (ys ++ replicate k 0)) (rstrip-padded (y ∷ ys) k h.1)

slice :
    (buf pre xs post : Bytes) (i n : ℕ)
    → buf ≡ pre ++ (xs ++ post)
    → length pre ≡ i
    → length xs ≡ n
    → take n (drop i buf) ≡ xs
slice buf pre xs post i n e hi hn =
    rw (e, drop-append pre (xs ++ post) i hi, take-append xs post n hn)

module _ (double_sha256 : Bytes → Bytes) (sized : (b : Bytes) → length (double_sha256 b) ≡ 32)
    (f : Frame) (rest : Bytes) (magic_4 : length f.magic ≡ 4) (named : IsCommand f.command)
    (short : length f.command ≤ 12) (small : length f.payload ≤ max_message_size) where
  padded : Bytes
  padded = f.command ++ replicate (12 - length f.command) 0

  count_bytes : Bytes
  count_bytes = le 4 (length f.payload)

  checksum : Bytes
  checksum = take 4 (double_sha256 f.payload)

  whole : Bytes
  whole = f.magic ++ padded ++ count_bytes ++ checksum ++ f.payload

  length-padded : length padded ≡ 12
  unfolding padded
  length-padded = omega (
    arith,
    short,
    length-append f.command (replicate (12 - length f.command) 0),
    length-replicate {A = ℕ} (12 - length f.command) 0,
  )

  length-count_bytes : length count_bytes ≡ 4
  unfolding count_bytes
  length-count_bytes = length-le 4 (length f.payload)

  padded-back : rstrip padded ≡ f.command
  unfolding padded
  padded-back = rstrip-padded f.command (12 - length f.command) named

  count-back : from_le count_bytes ≡ length f.payload
  unfolding count_bytes
  count-back = from_le-le 4 (length f.payload) (omega (arith, small))

  length-checksum : length checksum ≡ 4
  unfolding checksum
  length-checksum = omega (arith, length-take 4 (double_sha256 f.payload), sized f.payload)

  serialise-whole : serialise double_sha256 f ≡ ok whole
  unfolding serialise whole padded count_bytes checksum
  serialise-whole =
      ground (
        arith,
        encode_ascii-ok f.command named,
        to_le-ok 4 (length f.payload) (omega (arith, small)),
      )

  magic-part : take 4 (whole ++ rest) ≡ f.magic
  unfolding whole
  magic-part =
      slice (whole ++ rest) [] f.magic
        (padded ++ (count_bytes ++ (checksum ++ (f.payload ++ rest)))) 0 4 (simp append_assoc) refl
        magic_4

  command-part : take 12 (drop 4 (whole ++ rest)) ≡ padded
  unfolding whole
  command-part =
      slice (whole ++ rest) f.magic padded (count_bytes ++ (checksum ++ (f.payload ++ rest))) 4 12
        (simp append_assoc) magic_4 length-padded

  count-part : take 4 (drop 16 (whole ++ rest)) ≡ count_bytes
  unfolding whole
  count-part =
      slice (whole ++ rest) (f.magic ++ padded) count_bytes (checksum ++ (f.payload ++ rest)) 16 4
        (simp append_assoc) (omega (arith, length-append f.magic padded, magic_4, length-padded))
        length-count_bytes

  length-before : length (f.magic ++ padded ++ count_bytes) ≡ 20
  length-before = omega (
    arith,
    length-append (f.magic ++ padded) count_bytes,
    length-append f.magic padded,
    magic_4,
    length-padded,
    length-count_bytes,
  )

  checksum-part : take 4 (drop 20 (whole ++ rest)) ≡ checksum
  unfolding whole
  checksum-part =
      slice (whole ++ rest) (f.magic ++ padded ++ count_bytes) checksum (f.payload ++ rest) 20 4
        (simp append_assoc) length-before length-checksum

  length-header : length (f.magic ++ padded ++ count_bytes ++ checksum) ≡ 24
  length-header = omega (
    arith,
    length-append (f.magic ++ padded ++ count_bytes) checksum,
    length-before,
    length-checksum,
  )

  payload-part : take (length f.payload) (drop 24 (whole ++ rest)) ≡ f.payload
  unfolding whole
  payload-part =
      slice (whole ++ rest) (f.magic ++ padded ++ count_bytes ++ checksum) f.payload rest 24
        (length f.payload) (simp append_assoc) length-header refl

  length-whole : length (whole ++ rest) ≡ 24 + length f.payload + length rest
  unfolding whole
  length-whole = omega (
    arith,
    length-append (f.magic ++ padded ++ count_bytes ++ checksum ++ f.payload) rest,
    length-append (f.magic ++ padded ++ count_bytes ++ checksum) f.payload,
    length-header,
  )

  checked : same_bytes (take 4 (double_sha256 f.payload)) checksum ≡ true
  unfolding checksum
  checked = same_bytes_refl (take 4 (double_sha256 f.payload))

  -- A frame is written, for a command of at most 12 ASCII characters and a payload within the limit,
  -- and read back from the front of a buffer, with the number of bytes that it takes, wherever its
  -- magic is the expected one and the hash has 32 bytes.
  pub parse_frame-serialise :
      (expect_magic : Option Bytes)
      → wrong_magic double_sha256 expect_magic f.magic ≡ false
      → (bs : Bytes) × (serialise double_sha256 f ≡ ok bs)
        × (parse_frame double_sha256 (bs ++ rest) expect_magic ≡ ok (f, 24 + length f.payload))
  unfolding parse_frame
  parse_frame-serialise expect_magic right =
      let command : decode_ascii (rstrip (take 12 (drop 4 (whole ++ rest)))) ≡ f.command =
        ap (λ x. decode_ascii (rstrip x)) command-part
        ∙ ap decode_ascii padded-back
        ∙ decode_ascii-id f.command named in
      let count : from_le (take 4 (drop 16 (whole ++ rest))) ≡ length f.payload =
        ap from_le count-part ∙ count-back in
      (
        whole,
        serialise-whole,
        rw (magic-part, command, count, checksum-part, payload-part, right, length-whole)
            (ground (arith, checked, small)),
      )
