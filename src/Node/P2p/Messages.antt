-- ===== src/Node/P2p/Messages.antt =====
-- The inventories and lists of headers of src/channel/node/p2p.py, written and read back.
use mathlib.Core.List.{append-nil, append_assoc}
use bonded_subsat_channel.Base.{
  ◌<◌, ◌≡◌, refl, List, [], ◌∷◌, ◌++◌, length, take, Result, ok, arith,
}
use bonded_subsat_channel.Base.Bytes.{
  limit, le, length-le, from_le-le, take-append, drop-append, read,
}
use bonded_subsat_channel.Chain.{Bytes}
use bonded_subsat_channel.Node.P2p.{
  read_varint, InvVector, serialise_vector, parse_vector, write_all, read_all, encode_inv,
  parse_inv, write_header, read_header, serialise_headers, parse_headers, GetHeadersMessage,
  write_locator, check_locator, serialise_getheaders, parse_getheaders,
}
use bonded_subsat_channel.Node.P2p.Varints.{to_le-ok, read_varint-encode_varint}

-- Every item of the list has the property.
abbrev pub All {ℓ} : {A : Type ℓ} → (A → Type 0) → List A → Type 0
All P [] = Unit {0}
All P (x ∷ xs) = P x × All P xs

-- Items that are read back one by one from what is written for them are read back as a list.
pub read_all-write_all {ℓ} :
    {A : Type ℓ} (P : A → Type 0) (write : A → Result Bytes) (parse : Bytes → Result (A × Bytes))
    → ((x : A) (rest : Bytes)
        → P x
        → (bs : Bytes) × (write x ≡ ok bs) × (parse (bs ++ rest) ≡ ok (x, rest)))
    → (xs : List A) (rest : Bytes) → All P xs
    → (bs : Bytes) × (write_all write xs ≡ ok bs)
      × (read_all parse (length xs) (bs ++ rest) ≡ ok (xs, rest))
unfolding write_all read_all
read_all-write_all P write parse back [] rest h = ([], refl, refl)
read_all-write_all P write parse back (x ∷ xs) rest h =
    let (tail, et, rt) = read_all-write_all P write parse back xs rest h.1 in
    let (head, eh, rh) = back x (tail ++ rest) h.0 in
    (head ++ tail, rw (eh, et), rw (append_assoc head tail rest, rh, rt))

-- An entry whose type fits four bytes and whose hash has 32.
abbrev pub IsVector : InvVector → Type 0
IsVector v = (v.inv_type < limit 4) × (length v.hash ≡ 32)

parse_vector-serialise_vector :
    (v : InvVector) (rest : Bytes)
    → IsVector v
    → (bs : Bytes) × (serialise_vector v ≡ ok bs) × (parse_vector (bs ++ rest) ≡ ok (v, rest))
unfolding serialise_vector parse_vector
parse_vector-serialise_vector v rest (fits, sized) =
    let t : Bytes = le 4 v.inv_type in
    (
      t ++ v.hash,
      ground (arith, sized, to_le-ok 4 v.inv_type fits),
      rw
          (
            append_assoc t v.hash rest,
            take-append t (v.hash ++ rest) 4 (length-le 4 v.inv_type),
            drop-append t (v.hash ++ rest) 4 (length-le 4 v.inv_type),
            take-append v.hash rest 32 sized,
            drop-append v.hash rest 32 sized,
            from_le-le 4 v.inv_type fits,
          )
          (ground (arith, sized)),
    )

-- An inventory is written and read back, when each type fits four bytes and each hash has 32.
pub parse_inv-encode_inv :
    (items : List InvVector)
    → length items < limit 8
    → All IsVector items
    → (bs : Bytes) × (encode_inv items ≡ ok bs) × (parse_inv bs ≡ ok items)
unfolding encode_inv parse_inv
parse_inv-encode_inv items few good =
    let (body, eb, rb) =
      read_all-write_all IsVector serialise_vector parse_vector parse_vector-serialise_vector items
        [] good in
    let (n, en, rn) = read_varint-encode_varint (length items) body few in
    (n ++ body, rw (en, eb), rw (rn, rw (append-nil body) at rb))

-- A hash of a locator has 32 bytes.
abbrev pub IsHash : Bytes → Type 0
IsHash h = length h ≡ 32

locator_back :
    (h rest : Bytes)
    → IsHash h
    → (bs : Bytes) × (write_locator h ≡ ok bs) × (ok (read 32 (bs ++ rest)) ≡ ok (h, rest))
unfolding write_locator
locator_back h rest e =
    (h, ground (arith, e), rw (take-append h rest 32 e, drop-append h rest 32 e))

check_locator-ok : (hs : List Bytes) → All IsHash hs → check_locator hs ≡ ok tt
unfolding check_locator
check_locator-ok [] h = refl
check_locator-ok (x ∷ xs) h = ground (arith, h.0, check_locator-ok xs h.1)

-- A request for headers is written and read back, when its version fits four bytes and each hash,
-- the last one too, has 32.
pub parse_getheaders-serialise_getheaders :
    (m : GetHeadersMessage)
    → m.version < limit 4
    → length m.block_locator < limit 8
    → All IsHash m.block_locator
    → IsHash m.hash_stop
    → (bs : Bytes) × (serialise_getheaders m ≡ ok bs) × (parse_getheaders bs ≡ ok m)
unfolding serialise_getheaders parse_getheaders
parse_getheaders-serialise_getheaders m fits few good stop =
    let v : Bytes = le 4 m.version in
    let (hs, eh, rh) =
      read_all-write_all IsHash write_locator (λ b. ok (read 32 b)) locator_back m.block_locator
        m.hash_stop good in
    let (n, en, rn) = read_varint-encode_varint (length m.block_locator) (hs ++ m.hash_stop) few in
    let whole : v ++ n ++ hs ++ m.hash_stop ≡ v ++ (n ++ (hs ++ m.hash_stop)) = simp append_assoc in
    let stops : take 32 m.hash_stop ≡ m.hash_stop =
      rw (append-nil m.hash_stop) at (take-append m.hash_stop [] 32 stop) in
    (
      v ++ n ++ hs ++ m.hash_stop,
      ground (arith, to_le-ok 4 m.version fits, en, eh, stop),
      rw
          (
            whole,
            take-append v (n ++ (hs ++ m.hash_stop)) 4 (length-le 4 m.version),
            drop-append v (n ++ (hs ++ m.hash_stop)) 4 (length-le 4 m.version),
            rn,
            rh,
            check_locator-ok m.block_locator good,
            stops,
            from_le-le 4 m.version fits,
          )
          (ground (arith, stop)),
    )

header_back :
    (h rest : Bytes)
    → length h ≡ 80
    → (bs : Bytes) × (write_header h ≡ ok bs) × (read_header (bs ++ rest) ≡ ok (h, rest))
unfolding write_header read_header read_varint
header_back h rest e = (
  h ++ 0 ∷ [],
  ground (arith, e),
  rw (append_assoc h (0 ∷ []) rest, take-append h (0 ∷ rest) 80 e, drop-append h (0 ∷ rest) 80 e)
      (ground (arith, e)),
)

-- A list of headers of 80 bytes is written and read back.
pub parse_headers-serialise_headers :
    (raw_headers : List Bytes)
    → length raw_headers < limit 8
    → All (λ h. length h ≡ 80) raw_headers
    → (bs : Bytes) × (serialise_headers raw_headers ≡ ok bs) × (parse_headers bs ≡ ok raw_headers)
unfolding serialise_headers parse_headers
parse_headers-serialise_headers raw_headers few good =
    let (body, eb, rb) =
      read_all-write_all (λ h. length h ≡ 80) write_header read_header header_back raw_headers []
        good in
    let (n, en, rn) = read_varint-encode_varint (length raw_headers) body few in
    (n ++ body, rw (en, eb), rw (rn, rw (append-nil body) at rb))
