-- ===== src/Node/P2p.antt =====
-- src/channel/node/p2p.py: variable-length integers, frames and the messages of inventories and
-- headers. `hashlib.sha256` twice over is the parameter `double_sha256`; a command is the list of its
-- code points. A parser hands on the bytes that it has not read.
pub mod Varints
pub mod Frames
pub mod Messages
pub mod Handshake
pub mod Versions
use bonded_subsat_channel.Base.{
  ℕ, zero, suc, ◌+◌, ◌-◌, Bool, false, not, Option, none, some, List, [], ◌∷◌, ◌++◌, length, take,
  drop, replicate, Result, ok, err, Error, ◌>>=◌, ◌>>◌, raise_if, leb, ltb, ◌==◌, if◌then◌else◌,
}
use bonded_subsat_channel.Base.Int.{ℤ, pos, negsuc}
use bonded_subsat_channel.Base.Bytes.{to_le, from_le, read, same_bytes}
use bonded_subsat_channel.Chain.{Bytes}

-- 32 * 1024 * 1024
abbrev pub max_message_size : ℕ
max_message_size = 33554432

-- the 24 bytes of a frame before its payload
abbrev pub frame_header_size : ℕ
frame_header_size = 24

unfoldable pub encode_varint : ℤ → Result Bytes
encode_varint (negsuc n) = err Error.p2p
encode_varint (pos n) =
    if ltb n 0xFD
    then ok (n ∷ [])
    else if leb n 0xFFFF
    then (do bs ← to_le 2 n; ok (0xFD ∷ bs))
    else if leb n 0xFFFFFFFF
    then (do bs ← to_le 4 n; ok (0xFE ∷ bs))
    else (do bs ← to_le 8 n; ok (0xFF ∷ bs))

-- the read of an integer of `w` bytes, behind its prefix
unfoldable pub read_int : ℕ → Bytes → Result (ℕ × Bytes)
read_int w buf = do
  let (raw, rest) = read w buf
  raise_if (not (length raw == w)) Error.p2p
  ok (from_le raw, rest)

unfoldable pub read_varint : Bytes → Result (ℕ × Bytes)
read_varint [] = err Error.p2p
read_varint (v ∷ buf) =
    if ltb v 0xFD
    then ok (v, buf)
    else if v == 0xFD
    then read_int 2 buf
    else if v == 0xFE
    then read_int 4 buf
    else read_int 8 buf

unfoldable pub encode_var_bytes : Bytes → Result Bytes
encode_var_bytes b = do n ← encode_varint (pos (length b)); ok (n ++ b)

unfoldable pub read_var_bytes : ℕ → Bytes → Result (Bytes × Bytes)
read_var_bytes cap buf = do
  (n, behind) ← read_varint buf
  raise_if (ltb cap n) Error.p2p
  let (raw, rest) = read n behind
  raise_if (not (length raw == n)) Error.p2p
  ok (raw, rest)

pub record Frame : Type 0 where
  pub magic : Bytes
  pub command : List ℕ
  pub payload : Bytes

-- `str.encode("ascii")`, which raises on a code point above 127
unfoldable pub encode_ascii : List ℕ → Result Bytes
encode_ascii [] = ok []
encode_ascii (x ∷ xs) = do
  raise_if (ltb 127 x) Error.value_error
  rest ← encode_ascii xs
  ok (x ∷ rest)

-- `.decode("ascii", errors="replace")`
unfoldable pub decode_ascii : Bytes → List ℕ
decode_ascii [] = []
decode_ascii (b ∷ bs) = (if ltb 127 b then 0xFFFD else b) ∷ decode_ascii bs

-- `.rstrip(b"\x00")`
unfoldable pub rstrip : Bytes → Bytes
rstrip [] = []
rstrip (b ∷ bs) = elim (rstrip bs) [ [] ↦ if b == 0 then [] else b ∷ [] | c ∷ cs ↦ b ∷ c ∷ cs ]

module _ (double_sha256 : Bytes → Bytes) where
  unfoldable pub serialise : Frame → Result Bytes
  serialise f = do
    cmd_bytes ← encode_ascii f.command
    raise_if (ltb 12 (length cmd_bytes)) Error.p2p
    size ← to_le 4 (length f.payload)
    ok (
        f.magic
        ++ (cmd_bytes ++ replicate (12 - length cmd_bytes) 0)
        ++ size
        ++ take 4 (double_sha256 f.payload)
        ++ f.payload)

  -- `expect_magic is not None and magic != expect_magic`
  unfoldable pub wrong_magic : Option Bytes → Bytes → Bool
  wrong_magic none magic = false
  wrong_magic (some want) magic = not (same_bytes magic want)

  -- the frame and the number of bytes that it takes
  unfoldable pub parse_frame : Bytes → Option Bytes → Result (Frame × ℕ)
  parse_frame raw expect_magic = do
    raise_if (ltb (length raw) frame_header_size) Error.p2p
    let magic = take 4 raw
    raise_if (wrong_magic expect_magic magic) Error.p2p
    let command = decode_ascii (rstrip (take 12 (drop 4 raw)))
    let size = from_le (take 4 (drop 16 raw))
    raise_if (ltb max_message_size size) Error.p2p
    let expected_checksum = take 4 (drop 20 raw)
    let end = frame_header_size + size
    raise_if (ltb (length raw) end) Error.p2p
    let payload = take size (drop frame_header_size raw)
    raise_if (not (same_bytes (take 4 (double_sha256 payload)) expected_checksum)) Error.p2p
    let frame : Frame = record { magic = magic; command = command; payload = payload }
    ok (frame, end)

pub record InvVector : Type 0 where
  pub inv_type : ℕ
  pub hash : Bytes

unfoldable pub serialise_vector : InvVector → Result Bytes
serialise_vector v = do
  raise_if (not (length v.hash == 32)) Error.p2p
  t ← to_le 4 v.inv_type
  ok (t ++ v.hash)

-- the type is read with no check of its length
unfoldable pub parse_vector : Bytes → Result (InvVector × Bytes)
parse_vector buf = do
  let (t, behind) = read 4 buf
  let (h, rest) = read 32 behind
  raise_if (not (length h == 32)) Error.p2p
  let v : InvVector = record { inv_type = from_le t; hash = h }
  ok (v, rest)

-- `for v in items: out += v.serialise()`
unfoldable pub write_all {ℓ} : {A : Type ℓ} → (A → Result Bytes) → List A → Result Bytes
write_all f [] = ok []
write_all f (x ∷ xs) = do b ← f x; rest ← write_all f xs; ok (b ++ rest)

-- `[parse(buf) for _ in range(n)]`
unfoldable pub read_all {ℓ} :
    {A : Type ℓ} → (Bytes → Result (A × Bytes)) → ℕ → Bytes → Result (List A × Bytes)
read_all f zero buf = ok ([], buf)
read_all f (suc n) buf = do (x, behind) ← f buf; (xs, rest) ← read_all f n behind; ok (x ∷ xs, rest)

unfoldable pub encode_inv : List InvVector → Result Bytes
encode_inv items = do
  n ← encode_varint (pos (length items))
  rest ← write_all serialise_vector items
  ok (n ++ rest)

unfoldable pub parse_inv : Bytes → Result (List InvVector)
parse_inv payload = do
  (n, buf) ← read_varint payload
  (items, _) ← read_all parse_vector n buf
  ok items

-- `HeadersMessage`: each header is followed by a count of no transactions
unfoldable pub write_header : Bytes → Result Bytes
write_header h = do raise_if (not (length h == 80)) Error.p2p; ok (h ++ 0 ∷ [])

unfoldable pub read_header : Bytes → Result (Bytes × Bytes)
read_header buf = do
  let (h, behind) = read 80 buf
  raise_if (not (length h == 80)) Error.p2p
  (_, rest) ← read_varint behind
  ok (h, rest)

unfoldable pub serialise_headers : List Bytes → Result Bytes
serialise_headers raw_headers = do
  n ← encode_varint (pos (length raw_headers))
  rest ← write_all write_header raw_headers
  ok (n ++ rest)

unfoldable pub parse_headers : Bytes → Result (List Bytes)
parse_headers payload = do
  (n, buf) ← read_varint payload
  (headers, _) ← read_all read_header n buf
  ok headers

unfoldable pub serialise_ping : ℕ → Result Bytes
serialise_ping nonce = to_le 8 nonce

unfoldable pub parse_ping : Bytes → Result ℕ
parse_ping payload = do raise_if (ltb (length payload) 8) Error.p2p; ok (from_le (take 8 payload))

pub record GetHeadersMessage : Type 0 where
  pub version : ℕ
  pub block_locator : List Bytes
  pub hash_stop : Bytes

unfoldable pub write_locator : Bytes → Result Bytes
write_locator h = do raise_if (not (length h == 32)) Error.p2p; ok h

-- the lengths of the locator's hashes are tested after all of them are read
unfoldable pub check_locator : List Bytes → Result (Unit {0})
check_locator [] = ok tt
check_locator (h ∷ hs) = do raise_if (not (length h == 32)) Error.p2p; check_locator hs

unfoldable pub serialise_getheaders : GetHeadersMessage → Result Bytes
serialise_getheaders m = do
  v ← to_le 4 m.version
  n ← encode_varint (pos (length m.block_locator))
  hs ← write_all write_locator m.block_locator
  raise_if (not (length m.hash_stop == 32)) Error.p2p
  ok (v ++ n ++ hs ++ m.hash_stop)

unfoldable pub parse_getheaders : Bytes → Result GetHeadersMessage
parse_getheaders payload = do
  let (v, buf) = read 4 payload
  (n, behind) ← read_varint buf
  (locator, rest) ← read_all (λ b. ok (read 32 b)) n behind
  check_locator locator
  let (stop, _) = read 32 rest
  raise_if (not (length stop == 32)) Error.p2p
  ok (record { version = from_le v; block_locator = locator; hash_stop = stop })
