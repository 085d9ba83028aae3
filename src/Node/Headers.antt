-- ===== src/Node/Headers.antt =====
-- src/channel/node/headers.py: block headers of 80 bytes and the store that follows the most work.
-- `hashlib.sha256` twice over is the parameter `double_sha256`. The hash of a block is the number
-- that its 32 bytes write in little-endian order, which is `hash_to_int` of them.
pub mod Invariant
pub mod Insertion
pub mod Connect
pub mod Chains
pub mod Fields
use bonded_subsat_channel.Base.{
  ℕ, zero, suc, ◌+◌, ◌-◌, ◌*◌, ◌/◌, ◌%◌, Bool, true, false, not, ◌||◌, Option, none, some, List, [],
  ◌∷◌, ◌++◌, length, take, drop, Result, ok, err, Error, ◌>>=◌, ◌>>◌, raise_if, or_raise, leb, ltb,
  ◌==◌, if◌then◌else◌,
}
use bonded_subsat_channel.Base.Int.{ℤ, pos, negsuc, leb_ℤ}
use bonded_subsat_channel.Base.Dict.{Dict, lookup, insert, nat_eq}
use bonded_subsat_channel.Base.Bytes.{limit, le, from_le, to_le_signed, from_le_signed}
use bonded_subsat_channel.Chain.{Bytes, Hash}

abbrev pub header_size : ℕ
header_size = 80

-- `bits >> 24` and `bits & 0x007FFFFF`, with shifts by whole bytes
unfoldable pub bits_to_target : ℕ → ℕ
bits_to_target bits =
    let exponent = bits / 0x1000000 in
    let mantissa = bits % 0x800000 in
    if leb exponent 3 then mantissa / limit (3 - exponent) else mantissa * limit (exponent - 3)

-- `_work_for_bits`, with `1 << 256` as `limit 32`
unfoldable pub work_for_bits : ℕ → ℕ
work_for_bits bits =
    let target = bits_to_target bits in if target == 0 then 0 else limit 32 / (target + 1)

pub record Header : Type 0 where
  pub raw : Bytes
  pub height : ℕ
  pub cumulative_work : ℕ

abbrev pub field : ℕ → ℕ → Bytes → Bytes
field i n raw = take n (drop i raw)

unfoldable pub header_version : Bytes → ℤ
header_version raw = from_le_signed (field 0 4 raw)

unfoldable pub prev_hash : Bytes → Hash
prev_hash raw = from_le (field 4 32 raw)

unfoldable pub header_merkle_root : Bytes → Bytes
header_merkle_root raw = field 36 32 raw

unfoldable pub header_timestamp : Bytes → ℕ
header_timestamp raw = from_le (field 68 4 raw)

unfoldable pub header_bits : Bytes → ℕ
header_bits raw = from_le (field 72 4 raw)

unfoldable pub header_nonce : Bytes → ℕ
header_nonce raw = from_le (field 76 4 raw)

-- `x & 0xFFFFFFFF` is `x % limit 4`
unfoldable pub build_raw_header : ℤ → Bytes → Bytes → ℕ → ℕ → ℕ → Result Bytes
build_raw_header version prev root timestamp bits nonce = do
  raise_if (not (length prev == 32)) Error.header
  raise_if (not (length root == 32)) Error.header
  v ← to_le_signed 4 version
  ok (
      v
      ++ prev
      ++ root
      ++ le 4 (timestamp % limit 4)
      ++ le 4 (bits % limit 4)
      ++ le 4 (nonce % limit 4))

pub record HeaderStore : Type 0 where
  pub by_hash : Dict Hash Header
  pub tip_hash : Hash

module _ (double_sha256 : Bytes → Bytes) where
  unfoldable pub header_hash : Bytes → Result Hash
  header_hash raw = do
    raise_if (not (length raw == header_size)) Error.header
    ok (from_le (double_sha256 raw))

  unfoldable pub with_genesis : Bytes → Result HeaderStore
  with_genesis raw = do
    h ← header_hash raw
    let genesis : Header = record {
      raw = raw;
      height = 0;
      cumulative_work = work_for_bits (header_bits raw);
    }
    ok (record { by_hash = (h, genesis) ∷ []; tip_hash = h })

  -- `self.by_hash[self.tip_hash]`
  unfoldable pub tip : HeaderStore → Result Header
  tip s = or_raise (lookup s.tip_hash s.by_hash) Error.index_error

  unfoldable pub store_height : HeaderStore → Result ℕ
  store_height s = do t ← tip s; ok t.height

  unfoldable pub lookup_header : HeaderStore → Hash → Option Header
  lookup_header s h = lookup h s.by_hash

  -- the tests of a header whose parent is there, and its entry
  unfoldable pub checked_header : Bytes → Hash → Header → Result Header
  checked_header raw h parent = do
    let target = bits_to_target (header_bits raw)
    raise_if (target == 0) Error.header
    raise_if (ltb target h) Error.header
    ok (record {
      raw = raw;
      height = parent.height + 1;
      cumulative_work = parent.cumulative_work + work_for_bits (header_bits raw);
    })

  -- the entry goes in, and becomes the tip if it has more work
  unfoldable pub add_header : HeaderStore → Hash → Header → Result (Header × HeaderStore)
  add_header s h new = do
    let by_hash = insert h new s.by_hash
    t ← or_raise (lookup s.tip_hash by_hash) Error.index_error
    let moved = if ltb t.cumulative_work new.cumulative_work then h else s.tip_hash
    ok (new, record { by_hash = by_hash; tip_hash = moved })

  unfoldable pub connect : HeaderStore → Bytes → Result (Header × HeaderStore)
  connect s raw = do
    raise_if (not (length raw == header_size)) Error.header
    h ← header_hash raw
    elim (lookup h s.by_hash) [
      | some known ↦ ok (known, s)
      | none ↦ (do
        parent ← or_raise (lookup (prev_hash raw) s.by_hash) Error.header
        new ← checked_header raw h parent
        add_header s h new)
    ]

  -- `n is not None and len(out) >= n`
  unfoldable pub reached : Option ℤ → ℕ → Bool
  reached none count = false
  reached (some n) count = leb_ℤ n (pos count)

  -- the loop of `chain_from_tip` at a header, behind `count` others; `none` is a loop that has not
  -- ended when the fuel is out
  unfoldable pub walk : ℕ → HeaderStore → Option ℤ → ℕ → Header → Option (List Header)
  walk zero s n count h = none
  walk (suc fuel) s n count h =
      let rest : Option (List Header) = elim (lookup (prev_hash h.raw) s.by_hash) [
        | none ↦ some []
        | some p ↦ walk fuel s n (count + 1) p
      ] in
      if h.height == 0 || reached n (count + 1)
      then some (h ∷ [])
      else elim rest [ none ↦ none | some hs ↦ some (h ∷ hs) ]

  -- a round per header of the chain, so the height of the tip is fuel enough
  unfoldable pub chain_from_tip : HeaderStore → Option ℤ → Result (Option (List Header))
  chain_from_tip s n = do t ← tip s; ok (walk (suc t.height) s n 0 t)

  -- the loop of `header_at_height`; the outer `none` is a loop that has not ended
  unfoldable pub find_height : ℕ → HeaderStore → ℕ → Header → Option (Option Header)
  find_height zero s height h = none
  find_height (suc fuel) s height h =
      let rest : Option (Option Header) = elim (lookup (prev_hash h.raw) s.by_hash) [
        | none ↦ some none
        | some p ↦ find_height fuel s height p
      ] in
      if h.height == height then some (some h) else rest

  unfoldable pub header_at_height : HeaderStore → ℤ → Result (Option (Option Header))
  header_at_height s (negsuc _) = ok (some none)
  header_at_height s (pos height) = do
    t ← tip s
    ok (if ltb t.height height then some none else find_height (suc t.height) s height t)
