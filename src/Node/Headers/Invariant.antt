-- ===== src/Node/Headers/Invariant.antt =====
-- What the header store of src/channel/node/headers.py keeps of its entries.
use bonded_subsat_channel.Base.{◌+◌, ◌≤◌, ◌≡◌, ◌⊎◌, some, ok}
use bonded_subsat_channel.Base.Dict.{lookup, nat_eq}
use bonded_subsat_channel.Chain.{Bytes, Hash}
use bonded_subsat_channel.Node.Headers.{
  Header, HeaderStore, header_hash, prev_hash, header_bits, work_for_bits, bits_to_target,
}

-- the entry continues that of its parent, and its hash meets its target
pub record Continues (s : HeaderStore) (h : Hash) (e : Header) : Type 0 where
  pub parent : Header
  pub found : lookup (prev_hash e.raw) s.by_hash ≡ some parent
  pub higher : e.height ≡ parent.height + 1
  pub heavier : e.cumulative_work ≡ parent.cumulative_work + work_for_bits (header_bits e.raw)
  pub mined : h ≤ bits_to_target (header_bits e.raw)

module _ (double_sha256 : Bytes → Bytes) where
  pub record Linked (s : HeaderStore) (h : Hash) (e : Header) : Type 0 where
    pub hashed : header_hash double_sha256 e.raw ≡ ok h
    pub linked : (e.height ≡ 0) ⊎ Continues s h e

  -- the tip is there and has the most work, and every entry is linked
  pub record Inv (s : HeaderStore) : Type 0 where
    pub top : Header
    pub at_tip : lookup s.tip_hash s.by_hash ≡ some top
    pub heaviest :
        (h : Hash) (e : Header)
        → lookup h s.by_hash ≡ some e
        → e.cumulative_work ≤ top.cumulative_work
    pub links : (h : Hash) (e : Header) → lookup h s.by_hash ≡ some e → Linked s h e
