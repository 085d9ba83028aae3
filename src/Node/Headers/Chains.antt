-- ===== src/Node/Headers/Chains.antt =====
-- The walks from the tip of the header store of src/channel/node/headers.py.
use bonded_subsat_channel.Base.{
  ℕ, zero, suc, ◌+◌, ◌≤◌, ◌<◌, ◌≡◌, refl, ◌⊎◌, inl, inr, true, false, none, some, List, [], ◌∷◌,
  length, ok, ltb, ◌==◌, arith, Bool-cases,
}
use bonded_subsat_channel.Base.Int.{pos}
use bonded_subsat_channel.Base.Dict.{lookup, nat_eq}
use bonded_subsat_channel.Chain.{Bytes, Hash}
use bonded_subsat_channel.Node.Headers.{
  Header, HeaderStore, prev_hash, reached, walk, chain_from_tip, find_height, header_at_height, tip,
}
use bonded_subsat_channel.Node.Headers.Invariant.{Inv}

-- the headers are `e`, its parent, and so on to height 0
pub data Descends (s : HeaderStore) : Header → List Header → Type 0 where
  first : (e : Header) → e.height ≡ 0 → Descends s e (e ∷ [])
  onward :
      (e p : Header) (hs : List Header)
      → lookup (prev_hash e.raw) s.by_hash ≡ some p
      → e.height ≡ p.height + 1
      → Descends s p hs
      → Descends s e (e ∷ hs)

module _ (double_sha256 : Bytes → Bytes) (s : HeaderStore) (v : Inv double_sha256 s) where
  walk-Descends :
      (n count : ℕ) (h : Hash) (e : Header)
      → lookup h s.by_hash ≡ some e
      → e.height ≡ n
      → (hs : List Header) × (walk double_sha256 (suc n) s none count e ≡ some hs)
        × Descends s e hs
        × (length hs ≡ e.height + 1)
  unfolding walk reached
  walk-Descends zero count h e there high = (e ∷ [], rw high, first e high, rw high)
  walk-Descends (suc n) count h e there high = elim (v.links h e there).linked [
    | inl low ↦ absurd (omega arith)
    | inr c ↦
        let (hs, walks, down, long) =
          walk-Descends n (count + 1) (prev_hash e.raw) c.parent c.found
            (omega (arith, c.higher)) in
        let above : (e.height == 0) ≡ false = ground (arith, c.higher) in
        (
          e ∷ hs,
          rw (above, c.found, walks),
          onward e c.parent hs c.found c.higher down,
          omega (arith, c.higher, long),
        )
  ]

  -- On a store whose entries are linked up, `chain_from_tip` without a bound comes to an end, and
  -- hands back the tip, its parent, and so on down to height 0, one header for each height.
  pub chain_from_tip-Descends :
      (hs : List Header) × (chain_from_tip double_sha256 s none ≡ ok (some hs))
      × Descends s v.top hs
      × (length hs ≡ v.top.height + 1)
  unfolding chain_from_tip tip
  chain_from_tip-Descends =
      let (hs, walks, down, long) = walk-Descends v.top.height 0 s.tip_hash v.top v.at_tip refl in
      (hs, rw (v.at_tip, walks), down, long)

  find_height-found :
      (n height : ℕ) (h : Hash) (e : Header)
      → lookup h s.by_hash ≡ some e
      → e.height ≡ n
      → height ≤ n
      → (f : Header) × (find_height double_sha256 (suc n) s height e ≡ some (some f))
        × (f.height ≡ height)
  unfolding find_height
  find_height-found zero height h e there high under =
      let at : (e.height == height) ≡ true = ground arith in (e, rw at, ground arith)
  find_height-found (suc n) height h e there high under = elim (v.links h e there).linked [
    | inl low ↦ absurd (omega arith)
    | inr c ↦ elim (Bool-cases (e.height == height)) [
      | inl at ↦ (e, rw at, ground arith)
      | inr above ↦
          let (f, finds, is) =
            find_height-found n height (prev_hash e.raw) c.parent c.found (omega (arith, c.higher))
              (ground (arith, c.higher)) in
          (f, rw (above, c.found, finds), is)
    ]
  ]

  -- `header_at_height` comes to an end, with a header of that height for each one up to that of
  -- the tip, and with none above it or below 0.
  pub header_at_height_outcome :
      (height : ℕ)
      → ((height ≤ v.top.height)
          × ((e : Header) × (header_at_height double_sha256 s (pos height) ≡ ok (some (some e)))
              × (e.height ≡ height)))
        ⊎ ((v.top.height < height)
            × (header_at_height double_sha256 s (pos height) ≡ ok (some none)))
  unfolding header_at_height tip
  header_at_height_outcome height = elim (Bool-cases (ltb v.top.height height)) [
    | inl above ↦ inr (ground arith, rw (v.at_tip, above))
    | inr within ↦
        let under : height ≤ v.top.height = ground arith in
        let (f, finds, is) =
          find_height-found v.top.height height s.tip_hash v.top v.at_tip refl under in
        inl (under, (f, rw (v.at_tip, within, finds), is))
  ]
