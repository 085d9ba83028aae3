-- ===== src/Node/Network/Tips.antt =====
-- The header on the tip of a local network, src/channel/node/network.py and headers.py: it becomes the
-- tip when it is new and carries the bits of the network.
use bonded_subsat_channel.Base.{
  ◌+◌, ◌≡◌, ◌∙◌, refl, ap, inl, inr, none, some, length, arith, Result, ok, Error, not, raise_if,
  ◌==◌, ◌%◌, >>=-eq-ok,
}
use bonded_subsat_channel.Base.Bytes.{from_le, limit}
use bonded_subsat_channel.Base.Dict.{lookup, nat_eq}
use bonded_subsat_channel.Chain.{Bytes, Hash}
use bonded_subsat_channel.Node.Headers.{
  Header, HeaderStore, header_size, header_hash, prev_hash, header_bits, bits_to_target,
  work_for_bits,
}
use bonded_subsat_channel.Node.Headers.Connect.{ConnectOutcome, known, joined, refused}
use bonded_subsat_channel.Node.Headers.Fields.{HoldsFields}
use bonded_subsat_channel.Node.Headers.Insertion.{Joined}
use bonded_subsat_channel.Node.Headers.Invariant.{Continues, Inv}
use bonded_subsat_channel.Node.Network.Blocks.{regtest_bits}

module _ (double_sha256 : Bytes → Bytes) where
  pub header_hash-from_le :
      (raw : Bytes) {h : Hash}
      → header_hash double_sha256 raw ≡ ok h
      → from_le (double_sha256 raw) ≡ h
  unfolding header_hash
  header_hash-from_le raw e =
      let (_, _, made) = >>=-eq-ok (raise_if (not (length raw == header_size)) Error.header) _ e in
      cc made

  some_work : work_for_bits (regtest_bits % limit 4) ≡ 2
  unfolding work_for_bits bits_to_target
  some_work = refl

  module _ (s : HeaderStore) (v : Inv double_sha256 s) (raw root : Bytes) (h : Hash)
      (hashed : header_hash double_sha256 raw ≡ ok h) (fresh : lookup h s.by_hash ≡ none)
      (fields : HoldsFields (double_sha256 v.top.raw) root regtest_bits raw) where
    -- a header that goes in on the tip with the work of a block becomes the tip
    becomes_tip :
        (e : Header) (s' : HeaderStore)
        → e.raw ≡ raw
        → Continues s h e
        → Joined double_sha256 s v h e s'
        → (s'.tip_hash ≡ h) × (e.height ≡ v.top.height + 1)
    becomes_tip e s' same c j =
        let linked = v.links s.tip_hash v.top v.at_tip in
        let at : prev_hash e.raw ≡ s.tip_hash =
          ap prev_hash same ∙ fields.parent ∙ header_hash-from_le v.top.raw linked.hashed in
        let parent : c.parent ≡ v.top = (let found = rw at at c.found in cc (found, v.at_tip)) in
        let work : work_for_bits (header_bits e.raw) ≡ 2 =
          ap (λ x. work_for_bits (header_bits x)) same
          ∙ ap work_for_bits fields.bits_are
          ∙ some_work in
        let most = j.inv.heaviest h e j.there in
        let heavier : e.cumulative_work ≡ v.top.cumulative_work + 2 =
          rw (parent, work) at c.heavier in
        (
          elim j.first_seen [
            | inr (moved, _) ↦ moved
            | inl stayed ↦
                let was = j.stays s.tip_hash v.top v.at_tip in
                let now = rw stayed at j.inv.at_tip in
                let kept : j.inv.top ≡ v.top = cc (was, now) in
                let over = rw (kept, heavier) at most in absurd (omega (arith, over))
          ],
          rw parent at c.higher,
        )

    -- A header that is new, on the tip, with the bits of the network becomes the tip.
    pub connect-on_tip :
        {e : Header} {s' : HeaderStore} {r : Result (Header × HeaderStore)}
        → ConnectOutcome double_sha256 s v raw r
        → r ≡ ok (e, s')
        → (s'.tip_hash ≡ h)
          × (lookup h s'.by_hash ≡ some e)
          × (e.height ≡ v.top.height + 1)
          × (e.raw ≡ raw)
          × Inv double_sha256 s'
    connect-on_tip (known h1 e1 hashed1 there) same =
        let at : h1 ≡ h = cc (hashed1, hashed) in
        absurd (cc (there, fresh, ap (λ x. lookup x s.by_hash) at))
    connect-on_tip {e = e} {s' = s'} (joined h1 e1 s1 hashed1 fresh1 raw_is grown j) same =
        let at : h1 ≡ h = cc (hashed1, hashed) in
        let is_e : e1 ≡ e = cc same in
        let is_s : s1 ≡ s' = cc same in
        let g : Continues s h e = rw (at, is_e) at grown in
        let k : Joined double_sha256 s v h e s' = rw (at, is_e, is_s) at j in
        let raw_e : e.raw ≡ raw = rw is_e at raw_is in
        let (tip_at, higher) = becomes_tip e s' raw_e g k in (tip_at, k.there, higher, raw_e, k.inv)
    connect-on_tip (refused why) same = absurd (cc same)
