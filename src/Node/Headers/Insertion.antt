-- ===== src/Node/Headers/Insertion.antt =====
-- What `connect` of src/channel/node/headers.py puts into the store.
use bonded_subsat_channel.Base.{
  ◌+◌, ◌≤◌, ◌<◌, ◌≡◌, refl, ap, ◌⊎◌, inl, inr, none, some, ok, ltb, ◌==◌, arith, Bool-cases,
}
use bonded_subsat_channel.Base.Dict.{
  lookup, insert, nat_eq, lookup-insert, lookup-insert_self, lookup-insert_ne,
}
use bonded_subsat_channel.Chain.{Bytes, Hash}
use bonded_subsat_channel.Node.Headers.{
  Header, HeaderStore, header_hash, prev_hash, header_bits, work_for_bits, bits_to_target,
  add_header,
}
use bonded_subsat_channel.Node.Headers.Invariant.{Inv, Linked}

module _ (double_sha256 : Bytes → Bytes) where
  -- the store behind a header that went in
  pub record Joined (s : HeaderStore) (v : Inv double_sha256 s) (h : Hash) (e : Header)
      (s' : HeaderStore) : Type 0 where
    pub inv : Inv double_sha256 s'
    pub there : lookup h s'.by_hash ≡ some e
    pub stays : (k : Hash) (f : Header) → lookup k s.by_hash ≡ some f → lookup k s'.by_hash ≡ some f
    pub first_seen :
        (s'.tip_hash ≡ s.tip_hash)
        ⊎ ((s'.tip_hash ≡ h) × (v.top.cumulative_work < e.cumulative_work))

  module _ (s : HeaderStore) (v : Inv double_sha256 s) (h : Hash)
      (fresh : lookup h s.by_hash ≡ none) (new : Header)
      (hashed : header_hash double_sha256 new.raw ≡ ok h) where
    kept :
        (k : Hash) (e : Header)
        → lookup k s.by_hash ≡ some e
        → lookup k (insert h new s.by_hash) ≡ some e
    kept k e found =
        rw
          (lookup-insert_ne k h new s.by_hash
            (λ same. cc (found, fresh, ap (λ x. lookup x s.by_hash) same)))
          found

    kept-Linked :
        (t k : Hash) (e : Header)
        → Linked double_sha256 s k e
        → Linked double_sha256 (record { by_hash = insert h new s.by_hash; tip_hash = t }) k e
    kept-Linked t k e l = record {
      hashed = l.hashed;
      linked = elim l.linked [
        | inl first ↦ inl first
        | inr c ↦ inr (record {
          parent = c.parent;
          found = kept (prev_hash e.raw) c.parent c.found;
          higher = c.higher;
          heavier = c.heavier;
          mined = c.mined;
        })
      ];
    }

    module _ (parent : Header) (found : lookup (prev_hash new.raw) s.by_hash ≡ some parent)
        (higher : new.height ≡ parent.height + 1)
        (heavier : new.cumulative_work
          ≡ parent.cumulative_work + work_for_bits (header_bits new.raw))
        (mined : h ≤ bits_to_target (header_bits new.raw)) where
      new-Linked :
          (t : Hash)
          → Linked double_sha256 (record { by_hash = insert h new s.by_hash; tip_hash = t }) h new
      new-Linked t = record {
        hashed = hashed;
        linked = inr (record {
          parent = parent;
          found = kept (prev_hash new.raw) parent found;
          higher = higher;
          heavier = heavier;
          mined = mined;
        });
      }

      each-Linked :
          (t k : Hash) (e : Header)
          → lookup k (insert h new s.by_hash) ≡ some e
          → Linked double_sha256 (record { by_hash = insert h new s.by_hash; tip_hash = t }) k e
      each-Linked t k e there = elim (Bool-cases (k == h)) [
        | inl same ↦
            let at : k ≡ h = ground (arith, same) in
            let is : e ≡ new = ground (arith, there, same, lookup-insert k h new s.by_hash) in
            rw (at, is) (new-Linked t)
        | inr other ↦
            kept-Linked t k e
              (v.links k e (ground (arith, there, other, lookup-insert k h new s.by_hash)))
      ]

      moved_Inv :
          (t : Hash) (top : Header)
          → lookup t (insert h new s.by_hash) ≡ some top
          → v.top.cumulative_work ≤ top.cumulative_work
          → new.cumulative_work ≤ top.cumulative_work
          → Inv double_sha256 (record { by_hash = insert h new s.by_hash; tip_hash = t })
      moved_Inv t top at old mine = record {
        top = top;
        at_tip = at;
        heaviest = λ k e there. elim (Bool-cases (k == h)) [
          | inl same ↦
              let is : e ≡ new = ground (arith, there, same, lookup-insert k h new s.by_hash) in
              rw is mine
          | inr other ↦
              let was : lookup k s.by_hash ≡ some e =
                ground (arith, there, other, lookup-insert k h new s.by_hash) in
              omega (arith, v.heaviest k e was)
        ];
        links = each-Linked t;
      }

      pub add_header-Joined :
          (s' : HeaderStore) × (add_header double_sha256 s h new ≡ ok (new, s'))
          × Joined s v h new s'
      unfolding add_header
      add_header-Joined =
          let tip_there = kept s.tip_hash v.top v.at_tip in
          elim (Bool-cases (ltb v.top.cumulative_work new.cumulative_work)) [
            | inl more ↦ (
              record { by_hash = insert h new s.by_hash; tip_hash = h },
              rw (tip_there, more),
              record {
                inv =
                    moved_Inv h new (lookup-insert_self h new s.by_hash) (ground arith)
                      (ground arith);
                there = lookup-insert_self h new s.by_hash;
                stays = kept;
                first_seen = inr (refl, ground arith);
              },
            )
            | inr less ↦ (
              record { by_hash = insert h new s.by_hash; tip_hash = s.tip_hash },
              rw (tip_there, less),
              record {
                inv = moved_Inv s.tip_hash v.top tip_there (ground arith) (ground arith);
                there = lookup-insert_self h new s.by_hash;
                stays = kept;
                first_seen = inl refl;
              },
            )
          ]
