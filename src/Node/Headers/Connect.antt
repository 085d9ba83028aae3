-- ===== src/Node/Headers/Connect.antt =====
-- `HeaderStore.with_genesis` and `HeaderStore.connect` of src/channel/node/headers.py.
use bonded_subsat_channel.Base.{
  ◌+◌, ◌≤◌, ◌<◌, ◌≡◌, ◌≢◌, refl, ◌⊎◌, inl, inr, true, Option, none, some, [], ◌∷◌, length, Result,
  ok, err, Error, ltb, ◌==◌, ◌>>=◌, or_raise, arith, Bool-cases, Option-cases,
}
use bonded_subsat_channel.Base.Dict.{lookup, insert, nat_eq, lookup-insert_self}
use bonded_subsat_channel.Base.Bytes.{from_le}
use bonded_subsat_channel.Chain.{Bytes, Hash}
use bonded_subsat_channel.Node.Headers.{
  Header, HeaderStore, header_size, header_hash, with_genesis, prev_hash, header_bits,
  work_for_bits, bits_to_target, checked_header, add_header, connect,
}
use bonded_subsat_channel.Node.Headers.Invariant.{Inv, Continues}
use bonded_subsat_channel.Node.Headers.Insertion.{Joined, add_header-Joined}

module _ (double_sha256 : Bytes → Bytes) where
  -- why a header does not go in
  pub data Refuses (s : HeaderStore) (raw : Bytes) : Type 0 where
    wrong_size : length raw ≢ header_size → Refuses s raw
    orphan :
        (h : Hash)
        → header_hash double_sha256 raw ≡ ok h
        → lookup h s.by_hash ≡ none
        → lookup (prev_hash raw) s.by_hash ≡ none
        → Refuses s raw
    no_work :
        (h : Hash)
        → header_hash double_sha256 raw ≡ ok h
        → lookup h s.by_hash ≡ none
        → (bits_to_target (header_bits raw) ≡ 0) ⊎ (bits_to_target (header_bits raw) < h)
        → Refuses s raw

  pub data ConnectOutcome (s : HeaderStore) (v : Inv double_sha256 s) (raw : Bytes)
      : Result (Header × HeaderStore) → Type 0 where
    known :
        (h : Hash) (e : Header)
        → header_hash double_sha256 raw ≡ ok h
        → lookup h s.by_hash ≡ some e
        → ConnectOutcome s v raw (ok (e, s))
    joined :
        (h : Hash) (e : Header) (s' : HeaderStore)
        → header_hash double_sha256 raw ≡ ok h
        → lookup h s.by_hash ≡ none
        → e.raw ≡ raw
        → Continues s h e
        → Joined double_sha256 s v h e s'
        → ConnectOutcome s v raw (ok (e, s'))
    refused : Refuses s raw → ConnectOutcome s v raw (err Error.header)

  joins :
      (s : HeaderStore) (v : Inv double_sha256 s) (raw : Bytes) (h : Hash)
      → header_hash double_sha256 raw ≡ ok h
      → lookup h s.by_hash ≡ none
      → (parent : Header) → lookup (prev_hash raw) s.by_hash ≡ some parent
      → ConnectOutcome s v raw
          (checked_header double_sha256 raw h parent >>= add_header double_sha256 s h)
  unfolding checked_header
  joins s v raw h hashes fresh parent found =
      elim (Bool-cases (bits_to_target (header_bits raw) == 0)) [
        | inl zeroed ↦ rw zeroed (refused (no_work h hashes fresh (inl (ground arith))))
        | inr some_target ↦ elim (Bool-cases (ltb (bits_to_target (header_bits raw)) h)) [
          | inl over ↦
              rw (some_target, over) (refused (no_work h hashes fresh (inr (ground arith))))
          | inr mined ↦
              let new : Header = record {
                raw = raw;
                height = parent.height + 1;
                cumulative_work = parent.cumulative_work + work_for_bits (header_bits raw);
              } in
              let under : h ≤ bits_to_target (header_bits raw) = ground arith in
              let (s', does, j) =
                add_header-Joined double_sha256 s v h fresh new hashes parent found refl refl
                  under in
              rw (some_target, mined, does)
                (joined h new s' hashes fresh refl
                  (record {
                    parent = parent;
                    found = found;
                    higher = refl;
                    heavier = refl;
                    mined = under;
                  })
                  j)
        ]
      ]

  looks :
      (s : HeaderStore) (v : Inv double_sha256 s) (raw : Bytes) (h : Hash)
      → header_hash double_sha256 raw ≡ ok h
      → (o : Option Header) → lookup h s.by_hash ≡ o
      → ConnectOutcome s v raw (elim o [
        | some e ↦ ok (e, s)
        | none ↦ or_raise (lookup (prev_hash raw) s.by_hash) Error.header >>= λ parent.
            checked_header double_sha256 raw h parent >>= add_header double_sha256 s h
      ])
  looks s v raw h hashes (some e) there = known h e hashes there
  looks s v raw h hashes none fresh = elim (Option-cases (lookup (prev_hash raw) s.by_hash)) [
    | inl missing ↦ rw missing (refused (orphan h hashes fresh missing))
    | inr (parent, found) ↦ rw found (joins s v raw h hashes fresh parent found)
  ]

  -- On a store whose entries are linked up and whose tip has the most work, `connect` hands back a
  -- header that it has with the store as it was, or puts in one that continues its parent and
  -- meets its target and keeps all this, the tip moving to it only for strictly more work, or
  -- raises `HeaderError` for the size, the missing parent or the work.
  pub connect-ConnectOutcome :
      (s : HeaderStore) (v : Inv double_sha256 s) (raw : Bytes)
      → ConnectOutcome s v raw (connect double_sha256 s raw)
  unfolding connect
  connect-ConnectOutcome s v raw = elim (Bool-cases (length raw == header_size)) [
    | inr wrong ↦ rw wrong (refused (wrong_size (ground arith)))
    | inl size ↦
        let h : Hash = from_le (double_sha256 raw) in
        let hashes : header_hash double_sha256 raw ≡ ok h = unfold header_hash in rw size in
        rw (size, hashes) (looks s v raw h hashes (lookup h s.by_hash) refl)
  ]

  -- `with_genesis` on 80 bytes sets up a store of one header, its tip, whose entries are linked up.
  pub with_genesis-Inv :
      (raw : Bytes)
      → length raw ≡ header_size
      → (s : HeaderStore) × (with_genesis double_sha256 raw ≡ ok s) × Inv double_sha256 s
  unfolding with_genesis header_hash insert
  with_genesis-Inv raw size =
      let fits : (length raw == header_size) ≡ true = ground arith in
      let h : Hash = from_le (double_sha256 raw) in
      let e : Header = record {
        raw = raw;
        height = 0;
        cumulative_work = work_for_bits (header_bits raw);
      } in
      let is : (k : Hash) (f : Header) → lookup k ((h, e) ∷ []) ≡ some f → (k ≡ h) × (f ≡ e) =
        λ k f there. unfold lookup in (ground (arith, there), ground (arith, there)) in
      (
        record { by_hash = (h, e) ∷ []; tip_hash = h },
        rw fits,
        record {
          top = e;
          at_tip = lookup-insert_self h e [];
          heaviest = λ k f there. rw ((is k f there).1) (ground arith);
          links = λ k f there.
              rw ((is k f there).0, (is k f there).1)
                (record { hashed = rw fits; linked = inl refl });
        },
      )
