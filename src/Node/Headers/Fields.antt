-- ===== src/Node/Headers/Fields.antt =====
-- The header that `build_raw_header` of src/channel/node/headers.py writes, read field by field.
use mathlib.Core.List.{append_assoc}
use bonded_subsat_channel.Base.{
  ℕ, ◌+◌, ◌*◌, ◌-◌, ◌%◌, ◌≡◌, ◌∙◌, sym, ap, not, ◌++◌, length, length-append, take, drop, arith, ok,
  Error, raise_if, leb, ltb, ◌==◌, >>=-eq-ok,
}
use bonded_subsat_channel.Base.Int.{ℤ, pos, negsuc}
use bonded_subsat_channel.Base.Bytes.{
  le, from_le, limit, to_le_signed, length-le, from_le-le, take-append, drop-append,
}
use bonded_subsat_channel.Chain.{Bytes}
use bonded_subsat_channel.Node.Headers.{
  build_raw_header, prev_hash, header_merkle_root, header_bits, header_size,
}

-- A field between what stands before it and behind it.
field_append :
    (before mid after : Bytes) (i n : ℕ)
    → length before ≡ i
    → length mid ≡ n
    → take n (drop i (before ++ (mid ++ after))) ≡ mid
field_append before mid after i n wb wm =
    ap (take n) (drop-append before (mid ++ after) i wb) ∙ take-append mid after n wm

-- What a header that is built holds of what it is built from.
pub record HoldsFields (prev root : Bytes) (bits : ℕ) (raw : Bytes) : Type 0 where
  pub size : length raw ≡ header_size
  pub parent : prev_hash raw ≡ from_le prev
  pub root_is : header_merkle_root raw ≡ root
  pub bits_are : header_bits raw ≡ bits % limit 4

module _ (v prev root t b n : Bytes) (wv : length v ≡ 4) (wp : length prev ≡ 32)
    (wr : length root ≡ 32) (wt : length t ≡ 4) (wb : length b ≡ 4) (wn : length n ≡ 4) where
  abbrev joined : Bytes
  joined = v ++ prev ++ root ++ t ++ b ++ n

  from_left : joined ≡ v ++ (prev ++ (root ++ (t ++ (b ++ n))))
  from_left = simp append_assoc

  from_root : joined ≡ (v ++ prev) ++ (root ++ (t ++ (b ++ n)))
  from_root = simp append_assoc

  from_bits : joined ≡ (v ++ (prev ++ (root ++ t))) ++ (b ++ n)
  from_bits = simp append_assoc

  joined-HoldsFields : (bits : ℕ) → from_le b ≡ bits % limit 4 → HoldsFields prev root bits joined
  unfolding prev_hash header_merkle_root header_bits
  joined-HoldsFields bits e = record {
    size = omega (
      arith,
      ap length from_left,
      length-append v (prev ++ (root ++ (t ++ (b ++ n)))),
      length-append prev (root ++ (t ++ (b ++ n))),
      length-append root (t ++ (b ++ n)),
      length-append t (b ++ n),
      length-append b n,
      wv,
      wp,
      wr,
      wt,
      wb,
      wn,
    );
    parent =
        ap (λ x. from_le (take 32 (drop 4 x))) from_left
        ∙ ap from_le (field_append v prev (root ++ (t ++ (b ++ n))) 4 32 wv wp);
    root_is =
        ap (λ x. take 32 (drop 36 x)) from_root
        ∙ field_append (v ++ prev) root (t ++ (b ++ n)) 36 32
            (omega (arith, length-append v prev, wv, wp)) wr;
    bits_are =
        ap (λ x. from_le (take 4 (drop 72 x))) from_bits
        ∙ ap from_le (
            field_append (v ++ (prev ++ (root ++ t))) b n 72 4
              (omega (
                arith,
                length-append v (prev ++ (root ++ t)),
                length-append prev (root ++ t),
                length-append root t,
                wv,
                wp,
                wr,
                wt,
              ))
              wb)
        ∙ e;
  }

to_le_signed-length : (w : ℕ) (z : ℤ) {bs : Bytes} → to_le_signed w z ≡ ok bs → length bs ≡ w
unfolding to_le_signed
to_le_signed-length w (pos n) {bs} e =
    let (_, _, made) = >>=-eq-ok (raise_if (leb (limit w) (2 * n)) Error.overflow) _ e in
    let same : le w n ≡ bs = cc made in ap length (sym same) ∙ length-le w n
to_le_signed-length w (negsuc n) {bs} e =
    let (_, _, made) = >>=-eq-ok (raise_if (ltb (limit w) (2 * (n + 1))) Error.overflow) _ e in
    let same : le w (limit w - (n + 1)) ≡ bs = cc made in
    ap length (sym same) ∙ length-le w (limit w - (n + 1))

-- A header that is built has 80 bytes and the fields that it is built from.
pub build_raw_header-HoldsFields :
    (version : ℤ) (prev root : Bytes) (timestamp bits nonce : ℕ) {raw : Bytes}
    → build_raw_header version prev root timestamp bits nonce ≡ ok raw
    → HoldsFields prev root bits raw
unfolding build_raw_header
build_raw_header-HoldsFields version prev root timestamp bits nonce {raw} e =
    let (_, e0, e1) = >>=-eq-ok (raise_if (not (length prev == 32)) Error.header) _ e in
    let (_, e2, e3) = >>=-eq-ok (raise_if (not (length root == 32)) Error.header) _ e1 in
    let (v, ev, e4) = >>=-eq-ok (to_le_signed 4 version) _ e3 in
    let t : Bytes = le 4 (timestamp % limit 4) in
    let b : Bytes = le 4 (bits % limit 4) in
    let n : Bytes = le 4 (nonce % limit 4) in
    let same : v ++ prev ++ root ++ t ++ b ++ n ≡ raw = cc e4 in
    rw (← same) (
      joined-HoldsFields v prev root t b n (to_le_signed-length 4 version ev) (ground (arith, e0))
        (ground (arith, e2)) (length-le 4 (timestamp % limit 4)) (length-le 4 (bits % limit 4))
        (length-le 4 (nonce % limit 4)) bits (from_le-le 4 (bits % limit 4) (omega arith)))
