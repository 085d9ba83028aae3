-- ===== src/Routing/Staggering.antt =====
-- The staggered locktimes of src/channel/routing.py: `build_path` and
-- `assert_staggering_invariant`.
use bonded_subsat_channel.Base.{
  ℕ, zero, suc, ◌+◌, ◌-◌, ◌*◌, ◌≤◌, ◌<◌, ◌≡◌, refl, not, some, List, [], ◌∷◌, length, get_elem?-lt,
  arith, ok, Error, ◌>>=◌, ◌>>◌, raise_if, ltb, traverse, >>=-eq-ok, Bool,
}
use bonded_subsat_channel.Base.Int.{ℤ, pos, ◌-ℤ◌, ◌==ℤ◌, -ℤ-pos, -ℤ-==ℤ, ==ℤ-pos}
use bonded_subsat_channel.Accounting.Order.{range, range_from}
use bonded_subsat_channel.Chain.{Bytes, Outpoint}
use bonded_subsat_channel.Crypto.{Crypto}
use bonded_subsat_channel.Routing.{
  Hop, HopPath, build_hop, build_path, check_stagger, final_hop, assert_staggering_invariant,
  outpoints_or,
}

-- The locktimes fall by `delta` from hop to hop, and the last leaves `delta`.
abbrev pub Staggered : {K : Type 0} → ℕ → List (Hop K) → Type 0
Staggered delta [] = Unit {0}
Staggered delta (hop ∷ []) = delta ≤ hop.locktime
Staggered delta (hop ∷ next ∷ hops) =
    (hop.locktime ≡ next.locktime + delta) × Staggered delta (next ∷ hops)

module _ (c : Crypto) where
  open c use {PrivateKey}

  -- The loop over the hops from `a` on builds them, and the check of them passes.
  build_hops :
      (keys : List PrivateKey) (value : ℤ) (l0 delta : ℕ) (image : Bytes) (outs : List Outpoint)
      (a m prev : ℕ)
      → a + m < length keys
      → a + m ≤ length outs
      → (a + m) * delta ≤ l0
      → prev + a * delta ≡ l0 + delta
      → (hops : List (Hop PrivateKey)) × (traverse
            (build_hop c keys value l0 delta image outs)
            (range_from a m)
          ≡ ok hops)
        × (length hops ≡ m)
        × (check_stagger c l0 delta a prev hops ≡ ok tt)
  unfolding traverse build_hop check_stagger range_from
  build_hops keys value l0 delta image outs a zero prev hk ho hl hp = ([], refl, refl, refl)
  build_hops keys value l0 delta image outs a (suc m) prev hk ho hl hp =
      let (payer, e1) = get_elem?-lt keys a (omega arith) in
      let (payee, e2) = get_elem?-lt keys (a + 1) (omega arith) in
      let (out, e3) = get_elem?-lt outs a (omega arith) in
      let spread : (a + suc m) * delta ≡ a * delta + delta + m * delta = grind arith in
      let step : (a + 1) * delta ≡ a * delta + delta = grind arith in
      let same : (a + 1 + m) * delta ≡ (a + suc m) * delta = grind arith in
      let (hops, eh, wh, ch) =
        build_hops keys value l0 delta image outs (a + 1) m (l0 - a * delta) (omega arith)
          (omega arith) (omega (arith, same, hl)) (omega (arith, spread, step, hl)) in
      let hop : Hop PrivateKey = record {
        payer_priv = payer;
        payee_priv = payee;
        value = value;
        image_h160 = image;
        locktime = l0 - a * delta;
        funding_outpoint = out;
      } in
      (
        hop ∷ hops,
        ground (arith, e1, e2, e3, eh),
        omega (arith, wh),
        ground (
          arith,
          -ℤ-pos l0 (a * delta) (omega (arith, spread, hl)),
          ==ℤ-pos prev (l0 - a * delta) delta (omega (arith, spread, hl, hp)),
          ch,
        ),
      )

  -- What one round of the loop makes sure of.
  check_round :
      (hop : Hop PrivateKey) (hops : List (Hop PrivateKey)) (l0 delta j prev : ℕ)
      → check_stagger c l0 delta j prev (hop ∷ hops) ≡ ok tt
      → (prev ≡ hop.locktime + delta) × (check_stagger c l0 delta (j + 1) hop.locktime hops ≡ ok tt)
  unfolding check_stagger
  check_round hop hops l0 delta j prev e =
      let on_time : Bool = pos hop.locktime ==ℤ (pos l0 -ℤ pos (j * delta)) in
      let (_, e0, e1) = >>=-eq-ok (raise_if (not on_time) Error.routing) _ e in
      let apart : Bool = (pos prev -ℤ pos hop.locktime) ==ℤ pos delta in
      let (_, e2, e3) = >>=-eq-ok (raise_if (not apart) Error.routing) _ e1 in
      (-ℤ-==ℤ prev hop.locktime delta (ground (arith, e2)), e3)

  final_hop-ok :
      (hops : List (Hop PrivateKey)) (l0 delta j prev : ℕ)
      → (j + length hops) * delta < l0
      → 0 < length hops
      → check_stagger c l0 delta j prev hops ≡ ok tt
      → (final : Hop PrivateKey) × (final_hop c hops ≡ ok final) × (delta ≤ final.locktime)
  unfolding final_hop check_stagger
  final_hop-ok [] l0 delta j prev h k e = absurd (omega arith)
  final_hop-ok (hop ∷ []) l0 delta j prev h k e =
      let step : (j + 1) * delta ≡ j * delta + delta = grind arith in
      (hop, refl, ground (arith, step, h, -ℤ-pos l0 (j * delta) (omega (arith, step, h)), e))
  final_hop-ok (hop ∷ next ∷ hops) l0 delta j prev h k e =
      let same : (j + 1 + suc (length hops)) * delta ≡ (j + suc (suc (length hops))) * delta =
        grind arith in
      final_hop-ok (next ∷ hops) l0 delta (j + 1) hop.locktime (omega (arith, same, h))
        (omega arith) (check_round hop (next ∷ hops) l0 delta j prev e).1

  -- With two keys or more, a positive bound, and a horizon longer than the bound times the number of
  -- hops, `build_path` returns a path with a hop for each pair of neighbours, which passes
  -- `assert_staggering_invariant`. The outpoints are given, one for each hop.
  pub build_path-staggers :
      (keys : List PrivateKey) (value : ℤ) (l0 delta : ℕ) (preimage : Bytes) (outs : List Outpoint)
      → 2 ≤ length keys
      → 1 ≤ delta
      → (length keys - 1) * delta < l0
      → length outs ≡ length keys - 1
      → (path : HopPath PrivateKey) × (build_path c keys value
            (pos l0)
            (pos delta)
            preimage
            (some outs)
          ≡ ok path)
        × (length path.hops ≡ length keys - 1)
        × (assert_staggering_invariant c path ≡ ok tt)
  unfolding build_path outpoints_or assert_staggering_invariant range
  build_path-staggers keys value l0 delta preimage outs h2 hd hl ho =
      let l : ℕ = length keys - 1 in
      let image : Bytes = c.hash160 preimage in
      let (hops, eh, wh, ch) =
        build_hops keys value l0 delta image outs 0 l (l0 + delta) (omega arith) (omega arith)
          (omega arith) (omega arith) in
      let (final, ef, low) =
        final_hop-ok hops l0 delta 0 (l0 + delta) (rw wh (omega arith)) (omega (arith, wh)) ch in
      (
        record {
          hops = hops;
          l0 = l0;
          delta = delta;
          image_h160 = image;
          preimage = some preimage;
        },
        ground (arith, ho, eh),
        wh,
        ground (arith, ch, ef, low),
      )

  check_stagger-Staggered :
      (hop : Hop PrivateKey) (hops : List (Hop PrivateKey)) (l0 delta j prev : ℕ)
      {final : Hop PrivateKey}
      → check_stagger c l0 delta j prev (hop ∷ hops) ≡ ok tt
      → final_hop c (hop ∷ hops) ≡ ok final
      → delta ≤ final.locktime
      → (prev ≡ hop.locktime + delta) × Staggered delta (hop ∷ hops)
  unfolding final_hop
  check_stagger-Staggered hop [] l0 delta j prev e f low =
      ((check_round hop [] l0 delta j prev e).0, ground (arith, f, low))
  check_stagger-Staggered hop (next ∷ more) l0 delta j prev e f low =
      let (at_hop, e1) = check_round hop (next ∷ more) l0 delta j prev e in
      (at_hop, check_stagger-Staggered next more l0 delta (j + 1) hop.locktime e1 f low)

  -- A path that `assert_staggering_invariant` passes has a hop; its first hop returns at the
  -- horizon, each later one exactly `delta` before the hop that it pays on, and the last one `delta`
  -- or more after the start.
  pub assert_staggering_invariant-Staggered :
      (path : HopPath PrivateKey)
      → assert_staggering_invariant c path ≡ ok tt
      → (first : Hop PrivateKey) × (rest : List (Hop PrivateKey)) × (path.hops ≡ first ∷ rest)
        × (first.locktime ≡ path.l0)
        × Staggered path.delta (first ∷ rest)
  unfolding assert_staggering_invariant check_stagger final_hop
  assert_staggering_invariant-Staggered path e = by_hops path.hops refl e
    where
      by_hops :
          (hops : List (Hop PrivateKey))
          → path.hops ≡ hops
          → (check_stagger c path.l0 path.delta 0 (path.l0 + path.delta) hops
              >> (final_hop c hops >>= λ final.
                  raise_if (ltb final.locktime path.delta) Error.routing))
            ≡ ok tt
          → (first : Hop PrivateKey) × (rest : List (Hop PrivateKey)) × (path.hops ≡ first ∷ rest)
            × (first.locktime ≡ path.l0)
            × Staggered path.delta (first ∷ rest)
      by_hops [] same h = cc
      by_hops (hop ∷ hops) same h =
          let (_, e0, e1) =
            >>=-eq-ok (check_stagger c path.l0 path.delta 0 (path.l0 + path.delta) (hop ∷ hops)) _
              h in
          let (final, e2, e3) = >>=-eq-ok (final_hop c (hop ∷ hops)) _ e1 in
          let (at_start, fall) =
            check_stagger-Staggered hop hops path.l0 path.delta 0 (path.l0 + path.delta) e0 e2
              (ground (arith, e3)) in
          (hop, hops, same, omega (arith, at_start), fall)
