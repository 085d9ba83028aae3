-- ===== src/Config/Validity.antt =====
-- `ChannelConfig.__post_init__` of src/channel/config.py, against the description of a valid
-- configuration.
use bonded_subsat_channel.Base.{
  ℕ, ◌≡◌, refl, sym, ap, ap₂, ◌↔◌, List, [], ◌∷◌, map, length, length-map, arith, ok, Error,
  raise_if, leb, not, ◌==◌, >>=-eq-ok,
}
use bonded_subsat_channel.Base.Int.{ℤ, pos, at_least, at_least-le}
use bonded_subsat_channel.Config
use bonded_subsat_channel.Config.{
  ChannelConfig, AllPositive, check_bonds, make_config, height_limit,
}

check_bonds-ok : (bs : List ℕ) → AllPositive bs → check_bonds (map pos bs) ≡ ok bs
unfolding check_bonds
check_bonds-ok [] h = refl
check_bonds-ok (b ∷ bs) (h, hs) = ground (arith, check_bonds-ok bs hs)

check_bonds-AllPositive :
    (zs : List ℤ) {bs : List ℕ} → check_bonds zs ≡ ok bs → (zs ≡ map pos bs) × AllPositive bs
unfolding check_bonds
check_bonds-AllPositive [] {bs = bs} h =
    let none_left : [] ≡ bs = cc h in (rw (← none_left) refl, rw (← none_left) tt)
check_bonds-AllPositive (z ∷ zs) {bs = bs} h =
    let (v, ev, h1) = >>=-eq-ok (at_least Error.config 1 z) _ h in
    let (rest, er, h2) = >>=-eq-ok (check_bonds zs) _ h1 in
    let (same, good) = check_bonds-AllPositive zs er in
    let (is, low) = at_least-le Error.config 1 z ev in
    let all : v ∷ rest ≡ bs = cc h2 in (rw (← all) (ap₂ ◌∷◌ is same), rw (← all) (low, good))

-- The integers that a configuration carries.
abbrev pub Reads : ℤ → ℤ → ℤ → List ℤ → ℤ → ℤ → ChannelConfig → Type 0
Reads n k s bonds l0 delta cfg =
    (n ≡ pos cfg.n)
    × (k ≡ pos cfg.k)
    × (s ≡ pos cfg.s)
    × (bonds ≡ map pos cfg.bonds)
    × (l0 ≡ pos cfg.l0)
    × (delta ≡ pos cfg.delta)

pub make_config-ok :
    (cfg : ChannelConfig)
    → Config.IsValid cfg
    → make_config
        (pos cfg.n)
        (pos cfg.k)
        (pos cfg.s)
        (map pos cfg.bonds)
        (pos cfg.l0)
        (pos cfg.delta)
      ≡ ok cfg
unfolding make_config
make_config-ok cfg v = ground (
  arith,
  check_bonds-ok cfg.bonds v.bonds_positive,
  length-map cfg.bonds pos,
  v.parties,
  v.subdivided,
  v.funded,
  v.bonded,
  v.horizon,
  v.staggered,
  v.is_height,
)

make_config-Reads :
    (n k s : ℤ) (bonds : List ℤ) (l0 delta : ℤ) {cfg : ChannelConfig}
    → make_config n k s bonds l0 delta ≡ ok cfg
    → Config.IsValid cfg × Reads n k s bonds l0 delta cfg
unfolding make_config
make_config-Reads n k s bonds l0 delta {cfg = cfg} h =
    let (n', en, h1) = >>=-eq-ok (at_least Error.config 2 n) _ h in
    let (k', ek, h2) = >>=-eq-ok (at_least Error.config 1 k) _ h1 in
    let (s', es, h3) = >>=-eq-ok (at_least Error.config 1 s) _ h2 in
    let (_, ew, h4) = >>=-eq-ok (raise_if (not (length bonds == n')) Error.config) _ h3 in
    let (bs, eb, h5) = >>=-eq-ok (check_bonds bonds) _ h4 in
    let (l', el, h6) = >>=-eq-ok (at_least Error.config 1 l0) _ h5 in
    let (d', ed, h7) = >>=-eq-ok (at_least Error.config 1 delta) _ h6 in
    let (_, eh, h8) = >>=-eq-ok (raise_if (leb height_limit l') Error.config) _ h7 in
    let (n_is, n_low) = at_least-le Error.config 2 n en in
    let (k_is, k_low) = at_least-le Error.config 1 k ek in
    let (s_is, s_low) = at_least-le Error.config 1 s es in
    let (b_is, b_low) = check_bonds-AllPositive bonds eb in
    let (l_is, l_low) = at_least-le Error.config 1 l0 el in
    let (d_is, d_low) = at_least-le Error.config 1 delta ed in
    let made : ChannelConfig = record { n = n'; k = k'; s = s'; bonds = bs; l0 = l'; delta = d' } in
    let all : made ≡ cfg = cc h8 in
    let valid : Config.IsValid made = record {
      parties = n_low;
      subdivided = k_low;
      funded = s_low;
      bonded = ground (arith, ew, sym (length-map bs pos), ap length b_is);
      bonds_positive = b_low;
      horizon = l_low;
      staggered = d_low;
      is_height = ground (arith, eh);
    } in
    (rw (← all) valid, rw (← all) (n_is, k_is, s_is, b_is, l_is, d_is))

-- A configuration is accepted exactly when it is valid: `__post_init__` passes the integers of a
-- valid configuration, and whatever it passes is a valid configuration of those integers.
pub make_config-IsValid :
    (cfg : ChannelConfig) (n k s : ℤ) (bonds : List ℤ) (l0 delta : ℤ)
    → make_config n k s bonds l0 delta ≡ ok cfg
      ↔ Config.IsValid cfg × Reads n k s bonds l0 delta cfg
make_config-IsValid cfg n k s bonds l0 delta = (
  make_config-Reads n k s bonds l0 delta,
  λ (valid, (n_is, k_is, s_is, b_is, l_is, d_is)).
      rw (n_is, k_is, s_is, b_is, l_is, d_is) (make_config-ok cfg valid),
)
