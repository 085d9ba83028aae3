-- ===== src/Config.antt =====
-- src/channel/config.py: the constants of the protocol and `ChannelConfig`.
-- The fields are natural numbers once `make_config` (`__post_init__`) has accepted the integers.
pub mod Validity
use bonded_subsat_channel.Base.{
  ℕ, ◌≤◌, ◌<◌, ◌≡◌, List, [], ◌∷◌, arith, length, replicate, Result, ok, Error, ◌>>=◌, ◌>>◌,
  raise_if, leb, not, ◌==◌, if◌then◌else◌,
}
use bonded_subsat_channel.Base.Int.{ℤ, pos, negsuc, at_least}

abbrev pub start_sequence : ℕ
start_sequence = 0

abbrev pub final_sequence : ℕ
final_sequence = 0xFFFFFFFF

abbrev pub max_non_final_sequence : ℕ
max_non_final_sequence = 0xFFFFFFFE

abbrev pub default_delta : ℕ
default_delta = 144

abbrev pub default_l0 : ℕ
default_l0 = 100000

abbrev pub coop_locktime : ℕ
coop_locktime = 0

-- the BIP113 threshold, from which a locktime is a time and no height
abbrev pub height_limit : ℕ
height_limit = 500000000

pub record ChannelConfig : Type 0 where
  pub n : ℕ
  pub k : ℕ
  pub s : ℕ
  pub bonds : List ℕ
  pub l0 : ℕ
  pub delta : ℕ

-- `for i, b in enumerate(self.bonds): if b < 1: raise ConfigError`
unfoldable pub check_bonds : List ℤ → Result (List ℕ)
check_bonds [] = ok []
check_bonds (b ∷ bs) = do v ← at_least Error.config 1 b; rest ← check_bonds bs; ok (v ∷ rest)

-- `ChannelConfig.__post_init__`
unfoldable pub make_config : ℤ → ℤ → ℤ → List ℤ → ℤ → ℤ → Result ChannelConfig
unfolding check_bonds
make_config n k s bonds l0 delta = do
  n' ← at_least Error.config 2 n
  k' ← at_least Error.config 1 k
  s' ← at_least Error.config 1 s
  raise_if (not (length bonds == n')) Error.config
  bonds' ← check_bonds bonds
  l0' ← at_least Error.config 1 l0
  delta' ← at_least Error.config 1 delta
  raise_if (leb height_limit l0') Error.config
  ok (record { n = n'; k = k'; s = s'; bonds = bonds'; l0 = l0'; delta = delta' })

-- `[bond] * n`, which is empty for a negative `n`
unfoldable pub repeat_bond : ℤ → ℤ → List ℤ
repeat_bond bond (pos n) = replicate n bond
repeat_bond bond (negsuc _) = []

-- `ChannelConfig.uniform_bond`
unfoldable pub uniform_bond : ℤ → ℤ → ℤ → ℤ → ℤ → ℤ → Result ChannelConfig
unfolding make_config repeat_bond
uniform_bond n k s bond l0 delta = make_config n k s (repeat_bond bond n) l0 delta

-- Every bond is a satoshi at least.
abbrev pub AllPositive : List ℕ → Type 0
AllPositive [] = Unit {0}
AllPositive (b ∷ bs) = (1 ≤ b) × AllPositive bs

-- What `__post_init__` makes sure of.
pub record IsValid (cfg : ChannelConfig) : Type 0 where
  pub parties : 2 ≤ cfg.n
  pub subdivided : 1 ≤ cfg.k
  pub funded : 1 ≤ cfg.s
  pub bonded : length cfg.bonds ≡ cfg.n
  pub bonds_positive : AllPositive cfg.bonds
  pub horizon : 1 ≤ cfg.l0
  pub staggered : 1 ≤ cfg.delta
  pub is_height : cfg.l0 < height_limit
