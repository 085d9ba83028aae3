-- ===== src/Tests/Hops.antt =====
-- The theorems on paths of hops at concrete inputs.
use bonded_subsat_channel.Base.{ℕ, ◌≡◌, refl, some, none, List, [], ◌∷◌, length, arith, ok}
use bonded_subsat_channel.Base.Int.{pos, ◌-ℤ◌}
use bonded_subsat_channel.Chain.{Outpoint}
use bonded_subsat_channel.Routing.{
  Hop, HopPath, build_path, check_stagger, final_hop, assert_staggering_invariant,
}
use bonded_subsat_channel.Routing.Staggering.{build_path-staggers}
use bonded_subsat_channel.Tests.Fixtures.{toy, keys}

abbrev outs : List Outpoint
outs = (5, 0) ∷ (6, 1) ∷ []

build_path-staggers_example :
    (path : HopPath ℕ) × (build_path toy keys (pos 40) (pos 30) (pos 10) (9 ∷ []) (some outs)
      ≡ ok path)
    × (length path.hops ≡ 2)
    × (assert_staggering_invariant toy path ≡ ok tt)
build_path-staggers_example =
    build_path-staggers toy keys (pos 40) 30 10 (9 ∷ []) outs (omega arith) (omega arith)
      (omega arith) refl

abbrev hop : ℕ → ℕ → ℕ → Hop ℕ
hop payer payee locktime = record {
  payer_priv = payer;
  payee_priv = payee;
  value = pos 40;
  image_h160 = [];
  locktime = locktime;
  funding_outpoint = (5, 0);
}

abbrev path : HopPath ℕ
path = record {
  hops = hop 11 12 30 ∷ hop 12 13 20 ∷ [];
  l0 = 30;
  delta = 10;
  image_h160 = [];
  preimage = none;
}

staggers : assert_staggering_invariant toy path ≡ ok tt
unfolding assert_staggering_invariant check_stagger final_hop ◌-ℤ◌
staggers = refl
