-- ===== src/Lifecycle/Refresh.antt =====
-- `refresh_channel` of src/channel/lifecycle.py: the channel that succeeds an expired horizon.
use bonded_subsat_channel.Base.{ℕ, ◌<◌, ◌≡◌, refl, true, none, ok, arith}
use bonded_subsat_channel.Base.Int.{pos}
use bonded_subsat_channel.Config
use bonded_subsat_channel.Config.{ChannelConfig, height_limit}
use bonded_subsat_channel.Config.Validity.{make_config-ok}
use bonded_subsat_channel.Accounting.{State}
use bonded_subsat_channel.Accounting.Conserved.{IsConserved, make_state-pos}
use bonded_subsat_channel.Crypto.{Crypto}
use bonded_subsat_channel.Lifecycle.{Channel, mark_confirmed, refresh_channel}
use bonded_subsat_channel.Lifecycle.Funding.{open_channel-ok}
use bonded_subsat_channel.Lifecycle.Settlement.{IsFunded}

-- The configuration with a later horizon.
abbrev pub with_l0 : ℕ → ChannelConfig → ChannelConfig
with_l0 l cfg = record cfg { l0 = l }

with_l0-IsValid :
    (cfg : ChannelConfig) (l : ℕ)
    → Config.IsValid cfg
    → cfg.l0 < l
    → l < height_limit
    → Config.IsValid (with_l0 l cfg)
with_l0-IsValid cfg l v later low = record {
  parties = v.parties;
  subdivided = v.subdivided;
  funded = v.funded;
  bonded = v.bonded;
  bonds_positive = v.bonds_positive;
  horizon = omega arith;
  staggered = v.staggered;
  is_height = low;
}

module _ (c : Crypto) where
  open c use {PrivateKey}

  -- `refresh_channel` of a funded channel at a conserved state, with a horizon later than that of the
  -- channel and below 500000000, hands on the configuration but for the horizon and the balances at
  -- version 0 to a confirmed, funded and conserved successor.
  pub refresh_channel-ok :
      (ch : Channel PrivateKey) (l : ℕ)
      → IsFunded c ch
      → IsConserved ch.state ch.cfg
      → ch.cfg.l0 < l
      → l < height_limit
      → (next : Channel PrivateKey) × (refresh_channel c ch (pos l) ≡ ok next)
        × IsFunded c next
        × IsConserved next.state next.cfg
        × (next.funding_confirmed ≡ true)
        × (next.cfg ≡ with_l0 l ch.cfg)
        × (next.state ≡ record { balances = ch.state.balances; version = 0 })
  unfolding refresh_channel mark_confirmed
  refresh_channel-ok ch l f v later low =
      let cfg : ChannelConfig = with_l0 l ch.cfg in
      let valid : Config.IsValid cfg = with_l0-IsValid ch.cfg l f.valid later low in
      let (next, en, fn, vn, sn, un, cn) =
        open_channel-ok c cfg ch.keybook valid f.keyed (0, 0) none in
      let state : State = record { balances = ch.state.balances; version = 0 } in
      (
        record (mark_confirmed c next) { state = state },
        ground (arith, make_config-ok cfg valid, en, make_state-pos ch.state.balances 0),
        record {
          valid = fn.valid;
          keyed = fn.keyed;
          bonded = fn.bonded;
          script = fn.script;
          output = fn.output;
        },
        rw cn (record { total = v.total; parties = v.parties }),
        refl,
        cn,
        refl,
      )
