-- ===== src/Health.antt =====
-- src/channel/obs/metrics.py and src/channel/obs/health.py: counters by name, and a snapshot of the
-- node, the manager and a watchtower. Gauges hold floating-point numbers, and are left out.
use bonded_subsat_channel.Base.{ℕ, Option, none, some, List, length, Result, ok, ◌>>=◌}
use bonded_subsat_channel.Base.Int.{ℤ, pos, ◌+ℤ◌, ◌-ℤ◌}
use bonded_subsat_channel.Base.Dict.{Dict, lookup, insert}
use bonded_subsat_channel.Base.Bytes.{bytes_eq}
use bonded_subsat_channel.Chain.{Bytes}
use bonded_subsat_channel.Manager.{ChannelManager}
use bonded_subsat_channel.Node.Headers.{store_height}
use bonded_subsat_channel.Node.Mempool.{size}
use bonded_subsat_channel.Node.Network.{EmbeddedNode}
use bonded_subsat_channel.Watchtower.{Tower}

-- `_counters`, where a name is the list of its code points
abbrev pub Counters : Type 0
Counters = Dict (List ℕ) ℤ

unfoldable pub counter : List ℕ → Counters → ℤ
counter name d = elim (lookup name d) [ none ↦ pos 0 | some v ↦ v ]

unfoldable pub inc : List ℕ → ℤ → Counters → Counters
inc name value d = insert name (counter name d +ℤ value) d

pub record Health : Type 0 where
  pub node_height : ℕ
  pub mempool_size : ℕ
  pub open_channels : ℤ
  pub closed_channels : ℕ
  pub tower_records : ℕ
  pub tower_interventions : ℕ

module _ {K Text PublicKey : Type 0} (double_sha256 : Bytes → Bytes) where
  unfoldable pub collect :
      EmbeddedNode → ChannelManager K Text → Option (Tower Text PublicKey) → Result Health
  collect node mgr tower = do
    height ← store_height double_sha256 node.headers
    ok (record {
      node_height = height;
      mempool_size = size node.mempool;
      open_channels = pos (length mgr.channels) -ℤ pos (length mgr.closed_channels);
      closed_channels = length mgr.closed_channels;
      tower_records = elim tower [ none ↦ 0 | some t ↦ length t.registry ];
      tower_interventions = elim tower [ none ↦ 0 | some t ↦ t.interventions ];
    })
