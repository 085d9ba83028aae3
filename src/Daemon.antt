-- ===== src/Daemon.antt =====
-- src/channel/daemon.py: the requests that the service answers, and the daemon around it. A request
-- is told apart by what the code compares `req["cmd"]` with, and a line is that, or text that is no
-- JSON, or nothing. The socket and its threads are left out: requests are answered one after the
-- other, and the thread of a daemon is there as long as its server. An exception of `socket` does
-- not happen, and the tower of the service is the first of those that are bound to its node.
pub mod Serves
use bonded_subsat_channel.Base.{
  ℕ, Bool, true, false, Option, none, some, List, [], ◌∷◌, length, get_elem?, Result, ok, err,
  Error, or_raise, ◌>>=◌,
}
use bonded_subsat_channel.Base.Int.{pos}
use bonded_subsat_channel.Chain.{Bytes, Hash, Tx}
use bonded_subsat_channel.Crypto.{Crypto}
use bonded_subsat_channel.Health.{Counters, Health, inc, collect}
use bonded_subsat_channel.Manager.{ChannelManager}
use bonded_subsat_channel.Node.Headers.{store_height}
use bonded_subsat_channel.Node.Network.{EmbeddedNode}
use bonded_subsat_channel.Node.Network.Blocks.{generate_block}
use bonded_subsat_channel.Scripts.{p2pkh_script}
use bonded_subsat_channel.Store.{Codec}
use bonded_subsat_channel.Watchtower.{Watchers, notify}

pub data Request : Type 0 where
  ping status shutdown node_height other : Request
  -- the value under "payout_pk_hex"
  node_generate : Option (List ℕ) → Request

pub data Response : Type 0 where
  pong stopping unknown : Response
  status_of : Health → Response
  generated : (block_hash : Hash) (txs : ℕ) → Response
  height_of : ℕ → Response
  failed : Error → Response

-- the code points of "blocks.generated"
abbrev pub blocks_generated : List ℕ
blocks_generated =
    98 ∷ 108 ∷ 111 ∷ 99 ∷ 107 ∷ 115 ∷ 46 ∷ 103 ∷ 101 ∷ 110 ∷ 101 ∷ 114 ∷ 97 ∷ 116 ∷ 101 ∷ 100 ∷ []

module _ (c : Crypto) (codec : Codec c) (double_sha256 : Bytes → Bytes) (tx_bytes : Tx → Bytes)
    (read_tx : Bytes → Result (Tx × Bytes))
    (public_key_from_hex : List ℕ → Result c.PublicKey) where
  open c use {PrivateKey, PublicKey}
  open codec use {Text}

  pub record Service : Type 0 where
    pub node : EmbeddedNode
    pub watchers : Watchers Text PublicKey
    pub manager : ChannelManager PrivateKey Text
    pub metrics : Counters

  -- the service of a server, and whether `shutdown_signal` is set
  pub record Server : Type 0 where
    pub service : Service
    pub signalled : Bool

  -- a service whose observers are nested as deep as the fuel; `now` is the time at which it mines
  module _ (fuel : ℕ) where
    -- the branch of "node.generate", for a key that is read
    unfoldable pub generate : ℕ → PublicKey → Server → Result Response × Server
    generate now pk s =
        let srv = s.service in
        let (answer, after) =
          generate_block c double_sha256 tx_bytes read_tx (notify c codec fuel) (p2pkh_script c pk)
            true [] now (srv.node, srv.watchers) in
        let mined : Service = record srv { node = after.0; watchers = after.1 } in
        elim answer [
          | err e ↦ (err e, record s { service = mined })
          | ok block ↦ (
            ok (generated block.0 (length block.1)),
            record s {
              service = record mined { metrics = inc blocks_generated (pos 1) mined.metrics };
            },
          )
        ]

    unfoldable pub dispatch : ℕ → Request → Server → Result Response × Server
    dispatch now Request.ping s = (ok pong, s)
    dispatch now Request.status s =
        let srv = s.service in
        let health = collect double_sha256 srv.node srv.manager (get_elem? srv.watchers.towers 0) in
        (health >>= λ h. ok (status_of h), s)
    dispatch now Request.shutdown s = (ok stopping, record s { signalled = true })
    dispatch now Request.node_height s =
        (store_height double_sha256 s.service.node.headers >>= λ h. ok (height_of h), s)
    dispatch now Request.other s = (ok unknown, s)
    dispatch now (Request.node_generate text) s =
        elim (or_raise text Error.index_error >>= public_key_from_hex) [
          | err e ↦ (err e, s)
          | ok pk ↦ generate now pk s
        ]

    -- `handle`, for a line that is read; no line has no answer
    unfoldable pub handle : ℕ → Option (Result Request) → Server → Option Response × Server
    handle now none s = (none, s)
    handle now (some (err e)) s = (some (failed e), s)
    handle now (some (ok request)) s =
        let (answer, after) = dispatch now request s in
        (some (elim answer [ err e ↦ failed e | ok response ↦ response ]), after)

    -- requests that come one after the other, each with the time at which it is handled
    unfoldable pub serve :
        List (ℕ × Option (Result Request)) → Server → List (Option Response) × Server
    serve [] s = ([], s)
    serve ((now, line) ∷ lines) s =
        let (answer, after) = handle now line s in
        let (answers, last) = serve lines after in (answer ∷ answers, last)

  pub record Daemon : Type 0 where
    pub service : Service
    pub port : ℕ
    pub server : Option Server

  -- `bound` is the port that the socket is bound to
  unfoldable pub start : ℕ → Daemon → Result ℕ × Daemon
  start bound d = elim d.server [
    | some running ↦ (err Error.daemon, d)
    | none ↦
        let fresh : Server = record { service = d.service; signalled = false } in
        (ok bound, record d { port = bound; server = some fresh })
  ]

  -- the service is shared with the server, and keeps what its requests have done
  unfoldable pub stop : Daemon → Daemon
  stop d = elim d.server [
    | none ↦ d
    | some running ↦ record d { service = running.service; server = none }
  ]
