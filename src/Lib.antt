-- ===== src/Lib.antt =====
-- Bonded channels that account in fractions of a satoshi and settle in whole ones.
--
-- The parties of a channel share `S` satoshis, each divided into `k` micro-units. Transfers move
-- micro-units off chain and raise the version of the state; a state settles as a transaction whose
-- sequence is its version, so that in the mempool a later state overtakes an earlier one. Each party
-- posts a bond, which goes to the others when it broadcasts an old state. Value crosses channels
-- along paths of hashlocked hops whose return locktimes fall by `delta`.
--
-- Files, and the code that they model (paths from the root of the repository):
--   Config               src/channel/config.py, `ChannelConfig`; `make_config` is `__post_init__`
--   Accounting           src/channel/accounting.py, function by function; `make_state` is
--                        `State.__post_init__`
--   Scripts, Crypto      src/channel/scripts.py and src/channel/signing.py, over bitcoinx
--   Verify               src/channel/verify.py
--   Keys, Bond           src/channel/keymgmt.py and src/channel/bond.py
--   Lifecycle            src/channel/lifecycle.py: funding, transfers and refresh; Lifecycle.Closing
--                        has the state transaction, the cooperative close and the forfeiture
--   Routing              src/channel/routing.py
--   Node.BlockStore      src/channel/node/blockstore.py, the SQL tables as dictionaries
--   Node.Validation      src/channel/node/validation.py
--   Node.Mempool         src/channel/node/mempool.py
--   Node.P2p             src/channel/node/p2p.py, the messages as byte strings; Node.P2p.Handshake has
--                        the version message
--   Node.Headers         src/channel/node/headers.py
--   Node.Block           src/channel/node/block.py
--   Node.Network         src/channel/node/network.py: the node and the undo of a block;
--                        Node.Network.Blocks has mining, Node.Network.Forks acceptance and
--                        reorganisation
--   Watchtower           src/channel/watchtower/registry.py and tower.py; Watchtower.Cluster has
--                        src/channel/watchtower/cluster.py
--   Wallet               src/channel/wallet/builder.py, utxo.py and send.py; Wallet.Manage has
--                        src/channel/wallet/manage.py and the submission of a payment
--   Fees                 src/channel/fees.py and src/channel/watchtower/incentive.py
--   SafeMode             src/channel/safety.py
--   Health               src/channel/obs/metrics.py and src/channel/obs/health.py
--   Manager              src/channel/runtime/manager.py, with the calls of concurrent threads as steps
--   Store                src/channel/store/store.py and src/channel/store/recover.py, with the parameter
--                        `Codec`: what bitcoinx and `json` write and read
--   Persistence          src/channel/persistence.py, the document of a channel
--   Cli                  src/channel/cli.py, the commands on files and `main`, with `save_channel` and
--                        `load_channel` of src/channel/persistence.py
--   Daemon               src/channel/daemon.py, its requests and the life of its server
--   Hd                   src/channel/wallet/hd.py
--   Chain                the transactions of bitcoinx, as records
--   Base.Hex             the hexadecimal digits and the comma-separated lists of Python
--   Base                 lists, integers, dictionaries, exceptions and their lemmas
--   Tests                concrete runs
-- A component's other files hold proofs: Accounting.Conserved, .Transfers, .Runs, .Netting, .Winners
-- and .Fairness; Lifecycle.Versions, .Funding, .Refresh, .Settlement, .Signatures, .Signed and .Forfeit;
-- Node.Mempool.Invariant, .Evict, .Admit, .Outbid, .Replace and .States; Routing.Staggering;
-- Node.Validation.Accepts; Node.P2p.Varints, .Frames, .Messages and .Versions; Node.Headers.Invariant,
-- .Insertion, .Connect, .Chains and .Fields; Node.Block.Merkle and .RoundTrip; Node.Network.Undo,
-- .Reorg, .Tips, .Mining and .Kept; Watchtower.Observers and .Liveness; Wallet.Outputs, .Payment,
-- .Selection, .Spends, .Receives and .Funding; Manager.Safety and .Late; Cli.Documents, .Transfers,
-- .Session, .Closes and .Settles; Daemon.Serves; Hd.Seeds; Store.Latest and .Recovery;
-- Persistence.RoundTrip; Config.Validity; Scripts.Numbers.
--
-- Conventions. A method that changes an object returns the new one. Code that raises is a
-- `Result`, with the class of the exception and no message. Integers that the code tests for a
-- sign are `ℤ`; a field is a natural number where the constructor of its class has passed it. A
-- loop over a list is a recursion on it. What is no such loop runs on fuel: a walk along the
-- headers has one round for each height below its start, a Merkle tree has fewer levels than
-- leaves, the stream that encrypts a seed has a round for each byte, mining has the bound that the
-- code sets, and watchtowers that are notified of their own submissions have a number of nested
-- levels. bitcoinx (keys, signatures, hashes, the interpreter,
-- the hash of a transaction) is the parameter `Crypto` or `Bitcoinx`. The observers of the mempool
-- are a parameter of Node.Mempool, where `IsTame` states what is asked of them; `notify` of
-- Watchtower is the one that the watchtowers of a node make. The store that the mempool reads is
-- that of the node, and stands there once. A block that is stored and a step under a lock happen
-- as a whole; a channel is added in two steps, under the lock of the registry and behind it. Each run
-- of the program is a process of its own. The text of a JSON document and of a transaction has any
-- type, and may fail to be written; where a round trip is stated, what is written is taken to be read
-- back.
--
-- Not modelled: the registry file of a watchtower, gauges, the monitor thread, the socket and the
-- threads of the daemon and the commands that call it, the parser of arguments, logging.
pub mod Base
pub mod Config
pub mod Accounting
pub mod Chain
pub mod Verify
pub mod Crypto
pub mod Scripts
pub mod Keys
pub mod Bond
pub mod Lifecycle
pub mod Node
pub mod Routing
pub mod Store
pub mod Persistence
pub mod Manager
pub mod Watchtower
pub mod Wallet
pub mod Fees
pub mod SafeMode
pub mod Health
pub mod Cli
pub mod Daemon
pub mod Hd
pub mod Tests
