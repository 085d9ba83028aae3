-- ===== src/Node.antt =====
-- The embedded node, src/channel/node.
pub mod BlockStore
pub mod Validation
pub mod Mempool
pub mod P2p
pub mod Headers
pub mod Block
pub mod Network
