-- ===== src/Tests.antt =====
-- Runs of the models on concrete inputs, and the theorems at concrete inputs.
pub mod Fixtures
pub mod Ledger
pub mod Channels
pub mod Pool
pub mod Hops
pub mod Stores
pub mod Wire
pub mod Blocks
pub mod Threads
pub mod Towers
pub mod Chains
pub mod Policies
pub mod Sessions
mod Wallets
mod Serving
