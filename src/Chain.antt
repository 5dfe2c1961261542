-- ===== src/Chain.antt =====
-- pkg/blockchain: the local chain, its headers, fees and storage.
pub mod Types
pub mod Gas
pub mod Fee
pub mod Verify
pub mod Monad
pub mod Store
pub mod Writes
pub mod Archive
pub mod Blocks
pub mod Genesis
pub mod Ancestors
pub mod Events
pub mod Applied
pub mod Batch
