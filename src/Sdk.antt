-- ===== src/Sdk.antt =====
-- crates/kernel/sdk: the codec that every module's snapshot speaks, and what is built on it.
pub mod Codec
pub mod GenesisConfig
pub mod MerkleStore
pub mod StagedStore
pub mod MemStore
