-- ===== src/Duckfs.antt =====
-- crates/duckfs/core: the content-addressed filesystem's pure core.
pub mod Limits
pub mod Errors
pub mod Results
pub mod Codec
pub mod Actor
pub mod Kind
pub mod EntryKind
pub mod Objects
pub mod Refs
pub mod Chunks
pub mod Paths
pub mod Hex
pub mod Store
pub mod ReadBudget
pub mod BlockObjects
pub mod Tree
pub mod Retention
pub mod Fs
