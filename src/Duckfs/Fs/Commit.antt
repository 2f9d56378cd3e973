-- ===== src/Duckfs/Fs/Commit.antt =====
-- The commit engine of crates/duckfs/core/src/fs.rs: the changes and their checks, the pass that plans
-- them, and the engine.
pub mod Change
pub mod Plan
pub mod Engine
pub mod Log
pub mod Stages
pub mod Writes
pub mod Safety
pub mod Matching
pub mod Chunking
