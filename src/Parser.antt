-- ===== src/Parser.antt =====
-- Readers over bytes that may fail, and how they relate to what an encoder appends. Both cursor
-- codecs of the repository are instances.
mod Defs
pub mod Reads
pub mod Parses
pub mod Ints
pub mod Seq
unfoldable pub use Defs.*
