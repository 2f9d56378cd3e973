-- ===== src/Lib.antt =====
-- ducktape-sdk: the deterministic core of the kernel sdk and of the duckfs filesystem.
--
-- The program. A chain runs modules whose state every validator must agree on byte for byte.
-- crates/kernel/sdk holds what each module shares: a codec of length-prefixed fields, the genesis
-- configuration, and the overlay of one block's writes over an injected key-value store.
-- crates/duckfs/core is a versioned filesystem of content-addressed objects: file, tree and snapshot
-- objects, the refs image that the root hashes, canonical paths, actors and authorities, the budget
-- of reads that an operation may spend, and the state machine whose verbs change the refs of a block
-- through one transaction each, before the block is handed out and adopted.
--
-- Where each part is modelled.
--   Sdk.Codec, its children         crates/kernel/sdk/src/codec.rs
--   Sdk.GenesisConfig, its children crates/kernel/sdk/src/genesis_config.rs
--   Sdk.MerkleStore                 the trait of crates/kernel/sdk/src/lib.rs and its documented laws
--   Sdk.StagedStore, its children   crates/kernel/sdk/src/staged_store.rs
--   Sdk.MemStore                    MemStore of crates/kernel/sdk-testkit/src/lib.rs, hash.rs
--   Duckfs.Limits, Duckfs.Hex       crates/duckfs/core/src/wire.rs
--   Duckfs.Codec                    crates/duckfs/core/src/codec.rs
--   Duckfs.Actor                    crates/duckfs/core/src/actor.rs
--   Duckfs.Kind, EntryKind, Objects, Chunks   crates/duckfs/core/src/objects.rs
--   Duckfs.Refs, BlockObjects       crates/duckfs/core/src/state.rs
--   Duckfs.Paths                    crates/duckfs/core/src/paths.rs
--   Duckfs.Store                    crates/duckfs/core/src/store.rs
--   Duckfs.ReadBudget, Duckfs.Tree  crates/duckfs/core/src/tree.rs
--   Duckfs.Tree.Move, Build, Resolve, Walks   mv, build and get, the reads by path, and both reads
--                                   against each other
--   Duckfs.Retention                crates/duckfs/core/src/retention.rs; Exchange is the catalog's
--                                   update, Decimals and Records are about the texts and the records
--   Duckfs.Fs                       crates/duckfs/core/src/fs.rs: the state and the block boundary
--   Duckfs.Fs.Staging, Tables, Detached, Commit   the verbs; below Commit, Safety, Matching and
--                                   Chunking are about what a commit writes, which watches fire and
--                                   how a body is cut
--   Duckfs.Fs.Verbs, Ops            transact, and the verbs as transactions; below Ops, one file for
--                                   what is said of refused and of accepted operations, of uploads
--                                   and of the revision
--   Duckfs.Fs.Sync                  install_refs and ingest_object
--   Duckfs.Fs.Reserved, Keeps       bounds of the refs, over runs of operations and blocks
--   Duckfs.Results                  `?` on results
--   Duckfs.Errors                   the messages of duckfs, a constructor for each
--   Bytes, BTree                    what the code uses of Rust's core and standard library
--   Parser                          methods on `&mut self` that may fail, as state passing, and the
--                                   rules by which an encoder and a decoder are proved inverse
--   Tests                           concrete inputs
--
-- How it is modelled. A byte is a number below 256, a string is its UTF-8 bytes, a `u64` or `u32` is a
-- number whose bound a well-formedness predicate states, and what an encoder writes is cut to its
-- width. A method on `&mut self` takes the state and returns it, and an error ends it. A `BTreeMap` is
-- an association list in ascending order of its keys, a loop over a count is structural recursion on
-- the count. Fuel is used twice: the decimal digits of a `u64` are at most 20, and splitting bytes
-- into chunks takes one round for each byte at most. `usize` is 64 bits wide. An error is a
-- constructor that stands for the message, with the values that it prints where a caller could tell
-- them apart.
--
-- Parameters. SHA-256, NFC normalization, base64 decoding and the backing stores are not in the
-- repository: they are arguments of the definitions that use them. What is asked of a `MerkleStore` is the record `Durable`,
-- its documented behaviour, and `MemStore` is the instance that the concrete inputs use.
--
-- Not modelled: JSON and base64 messages, disk and network input and output, the wasm host, the guest
-- bindings, the filesystem's queries and its garbage collection, and the application wires.
pub mod Prelude
pub mod Bytes
pub mod Parser
pub mod BTree
pub mod Sdk
pub mod Duckfs
pub mod Tests
