-- ===== src/Sdk/MemStore.antt =====
-- `MemStore` of crates/kernel/sdk-testkit/src/lib.rs, the in-memory `MerkleStore`, and `encode_pairs` of
-- crates/kernel/sdk/src/hash.rs, the preimage of its root. SHA-256 is a parameter.
pub mod Law
use ducktape_sdk.Prelude.{ℕ, Option, none, some, List, [], ◌∷◌, ◌++◌, length}
use ducktape_sdk.Bytes.{to_le_bytes}
use ducktape_sdk.Bytes.Order.{bytes_order}
use ducktape_sdk.Parser.{Result, ok, err}
use ducktape_sdk.BTree as btree
use ducktape_sdk.BTree.{BTreeMap}
use ducktape_sdk.Sdk.Codec.{Error, push_bytes}
use ducktape_sdk.Sdk.MerkleStore.{MerkleStore, Writes}

abbrev pub MemStore : Type 0
MemStore = BTreeMap (List ℕ) (List ℕ)

unfoldable pub get : MemStore → List ℕ → Result Error (Option (List ℕ))
get map key = ok (btree.get key map)

-- One round of the loop over the writes.
unfoldable pub write : List ℕ → Option (List ℕ) → MemStore → MemStore
write key (some value) map = btree.insert key value map
write key none map = btree.remove key map

unfoldable pub write_all : MemStore → Writes → MemStore
write_all map [] = map
write_all map ((key, value) ∷ writes) = write_all (write key value map) writes

unfoldable pub commit_batch : MemStore → Writes → MemStore × Result Error (Unit {0})
commit_batch map writes = (write_all map writes, ok tt)

unfoldable pub encode_entries : MemStore → List ℕ
encode_entries [] = []
encode_entries ((key, value) ∷ map) = push_bytes key ++ push_bytes value ++ encode_entries map

unfoldable pub encode_pairs : MemStore → List ℕ
encode_pairs map = to_le_bytes 8 (length map) ++ encode_entries map

module _ (sha256 : List ℕ → List ℕ) where
  unfoldable pub root : MemStore → List ℕ
  root map = sha256 (encode_pairs map)

  -- The trait's default `prefetch` and `get_committed`, and the methods above.
  unfoldable pub mem_store : MerkleStore MemStore
  mem_store = record {
    get = get;
    prefetch = λ map keys. ok tt;
    get_committed = get;
    commit_batch = commit_batch;
    root = root;
  }
