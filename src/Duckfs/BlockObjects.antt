-- ===== src/Duckfs/BlockObjects.antt =====
-- The block's object index of crates/duckfs/core/src/state.rs: `encode_block_objects` and
-- `decode_block_objects`. The decoder does not ask for ascending ids: the map sorts them.
pub mod RoundTrip
use ducktape_sdk.Prelude.{ℕ, Option, none, some, List, [], ◌∷◌, ◌++◌, concat_map, length}
use ducktape_sdk.Bytes.{to_le_bytes}
use ducktape_sdk.Bytes.Order.{bytes_order}
use ducktape_sdk.BTree.{BTreeMap, insert}
use ducktape_sdk.Parser.{Result, pure, fail, ◌>>=◌, for_each}
use ducktape_sdk.Duckfs.Errors.{FilesError, block_objects, block_objects_unknown_kind}
use ducktape_sdk.Duckfs.Codec.{ReadFrame, new, push_u32, u8, u32, u64, bytes32, complete}
use ducktape_sdk.Duckfs.Kind
use ducktape_sdk.Duckfs.Kind.{Kind}
use ducktape_sdk.Duckfs.Objects.{ObjectId}

abbrev pub Index : Type 0
Index = BTreeMap ObjectId (Kind × ℕ)

unfoldable pub encode_object : ObjectId × (Kind × ℕ) → List ℕ
encode_object (id, (kind, len)) = id ++ ((Kind.tag kind ∷ []) ++ to_le_bytes 8 len)

unfoldable pub encode_block_objects : Index → List ℕ
encode_block_objects index = push_u32 (length index) ++ concat_map encode_object index

abbrev pub known_block_kind : Option Kind → ReadFrame Kind
known_block_kind none = fail block_objects_unknown_kind
known_block_kind (some kind) = pure kind

unfoldable pub read_object : Index → ReadFrame Index
read_object index = do
  id ← bytes32
  tag ← u8
  kind ← known_block_kind (Kind.from_u8 tag)
  len ← u64
  pure (insert id (kind, len) index)

unfoldable pub read_block_objects : ReadFrame Index
read_block_objects = do count ← u32; for_each count read_object []

unfoldable pub decode_block_objects : List ℕ → Result FilesError Index
decode_block_objects bytes = complete read_block_objects (new block_objects bytes)
