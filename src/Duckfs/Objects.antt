-- ===== src/Duckfs/Objects.antt =====
-- crates/duckfs/core/src/objects.rs: the object records and their strict canonical codecs. A map is
-- a `BTreeMap` and an object id 32 raw bytes.
pub mod File
pub mod Tree
pub mod Snapshot
pub mod Canonical
use ducktape_sdk.Prelude.{
  ℕ, zero, suc, ◌≡◌, Bool, true, false, Option, none, some, List, [], ◌∷◌, ◌++◌, length, concat_map,
  ltb, ◌==◌, if◌then◌else◌,
}
use ducktape_sdk.Bytes.{to_le_bytes}
use ducktape_sdk.Bytes.Order.{bytes_order}
use ducktape_sdk.BTree.{BTreeMap, insert, last_not_below}
use ducktape_sdk.Parser.{Result, pure, fail, refuse_if, ◌>>=◌, ◌>>◌, for_each}
use ducktape_sdk.Parser.Seq.{push_one}
use ducktape_sdk.Duckfs.Limits.{
  max_chunks_per_file, max_meta_entries, max_meta_key_bytes, max_meta_value_bytes, max_dir_entries,
  max_name_bytes, max_message_bytes,
}
use ducktape_sdk.Duckfs.Errors.{
  FilesError, object_body, chunk_count_over_cap, meta_count_over_cap, meta_key_over_cap,
  meta_value_over_cap, meta_not_ascending, tree_count_over_cap, tree_name_over_cap,
  tree_unknown_kind, tree_not_ascending, message_over_cap,
}
use ducktape_sdk.Duckfs.Codec.{
  ReadFrame, push_string, u8, u16, u32, u64, bytes32, boolean, string, new, complete,
}
use ducktape_sdk.Duckfs.Actor
use ducktape_sdk.Duckfs.EntryKind
use ducktape_sdk.Duckfs.EntryKind.{EntryKind}
use ducktape_sdk.Duckfs.Actor.{Actor}

abbrev pub ObjectId : Type 0
ObjectId = List ℕ

pub record FileObj : Type 0 where
  pub size : ℕ
  pub chunks : List ObjectId
  pub meta : BTreeMap (List ℕ) (List ℕ)

abbrev pub encode_meta : List ℕ × List ℕ → List ℕ
encode_meta (key, value) = push_string key ++ push_string value

unfoldable pub encode_file : FileObj → List ℕ
encode_file f =
    to_le_bytes 8 f.size
    ++ (to_le_bytes 4 (length f.chunks)
        ++ (concat_map (λ id. id) f.chunks
            ++ (to_le_bytes 2 (length f.meta) ++ concat_map encode_meta f.meta)))

-- One round of the loop over the metadata.
unfoldable pub read_meta : BTreeMap (List ℕ) (List ℕ) → ReadFrame (BTreeMap (List ℕ) (List ℕ))
read_meta meta = do
  key ← string
  value ← string
  refuse_if (ltb max_meta_key_bytes (length key)) meta_key_over_cap
  refuse_if (ltb max_meta_value_bytes (length value)) meta_value_over_cap
  refuse_if (last_not_below key meta) meta_not_ascending
  pure (insert key value meta)

unfoldable pub read_file : ReadFrame FileObj
read_file = do
  size ← u64
  chunk_count ← u32
  refuse_if (ltb max_chunks_per_file chunk_count) chunk_count_over_cap
  chunks ← for_each chunk_count (push_one bytes32) []
  meta_count ← u16
  refuse_if (ltb max_meta_entries meta_count) meta_count_over_cap
  meta ← for_each meta_count read_meta []
  pure (record { size = size; chunks = chunks; meta = meta })

unfoldable pub decode_file : List ℕ → Result FilesError FileObj
decode_file bytes = complete read_file (new object_body bytes)

pub record TreeEntry : Type 0 where
  pub kind : EntryKind
  pub id : ObjectId
  pub exec : Bool
  pub size : ℕ

abbrev pub Entries : Type 0
Entries = BTreeMap (List ℕ) TreeEntry

-- `u8::from(bool)`
abbrev pub byte_of_bool : Bool → ℕ
byte_of_bool true = 1
byte_of_bool false = 0

unfoldable pub encode_entry : List ℕ × TreeEntry → List ℕ
encode_entry (name, entry) =
    push_string name
    ++ ((EntryKind.tag entry.kind ∷ [])
        ++ (entry.id ++ ((byte_of_bool entry.exec ∷ []) ++ to_le_bytes 8 entry.size)))

unfoldable pub encode_tree : Entries → List ℕ
encode_tree entries = to_le_bytes 4 (length entries) ++ concat_map encode_entry entries

-- `ok_or_else` on the kind of an entry.
abbrev pub known_kind : Option EntryKind → ReadFrame EntryKind
known_kind none = fail tree_unknown_kind
known_kind (some kind) = pure kind

unfoldable pub read_entry : Entries → ReadFrame Entries
read_entry entries = do
  name ← string
  refuse_if (ltb max_name_bytes (length name)) tree_name_over_cap
  tag ← u8
  kind ← known_kind (EntryKind.from_u8 tag)
  id ← bytes32
  exec ← boolean
  size ← u64
  refuse_if (last_not_below name entries) tree_not_ascending
  pure (insert name (record { kind = kind; id = id; exec = exec; size = size }) entries)

unfoldable pub read_tree : ReadFrame Entries
read_tree = do
  entry_count ← u32
  refuse_if (ltb max_dir_entries entry_count) tree_count_over_cap
  entries ← for_each entry_count read_entry []
  pure entries

unfoldable pub decode_tree : List ℕ → Result FilesError Entries
decode_tree bytes = complete read_tree (new object_body bytes)

pub record SnapshotObj : Type 0 where
  pub root : ObjectId
  pub parent : Option ObjectId
  pub author : Actor
  pub consensus_time : ℕ
  pub height : ℕ
  pub message : List ℕ

-- A flag byte, and the id where there is one.
unfoldable pub encode_opt_id : Option ObjectId → List ℕ
encode_opt_id (some id) = 1 ∷ id
encode_opt_id none = 0 ∷ []

unfoldable pub encode_snapshot : SnapshotObj → List ℕ
encode_snapshot s =
    s.root
    ++ (encode_opt_id s.parent
        ++ (Actor.encode s.author
            ++ (to_le_bytes 8 s.consensus_time
                ++ (to_le_bytes 8 s.height ++ push_string s.message))))

abbrev pub some_id : Bool → ReadFrame (Option ObjectId)
some_id true = do id ← bytes32; pure (some id)
some_id false = pure none

unfoldable pub read_opt_id : ReadFrame (Option ObjectId)
read_opt_id = do present ← boolean; some_id present

unfoldable pub read_snapshot : ReadFrame SnapshotObj
read_snapshot = do
  root ← bytes32
  parent ← read_opt_id
  author ← Actor.decode
  consensus_time ← u64
  height ← u64
  message ← string
  refuse_if (ltb max_message_bytes (length message)) message_over_cap
  pure (record {
    root = root;
    parent = parent;
    author = author;
    consensus_time = consensus_time;
    height = height;
    message = message;
  })

unfoldable pub decode_snapshot : List ℕ → Result FilesError SnapshotObj
decode_snapshot bytes = complete read_snapshot (new object_body bytes)
