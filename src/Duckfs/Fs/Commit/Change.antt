-- ===== src/Duckfs/Fs/Commit/Change.antt =====
-- `Change` and `Content` of crates/duckfs/core/src/wire.rs, and the checks of fs.rs that a change passes
-- on its own.
use ducktape_sdk.Prelude.{
  ℕ, zero, suc, Bool, true, false, not, ◌&&◌, Option, none, some, List, [], ◌∷◌, length, take, drop,
  get_elem?, ltb, ◌==◌, if◌then◌else◌,
}
use ducktape_sdk.Bytes.{ascii}
use ducktape_sdk.Bytes.Order.{bytes_order, bytes_eq}
use ducktape_sdk.BTree.{BTreeMap, get}
use ducktape_sdk.Parser.{Result, ok, err}
use ducktape_sdk.Duckfs.Limits.{
  chunk_size, max_chunks_per_file, max_meta_entries, max_meta_key_bytes, max_meta_value_bytes,
}
use ducktape_sdk.Duckfs.Errors.{
  FilesError, commit_meta_count, commit_meta_key, commit_meta_value, commit_chunk_count,
  bad_chunk_hex, not_a_chunk,
}
use ducktape_sdk.Duckfs.Results.{◌>>=◌, ◌>>◌, ok_or, deny_if}
use ducktape_sdk.Duckfs.Kind.{Kind}
use ducktape_sdk.Duckfs.Actor.{Authority}
use ducktape_sdk.Duckfs.Objects.{ObjectId, TreeEntry}
use ducktape_sdk.Duckfs.Refs.{Refs}
use ducktape_sdk.Duckfs.Chunks.{verify_file_shape}
use ducktape_sdk.Duckfs.Paths.{Segments, slash, canonical, check_authority}
use ducktape_sdk.Duckfs.Hex.{from_hex_32}
use ducktape_sdk.Duckfs.BlockObjects.{Index}

pub data Content : Type 0 where
  inline : List ℕ → Content
  chunks : ℕ → List (List ℕ) → Content

pub data Change : Type 0 where
  put : List ℕ → Bool → BTreeMap (List ℕ) (List ℕ) → Content → Change
  mkdir rm : List ℕ → Change
  mv symlink : List ℕ → List ℕ → Change

-- One planned tree edit.
pub data EditOp : Type 0 where
  put_op : Segments → TreeEntry → EditOp
  mkdir_op rm_op : Segments → EditOp
  mv_op : Segments → Segments → EditOp

unfoldable pub canon_authorized :
    (List ℕ → List ℕ) → Authority → List ℕ → Result FilesError Segments
canon_authorized nfc authority path = do
  segments ← canonical nfc path
  check_authority authority segments
  ok segments

unfoldable pub starts_with : List ℕ → List ℕ → Bool
starts_with [] path = true
starts_with (c ∷ prefix) [] = false
starts_with (c ∷ prefix) (d ∷ path) = c == d && starts_with prefix path

abbrev pub is_slash : Option ℕ → Bool
is_slash none = false
is_slash (some c) = c == slash

unfoldable pub watch_matches : List ℕ → List ℕ → Bool
watch_matches prefix path =
    if bytes_eq prefix (ascii "/")
    then true
    else if bytes_eq path prefix
    then true
    else starts_with prefix path && is_slash (get_elem? path (length prefix))

-- The loop over the entries: the first one over a cap is reported.
unfoldable pub check_meta : BTreeMap (List ℕ) (List ℕ) → Result FilesError (Unit {0})
check_meta [] = ok tt
check_meta ((key, value) ∷ meta) = do
  deny_if (ltb max_meta_key_bytes (length key)) commit_meta_key
  deny_if (ltb max_meta_value_bytes (length value)) commit_meta_value
  check_meta meta

unfoldable pub validate_meta : BTreeMap (List ℕ) (List ℕ) → Result FilesError (Unit {0})
validate_meta meta = do
  deny_if (ltb max_meta_entries (length meta)) commit_meta_count
  check_meta meta

unfoldable pub parse_ids : List (List ℕ) → Result FilesError (List ObjectId)
parse_ids [] = ok []
parse_ids (hex ∷ digests) = do
  id ← ok_or (from_hex_32 hex) bad_chunk_hex
  ids ← parse_ids digests
  ok (id ∷ ids)

unfoldable pub validate_chunks : ℕ → List (List ℕ) → Result FilesError (List ObjectId)
validate_chunks size digests = do
  deny_if (ltb max_chunks_per_file (length digests)) commit_chunk_count
  verify_file_shape size (length digests)
  parse_ids digests

-- `bytes.chunks(size)`, with fuel: every chunk takes a byte at least.
unfoldable pub chunks_from : ℕ → ℕ → List ℕ → List (List ℕ)
chunks_from size zero bytes = []
chunks_from size (suc fuel) [] = []
chunks_from size (suc fuel) (b ∷ bytes) =
    take size (b ∷ bytes) ∷ chunks_from size fuel (drop size (b ∷ bytes))

unfoldable pub chunks_of : List ℕ → List (List ℕ)
unfolding chunks_from
chunks_of bytes = chunks_from chunk_size (length bytes) bytes

abbrev pub is_chunk : Kind → Bool
is_chunk Kind.chunk = true
is_chunk kind = false

-- `or_else`
abbrev pub or_else {ℓ} : {A : Type ℓ} → Option A → Option A → Option A
or_else none b = b
or_else (some a) b = some a

abbrev pub indexed_len : Option (Kind × ℕ) → Result FilesError (Option ℕ)
indexed_len none = ok none
indexed_len (some (kind, len)) = if not (is_chunk kind) then err not_a_chunk else ok (some len)

unfoldable pub chunk_stat : ObjectId → Refs → Index → Index → Result FilesError (Option ℕ)
chunk_stat id refs pending_ids staged_ids = elim (get id refs.staging) [
  | some staged ↦ ok (some staged.len)
  | none ↦ indexed_len (or_else (get id pending_ids) (get id staged_ids))
]
