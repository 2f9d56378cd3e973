-- ===== src/Duckfs/Fs/Sync.antt =====
-- `root_bytes` of crates/duckfs/core/src/state.rs, and `install_refs` and `ingest_object` of
-- crates/duckfs/core/src/fs.rs, the latter over the object store in memory.
use ducktape_sdk.Prelude.{ℕ, not, none, List, length}
use ducktape_sdk.Bytes.Order.{bytes_eq}
use ducktape_sdk.Parser.{Result, ok, err}
use ducktape_sdk.Duckfs.Errors.{
  FilesError, root_mismatch, ingest_unknown_kind, id_mismatch, ingest_bad_shape,
}
use ducktape_sdk.Duckfs.Results.{◌>>=◌, ◌>>◌, ok_or, deny_if}
use ducktape_sdk.Duckfs.Kind
use ducktape_sdk.Duckfs.Kind.{Kind}
use ducktape_sdk.Duckfs.Objects.{ObjectId, decode_file}
use ducktape_sdk.Duckfs.Refs.{Refs, encode_refs, decode_refs}
use ducktape_sdk.Duckfs.Chunks.{verify_file_shape}
use ducktape_sdk.Duckfs.Store as store
use ducktape_sdk.Duckfs.Store.{Objects, object_id}
use ducktape_sdk.Duckfs.Fs.{Fs}

module _ (sha256 : List ℕ → List ℕ) where
  unfoldable pub root_bytes : Refs → List ℕ
  root_bytes refs = sha256 (encode_refs refs)

  -- The refs of an image that matches the root.
  unfoldable pub checked_refs : List ℕ → List ℕ → Result FilesError Refs
  checked_refs bytes expected_root = do
    refs ← decode_refs bytes
    deny_if (not (bytes_eq (root_bytes refs) expected_root)) root_mismatch
    ok refs

  unfoldable pub adopt_image : Fs → Result FilesError Refs → Fs × Result FilesError (Unit {0})
  adopt_image fs (err e) = (fs, err e)
  adopt_image fs (ok refs) = (record fs { refs = refs; pending = none }, ok tt)

  unfoldable pub install_refs : List ℕ → List ℕ → Fs → Fs × Result FilesError (Unit {0})
  install_refs bytes expected_root fs = adopt_image fs (checked_refs bytes expected_root)

  -- `map_err`
  abbrev pub shape_error : Result FilesError (Unit {0}) → Result FilesError (Unit {0})
  shape_error (ok u) = ok u
  shape_error (err e) = err ingest_bad_shape

  unfoldable pub check_shape : Kind → List ℕ → Result FilesError (Unit {0})
  check_shape Kind.file body =
      decode_file body >>= λ file. shape_error (verify_file_shape file.size (length file.chunks))
  check_shape kind body = ok tt

  unfoldable pub check_object : ObjectId → ℕ → List ℕ → Result FilesError Kind
  check_object id tag body = do
    kind ← ok_or (Kind.from_u8 tag) ingest_unknown_kind
    deny_if (not (bytes_eq (object_id sha256 kind body) id)) id_mismatch
    check_shape kind body
    ok kind

  unfoldable pub store_object :
      List ℕ → Objects → Result FilesError Kind → Objects × Result FilesError (Unit {0})
  store_object body objects (err e) = (objects, err e)
  store_object body objects (ok kind) = ((store.put sha256 objects kind body).1, ok tt)

  unfoldable pub ingest_object :
      ObjectId → ℕ → List ℕ → Objects → Objects × Result FilesError (Unit {0})
  ingest_object id tag body objects = store_object body objects (check_object id tag body)
