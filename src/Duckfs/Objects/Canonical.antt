-- ===== src/Duckfs/Objects/Canonical.antt =====
-- The object decoders against the encoders.
use ducktape_sdk.Prelude.{ℕ, ◌≡◌, ◌↔◌, List}
use ducktape_sdk.Parser.{ok}
use ducktape_sdk.Duckfs.Errors.{object_body}
use ducktape_sdk.Duckfs.Codec.Complete.{IsSlice, complete_iff}
use ducktape_sdk.Duckfs.Objects.{
  FileObj, Entries, SnapshotObj, encode_file, decode_file, encode_tree, decode_tree,
  encode_snapshot, decode_snapshot,
}
use ducktape_sdk.Duckfs.Objects.File.{IsFile, IsFile-codes}
use ducktape_sdk.Duckfs.Objects.Tree.{IsTree, IsTree-codes}
use ducktape_sdk.Duckfs.Objects.Snapshot.{IsSnapshot, IsSnapshot-codes}

-- A slice of bytes decodes to a file object exactly when it is that object's encoding and the
-- object meets the decoder's caps, with texts for metadata in strictly ascending key order.
pub decode_file_iff :
    (bs : List ℕ) (f : FileObj)
    → IsSlice bs
    → (decode_file bs ≡ ok f) ↔ (IsFile f × (encode_file f ≡ bs))
unfolding decode_file
decode_file_iff bs f = complete_iff IsFile-codes object_body bs f

-- A slice of bytes decodes to a directory exactly when it is the directory's encoding and the
-- directory meets the decoder's caps, with texts for names in strictly ascending order.
pub decode_tree_iff :
    (bs : List ℕ) (entries : Entries)
    → IsSlice bs
    → (decode_tree bs ≡ ok entries) ↔ (IsTree entries × (encode_tree entries ≡ bs))
unfolding decode_tree
decode_tree_iff bs entries = complete_iff IsTree-codes object_body bs entries

-- A slice of bytes decodes to a snapshot exactly when it is the snapshot's encoding and the
-- snapshot has 32-byte ids, a valid author, numbers of 64 bits and a text within the message cap.
pub decode_snapshot_iff :
    (bs : List ℕ) (s : SnapshotObj)
    → IsSlice bs
    → (decode_snapshot bs ≡ ok s) ↔ (IsSnapshot s × (encode_snapshot s ≡ bs))
unfolding decode_snapshot
decode_snapshot_iff bs s = complete_iff IsSnapshot-codes object_body bs s
