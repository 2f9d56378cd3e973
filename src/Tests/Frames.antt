-- ===== src/Tests/Frames.antt =====
-- The frames of duckfs and of the genesis config on concrete values.
use ducktape_sdk.Prelude.{◌≡◌, refl, none, some, [], ◌∷◌, true, false, arith, length}
use ducktape_sdk.Bytes.{ascii, to_le_bytes}
use ducktape_sdk.Bytes.Utf8.{is_utf8}
use ducktape_sdk.Bytes.Order.{bytes_order, bytes_lt}
use ducktape_sdk.Parser.{ok}
use ducktape_sdk.Duckfs.Codec.{push_string, push_u32}
use ducktape_sdk.Duckfs.Actor
use ducktape_sdk.Duckfs.Actor.{Actor, account, key, mod_id, system}
use ducktape_sdk.Duckfs.Kind
use ducktape_sdk.Duckfs.EntryKind
use ducktape_sdk.Duckfs.Objects.{
  FileObj, Entries, SnapshotObj, encode_entry, encode_file, decode_file, encode_tree, decode_tree,
  encode_opt_id, encode_snapshot, decode_snapshot,
}
use ducktape_sdk.Duckfs.Objects.Canonical.{decode_file_iff, decode_tree_iff, decode_snapshot_iff}
use ducktape_sdk.Duckfs.Refs.{Refs, encode_refs, decode_refs, encoded_refs_len}
use ducktape_sdk.Duckfs.Refs.Canonical.{decode_refs_iff}
use ducktape_sdk.Duckfs.Refs.ImageLen.{encoded_refs_len-eq-length}
use ducktape_sdk.Duckfs.BlockObjects.{
  Index, encode_object, encode_block_objects, decode_block_objects,
}
use ducktape_sdk.Duckfs.BlockObjects.RoundTrip.{decode_block_objects-encode}
use ducktape_sdk.Tests.{some_id, all_bytes→IsBytes}

abbrev refs_value : Refs
refs_value = record {
  source_revision = 7;
  head = some some_id;
  window = some_id ∷ [];
  pins = (ascii "v1", record { snapshot = some_id; owner = account 3 }) ∷ [];
  staging = (some_id, record { owner = system; len = 9; expires_at = 4096 }) ∷ [];
  watches = ((ascii "/shared", ascii "pages"), tt) ∷ [];
  retention_root = none;
}

decode_refs_iff_example : decode_refs (encode_refs refs_value) ≡ ok refs_value
unfolding encode_refs push_string push_u32 to_le_bytes Actor.encode encode_opt_id is_utf8
decode_refs_iff_example =
    (decode_refs_iff (encode_refs refs_value) refs_value
        (omega arith, all_bytes→IsBytes (encode_refs refs_value) refl)).1
      (
        omega arith,
        record {
          revision_fits = omega arith;
          head_id = (refl, all_bytes→IsBytes some_id refl);
          window_ids = ((refl, all_bytes→IsBytes some_id refl), tt);
          window_cap = omega arith;
          pins_ascend = (tt, tt);
          pins_valid = (
            (
              ((omega arith, all_bytes→IsBytes (ascii "v1") refl), refl),
              (refl, all_bytes→IsBytes some_id refl),
              (omega arith, omega arith),
            ),
            tt,
          );
          pins_cap = omega arith;
          staging_ascends = (tt, tt);
          staging_valid =
              (((refl, all_bytes→IsBytes some_id refl), tt, omega arith, omega arith), tt);
          staging_cap = omega arith;
          watches_ascend = (tt, tt);
          watches_valid = (
            (
              ((omega arith, all_bytes→IsBytes (ascii "/shared") refl), refl),
              ((omega arith, all_bytes→IsBytes (ascii "pages") refl), refl),
            ),
            tt,
          );
          watches_cap = omega arith;
          retention_id = tt;
        },
        refl,
      )

encoded_refs_len-eq-length_example : encoded_refs_len refs_value ≡ length (encode_refs refs_value)
encoded_refs_len-eq-length_example = encoded_refs_len-eq-length refs_value (record {
  head_id = refl;
  window_ids = (refl, tt);
  pin_ids = (refl, tt);
  staging_ids = (refl, tt);
  retention_id = tt;
})

abbrev file_value : FileObj
file_value = record {
  size = 5;
  chunks = some_id ∷ [];
  meta = (ascii "a", ascii "x") ∷ (ascii "b", []) ∷ [];
}

decode_file_iff_example : decode_file (encode_file file_value) ≡ ok file_value
unfolding encode_file push_string push_u32 to_le_bytes is_utf8 bytes_lt
decode_file_iff_example =
    (decode_file_iff (encode_file file_value) file_value
        (omega arith, all_bytes→IsBytes (encode_file file_value) refl)).1
      (
        record {
          size_fits = omega arith;
          ids = ((refl, all_bytes→IsBytes some_id refl), tt);
          chunk_cap = omega arith;
          meta_ascends = ((refl, tt), (tt, tt));
          meta_valid = (
            (
              ((omega arith, all_bytes→IsBytes (ascii "a") refl), refl),
              ((omega arith, all_bytes→IsBytes (ascii "x") refl), refl),
              omega arith,
              omega arith,
            ),
            (
              (
                ((omega arith, all_bytes→IsBytes (ascii "b") refl), refl),
                ((omega arith, tt), refl),
                omega arith,
                omega arith,
              ),
              tt,
            ),
          );
          meta_cap = omega arith;
        },
        refl,
      )

abbrev tree_value : Entries
tree_value =
    (ascii "a", record { kind = EntryKind.file; id = some_id; exec = true; size = 5 })
    ∷ (ascii "b", record { kind = EntryKind.dir; id = some_id; exec = false; size = 0 })
    ∷ []

decode_tree_iff_example : decode_tree (encode_tree tree_value) ≡ ok tree_value
unfolding encode_tree encode_entry EntryKind.tag push_string push_u32 to_le_bytes is_utf8 bytes_lt
decode_tree_iff_example =
    (decode_tree_iff (encode_tree tree_value) tree_value
        (omega arith, all_bytes→IsBytes (encode_tree tree_value) refl)).1
      (
        record {
          ascends = ((refl, tt), (tt, tt));
          valid = (
            (
              ((omega arith, all_bytes→IsBytes (ascii "a") refl), refl),
              omega arith,
              (refl, all_bytes→IsBytes some_id refl),
              omega arith,
            ),
            (
              (
                ((omega arith, all_bytes→IsBytes (ascii "b") refl), refl),
                omega arith,
                (refl, all_bytes→IsBytes some_id refl),
                omega arith,
              ),
              tt,
            ),
          );
          cap = omega arith;
        },
        refl,
      )

abbrev snapshot_value : SnapshotObj
snapshot_value = record {
  root = some_id;
  parent = none;
  author = mod_id (ascii "forge");
  consensus_time = 12;
  height = 3;
  message = ascii "hello";
}

decode_snapshot_iff_example : decode_snapshot (encode_snapshot snapshot_value) ≡ ok snapshot_value
unfolding encode_snapshot encode_opt_id Actor.encode push_string to_le_bytes is_utf8
decode_snapshot_iff_example =
    (decode_snapshot_iff (encode_snapshot snapshot_value) snapshot_value
        (omega arith, all_bytes→IsBytes (encode_snapshot snapshot_value) refl)).1
      (
        record {
          root_id = (refl, all_bytes→IsBytes some_id refl);
          parent_id = tt;
          author_valid = (((omega arith, all_bytes→IsBytes (ascii "forge") refl), refl), λ e. cc);
          time_fits = omega arith;
          height_fits = omega arith;
          message_text = ((omega arith, all_bytes→IsBytes (ascii "hello") refl), refl);
          message_cap = omega arith;
        },
        refl,
      )

abbrev index_value : Index
index_value = (some_id, (Kind.tree, 40)) ∷ []

decode_block_objects-encode_example :
    decode_block_objects (encode_block_objects index_value) ≡ ok index_value
unfolding encode_block_objects encode_object Kind.tag push_u32 to_le_bytes
decode_block_objects-encode_example =
    decode_block_objects-encode index_value (tt, tt)
      (((refl, all_bytes→IsBytes some_id refl), omega arith), tt) (omega arith)
      (omega arith, all_bytes→IsBytes (encode_block_objects index_value) refl)
