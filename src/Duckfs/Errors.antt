-- ===== src/Duckfs/Errors.antt =====
-- The messages that crates/duckfs/core refuses with, a constructor for each.

use ducktape_sdk.Prelude.{ℕ, List}

-- The label of a `Reader`: "object body", "refs image", "block objects".
pub data Frame : Type 0 where
  object_body refs_image block_objects : Frame

pub data FilesError : Type 0 where
  truncated not_boolean not_utf8 trailing_bytes : Frame → FilesError
  account_zero empty_key empty_module invalid_actor_tag : FilesError
  chunk_count_over_cap meta_count_over_cap meta_key_over_cap meta_value_over_cap : FilesError
  meta_not_ascending tree_count_over_cap tree_name_over_cap tree_unknown_kind : FilesError
  tree_not_ascending message_over_cap : FilesError
  chunk_index_out_of_range chunk_prefix_overflows size_below_chunk_count : FilesError
  size_inconsistent size_inconsistent_with_count chunk_length_mismatch empty_file_with_chunks
        file_without_chunks :
      FilesError
  chunk_span_overflows : FilesError
  path_not_absolute path_not_nfc path_has_nul path_too_long path_bad_segment : FilesError
  segment_too_long path_too_deep home_root shared_root outside_namespaces : FilesError
  image_over_cap window_over_cap pins_over_cap pins_not_ascending staging_over_cap : FilesError
  staging_not_ascending watches_over_cap watches_not_ascending : FilesError
  block_objects_unknown_kind object_read_budget_exceeded : FilesError
  tree_missing not_a_tree file_in_the_way : FilesError
  directory_missing put_root mkdir_root rm_root mv_root mv_onto_root mkdir_exists rm_missing
        directory_over_cap :
      FilesError
  snapshot_missing not_a_snapshot mv_into_itself mv_missing mv_exists : FilesError
  retention_shape retention_no_snapshot retention_no_count retention_number : FilesError
  retention_bad_snapshot retention_not_canonical retention_bad_name retention_not_file : FilesError
  retention_missing retention_kind_mismatch retention_bad_edge membership_mismatch : FilesError
  membership_bad_edge membership_underflow membership_overflow ancestor_missing : FilesError
  retention_revision_zero retention_mismatch retention_not_advancing : FilesError
  revision_exhausted chunk_empty chunk_over_size staging_full staging_entries_exceeded : FilesError
  staging_quota_exceeded pin_name_empty pin_name_over_cap pin_table_full pin_exists : FilesError
  pin_quota_exceeded snapshot_not_resolvable pin_not_found watch_module_only : FilesError
  watch_itself_only watch_id_empty watch_id_over_cap watch_table_full watch_exists : FilesError
  watch_not_found refs_full projection_missing retention_module_only : FilesError
  retention_not_resolvable root_mismatch ingest_unknown_kind id_mismatch ingest_bad_shape :
      FilesError
  commit_message_over_cap commit_empty commit_over_cap base_not_resolvable : FilesError
  duplicate_path commit_meta_count commit_meta_key commit_meta_value bad_base64 : FilesError
  inline_overflow inline_exceeded commit_chunk_count bad_chunk_hex symlink_over_cap : FilesError
  chunk_unavailable not_a_chunk : FilesError
  conflict : List ℕ → FilesError
