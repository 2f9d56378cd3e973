-- ===== src/Duckfs/Limits.antt =====
-- The caps of crates/duckfs/core/src/wire.rs that the modelled code tests.
use ducktape_sdk.Prelude.{ℕ, ◌*◌, ◌/◌, ◌-◌, ◌^◌}

abbrev pub usize_max : ℕ
usize_max = 2 ^ 64 - 1

abbrev pub chunk_size : ℕ
chunk_size = 1024 * 1024

abbrev pub max_name_bytes : ℕ
max_name_bytes = 255

abbrev pub max_path_bytes : ℕ
max_path_bytes = 4096

abbrev pub max_depth : ℕ
max_depth = 128

abbrev pub max_dir_entries : ℕ
max_dir_entries = 65_536

abbrev pub max_message_bytes : ℕ
max_message_bytes = 4096

abbrev pub max_meta_entries : ℕ
max_meta_entries = 16

abbrev pub max_meta_key_bytes : ℕ
max_meta_key_bytes = 64

abbrev pub max_meta_value_bytes : ℕ
max_meta_value_bytes = 256

abbrev pub max_chunks_per_file : ℕ
max_chunks_per_file = 4_194_304

abbrev pub max_pins : ℕ
max_pins = 1024

abbrev pub max_staging_entries : ℕ
max_staging_entries = max_pins * 64

abbrev pub max_watches : ℕ
max_watches = 256

abbrev pub history_window : ℕ
history_window = 1024

-- `1 << 20`
abbrev pub max_refs_image_bytes : ℕ
max_refs_image_bytes = 2 ^ 20

abbrev pub max_changes_per_commit : ℕ
max_changes_per_commit = 4096

abbrev pub max_inline_commit_bytes : ℕ
max_inline_commit_bytes = 256 * 1024

abbrev pub max_object_reads_per_op : ℕ
max_object_reads_per_op = 256

abbrev pub max_symlink_target_bytes : ℕ
max_symlink_target_bytes = 4096

abbrev pub staging_quota_bytes : ℕ
staging_quota_bytes = 1024 * 1024 * 1024

abbrev pub staging_ttl_blocks : ℕ
staging_ttl_blocks = 4096

abbrev pub max_pins_per_owner : ℕ
max_pins_per_owner = max_pins / 32

abbrev pub max_staging_entries_per_owner : ℕ
max_staging_entries_per_owner = 4096

abbrev pub max_pin_name_bytes : ℕ
max_pin_name_bytes = 128

abbrev pub max_watch_module_id_bytes : ℕ
max_watch_module_id_bytes = 128
