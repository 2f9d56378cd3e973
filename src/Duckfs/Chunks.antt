-- ===== src/Duckfs/Chunks.antt =====
-- `verify_chunk_len`, `verify_chunk_len_at` and `verify_file_shape` of
-- crates/duckfs/core/src/objects.rs: a file's size against its chunks.
pub mod Sizes
use ducktape_sdk.Prelude.{
  ℕ, suc, ◌+◌, ◌*◌, ◌-◌, ◌^◌, Bool, ◌||◌, not, Option, none, some, length, leb, ltb, ◌==◌,
  if◌then◌else◌,
}
use ducktape_sdk.Parser.{Result, ok, err}
use ducktape_sdk.Duckfs.Limits.{chunk_size}
use ducktape_sdk.Duckfs.Errors.{
  FilesError, chunk_index_out_of_range, chunk_prefix_overflows, size_below_chunk_count,
  size_inconsistent, size_inconsistent_with_count, chunk_length_mismatch, empty_file_with_chunks,
  file_without_chunks, chunk_span_overflows,
}
use ducktape_sdk.Duckfs.Objects.{FileObj}

-- `u64::checked_mul` and `u64::checked_sub`
abbrev pub checked_mul : ℕ → ℕ → Option ℕ
checked_mul a b = if ltb (a * b) (2 ^ 64) then some (a * b) else none

abbrev pub checked_sub : ℕ → ℕ → Option ℕ
checked_sub a b = if leb b a then some (a - b) else none

-- The length that the last of `n` chunks must have.
unfoldable pub last_len : ℕ → ℕ → Result FilesError ℕ
last_len size n = elim (checked_mul (n - 1) chunk_size) [
  | none ↦ err chunk_prefix_overflows
  | some prefix ↦ elim (checked_sub size prefix) [
    | none ↦ err size_below_chunk_count
    | some last ↦ if last == 0 || ltb chunk_size last then err size_inconsistent else ok last
  ]
]

unfoldable pub expected_len : ℕ → ℕ → ℕ → Result FilesError ℕ
unfolding last_len
expected_len size n index = if index + 1 == n then last_len size n else ok chunk_size

unfoldable pub verify_chunk_len_at : ℕ → ℕ → ℕ → ℕ → Result FilesError (Unit {0})
unfolding expected_len
verify_chunk_len_at size chunk_count index got_len =
    if leb chunk_count index
    then err chunk_index_out_of_range
    else elim (expected_len size chunk_count index) [
      | err e ↦ err e
      | ok expected ↦ if not (got_len == expected) then err chunk_length_mismatch else ok tt
    ]

unfoldable pub verify_chunk_len : FileObj → ℕ → ℕ → Result FilesError (Unit {0})
unfolding verify_chunk_len_at
verify_chunk_len file index got_len =
    verify_chunk_len_at file.size (length file.chunks) index got_len

unfoldable pub verify_file_shape : ℕ → ℕ → Result FilesError (Unit {0})
verify_file_shape size n =
    if size == 0
    then (if not (n == 0) then err empty_file_with_chunks else ok tt)
    else if n == 0
    then err file_without_chunks
    else elim (checked_mul (n - 1) chunk_size) [
      | none ↦ err chunk_span_overflows
      | some lower ↦ elim (checked_mul n chunk_size) [
        | none ↦ err chunk_span_overflows
        | some upper ↦
            if leb size lower || ltb upper size then err size_inconsistent_with_count else ok tt
      ]
    ]
