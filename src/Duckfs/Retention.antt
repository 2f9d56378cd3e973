-- ===== src/Duckfs/Retention.antt =====
-- crates/duckfs/core/src/retention.rs: the records of the protected references and their lookup. A text
-- is its UTF-8 bytes; `to_string` and `parse` of Rust's `u64` are written out.
pub mod Exchange
pub mod Decimals
pub mod Records
use ducktape_sdk.Prelude.{
  ℕ, zero, suc, ◌+◌, ◌-◌, ◌*◌, ◌/◌, ◌%◌, ◌^◌, Bool, true, false, not, ◌&&◌, ◌||◌, Option, none,
  some, List, [], ◌∷◌, ◌++◌, map, length, leb, ltb, ◌==◌, if◌then◌else◌,
}
use ducktape_sdk.Bytes.{ascii}
use ducktape_sdk.Bytes.Order.{bytes_order, bytes_eq}
use ducktape_sdk.BTree.{BTreeMap, get, insert}
use ducktape_sdk.Parser.{Result, ok, err}
use ducktape_sdk.Duckfs.Limits.{max_pin_name_bytes, max_watch_module_id_bytes}
use ducktape_sdk.Duckfs.Errors.{
  FilesError, retention_shape, retention_no_snapshot, retention_no_count, retention_number,
  retention_bad_snapshot, retention_not_canonical, retention_bad_name, retention_not_file,
  retention_missing, retention_kind_mismatch, retention_bad_edge, membership_mismatch,
  membership_bad_edge,
}
use ducktape_sdk.Duckfs.Results.{◌>>=◌, ◌>>◌, ok_or, deny_if}
use ducktape_sdk.Duckfs.Codec.{push_string}
use ducktape_sdk.Duckfs.Kind
use ducktape_sdk.Duckfs.Kind.{Kind}
use ducktape_sdk.Duckfs.EntryKind
use ducktape_sdk.Duckfs.EntryKind.{EntryKind}
use ducktape_sdk.Duckfs.Objects.{ObjectId, FileObj, TreeEntry, decode_file}
use ducktape_sdk.Duckfs.Hex.{to_hex, from_hex_32}
use ducktape_sdk.Duckfs.Paths.{Segments}
use ducktape_sdk.Duckfs.Store.{object_id}
use ducktape_sdk.Duckfs.Tree.{load}
use ducktape_sdk.Duckfs.Tree.Build as edit
use ducktape_sdk.Duckfs.Tree.Resolve.{Store}

-- `snapshot` is the text of the id in hex.
pub record RetentionReference : Type 0 where
  pub snapshot : List ℕ
  pub revision : ℕ

pub data Record : Type 0 where
  reference : RetentionReference → Record
  membership : ObjectId → ℕ → Record

-- `to_string`: the digits of a number below `10 ^ k`.
unfoldable pub decimal_digits : ℕ → ℕ → List ℕ
decimal_digits zero n = []
decimal_digits (suc k) n =
    let rest = decimal_digits k (n / 10) in
    if ltb n 10 then (48 + n) ∷ [] else rest ++ ((48 + n % 10) ∷ [])

-- A `u64` has at most 20 digits.
unfoldable pub decimal : ℕ → List ℕ
decimal n = decimal_digits 20 n

-- A digit at a time, with `checked_mul` and `checked_add`.
unfoldable pub parse_digits : ℕ → List ℕ → Option ℕ
parse_digits acc [] = some acc
parse_digits acc (c ∷ s) =
    let rest = parse_digits (acc * 10 + (c - 48)) s in
    if leb 48 c && leb c 57
    then (if ltb (acc * 10 + (c - 48)) (2 ^ 64) then rest else none)
    else none

-- `parse::<u64>()`: an optional plus sign, and at least one digit.
unfoldable pub parse_u64 : List ℕ → Option ℕ
parse_u64 [] = none
parse_u64 (c ∷ s) =
    if c == b'+' then (if length s == 0 then none else parse_digits 0 s) else parse_digits 0 (c ∷ s)

unfoldable pub positive_number : List ℕ → Result FilesError ℕ
positive_number value = do
  number ← ok_or (parse_u64 value) retention_number
  deny_if (not (not (number == 0) && bytes_eq (decimal number) value)) retention_number
  ok number

unfoldable pub snapshot_id : List ℕ → Result FilesError ObjectId
snapshot_id snapshot = do
  id ← ok_or (from_hex_32 snapshot) retention_bad_snapshot
  deny_if (not (bytes_eq (to_hex id) snapshot)) retention_not_canonical
  ok id

-- `BTreeMap::from` on two pairs.
abbrev pub map_of : List ℕ → List ℕ → List ℕ → List ℕ → BTreeMap (List ℕ) (List ℕ)
unfolding insert
map_of j v k w = insert k w (insert j v [])

unfoldable pub file : Record → FileObj
file (reference r) = record {
  size = 0;
  chunks = [];
  meta = map_of (ascii "snapshot") r.snapshot (ascii "revision") (decimal r.revision);
}
file (membership snapshot count) = record {
  size = 0;
  chunks = [];
  meta = map_of (ascii "snapshot") (to_hex snapshot) (ascii "count") (decimal count);
}

-- The record that the metadata says, once its snapshot is read.
unfoldable pub record_of : FileObj → List ℕ → ObjectId → Result FilesError Record
record_of f snapshot id = elim (get (ascii "revision") f.meta) [
  | some revision ↦ positive_number revision >>= λ number.
      ok (reference (record { snapshot = snapshot; revision = number }))
  | none ↦ ok_or (get (ascii "count") f.meta) retention_no_count >>= λ count.
      positive_number count >>= λ number. ok (membership id number)
]

unfoldable pub decode_record : List ℕ → Result FilesError Record
decode_record body = do
  f ← decode_file body
  deny_if (not (f.size == 0 && length f.chunks == 0 && length f.meta == 2)) retention_shape
  snapshot ← ok_or (get (ascii "snapshot") f.meta) retention_no_snapshot
  id ← snapshot_id snapshot
  record_of f snapshot id

unfoldable pub validate_name : List ℕ → List ℕ → Result FilesError (Unit {0})
validate_name module_id key =
    let valid_module =
      not (length module_id == 0) && leb (length module_id) max_watch_module_id_bytes in
    let valid_key = not (length key == 0) && leb (length key) max_pin_name_bytes in
    deny_if (not valid_module || not valid_key) retention_bad_name

-- Two hexadecimal digits for each byte of the id.
unfoldable pub shards : List ℕ → ObjectId → Segments
shards section id = section ∷ map (λ byte. to_hex (byte ∷ [])) id

unfoldable pub membership_path : ObjectId → Segments
membership_path id = shards (ascii "snapshots") id

abbrev pub is_file : Kind → Bool
is_file Kind.file = true
is_file kind = false

abbrev pub is_file_entry : EntryKind → Bool
is_file_entry EntryKind.file = true
is_file_entry kind = false

module _ (sha256 : List ℕ → List ℕ) where
  unfoldable pub reference_path : List ℕ → List ℕ → Segments
  reference_path module_id key =
      shards (ascii "references")
        (object_id sha256 Kind.chunk (push_string module_id ++ push_string key))

  -- The record of an entry that the catalog holds.
  unfoldable pub record_at : Store → TreeEntry → Result FilesError Record
  record_at store entry = do
    deny_if (not (is_file_entry entry.kind)) retention_not_file
    found ← store.get entry.id
    object ← ok_or found retention_missing
    deny_if (not (is_file object.0)) retention_kind_mismatch
    decode_record object.1

  unfoldable pub get_record : Store → Option ObjectId → Segments → Result FilesError (Option Record)
  get_record store root path = edit.get sha256 store.get (load root) path >>= λ found. elim found [
    | none ↦ ok none
    | some entry ↦ record_at store entry >>= λ r. ok (some r)
  ]

  unfoldable pub get_reference :
      Store → Option ObjectId → List ℕ → List ℕ → Result FilesError (Option RetentionReference)
  get_reference store root module_id key = do
    validate_name module_id key
    found ← get_record store root (reference_path module_id key)
    elim found [
      | none ↦ ok none
      | some (reference r) ↦ ok (some r)
      | some (membership snapshot count) ↦ err retention_bad_edge
    ]

  unfoldable pub count : Store → Option ObjectId → ObjectId → Result FilesError ℕ
  count store root id = get_record store root (membership_path id) >>= λ found. elim found [
    | none ↦ ok 0
    | some (membership snapshot n) ↦
        if not (bytes_eq snapshot id) then err membership_mismatch else ok n
    | some (reference r) ↦ err membership_bad_edge
  ]

  unfoldable pub contains : Store → Option ObjectId → ObjectId → Result FilesError Bool
  contains store root id = count store root id >>= λ n. ok (not (n == 0))
