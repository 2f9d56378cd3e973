-- ===== src/Duckfs/Refs.antt =====
-- `Refs` of crates/duckfs/core/src/state.rs: the mutable consensus state and its image. The window
-- is in history order; a `BTreeSet` is a map to `Unit`.
pub mod Sections
pub mod Watches
pub mod Canonical
pub mod ImageLen
pub mod ImageBytes
use ducktape_sdk.Prelude.{
  ℕ, ◌+◌, ◌*◌, Bool, not, Option, none, some, List, [], ◌∷◌, ◌++◌, map, length, concat_map, ltb,
  false, if◌then◌else◌,
}
use ducktape_sdk.Bytes.{to_le_bytes}
use ducktape_sdk.Bytes.Order.{Order, bytes_order, pair_order}
use ducktape_sdk.BTree.{BTreeMap, insert, last_not_below}
use ducktape_sdk.Parser.{Result, err, pure, refuse_if, ◌>>=◌, ◌>>◌, for_each}
use ducktape_sdk.Parser.Seq.{push_one}
use ducktape_sdk.Duckfs.Limits.{
  history_window, max_pins, max_staging_entries, max_watches, max_refs_image_bytes,
}
use ducktape_sdk.Duckfs.Errors.{
  FilesError, refs_image, image_over_cap, window_over_cap, pins_over_cap, pins_not_ascending,
  staging_over_cap, staging_not_ascending, watches_over_cap, watches_not_ascending,
}
use ducktape_sdk.Duckfs.Codec.{
  ReadFrame, push_string, push_u32, u32, u64, bytes32, string, new, complete,
}
use ducktape_sdk.Duckfs.Actor
use ducktape_sdk.Duckfs.Actor.{Actor}
use ducktape_sdk.Duckfs.Objects.{ObjectId, encode_opt_id, read_opt_id}

pub record PinEntry : Type 0 where
  pub snapshot : ObjectId
  pub owner : Actor

pub record Staged : Type 0 where
  pub owner : Actor
  pub len : ℕ
  pub expires_at : ℕ

-- A prefix and a module id.
abbrev pub Watch : Type 0
Watch = List ℕ × List ℕ

pub record Refs : Type 0 where
  pub source_revision : ℕ
  pub head : Option ObjectId
  pub window : List ObjectId
  pub pins : BTreeMap (List ℕ) PinEntry
  pub staging : BTreeMap ObjectId Staged
  pub watches : BTreeMap Watch (Unit {0})
  pub retention_root : Option ObjectId

abbrev pub encode_pin : List ℕ × PinEntry → List ℕ
encode_pin (name, pin) = push_string name ++ (pin.snapshot ++ Actor.encode pin.owner)

abbrev pub encode_staged : ObjectId × Staged → List ℕ
encode_staged (digest, staged) =
    digest
    ++ (Actor.encode staged.owner ++ (to_le_bytes 8 staged.len ++ to_le_bytes 8 staged.expires_at))

abbrev pub encode_watch : Watch × Unit {0} → List ℕ
encode_watch ((prefix, module_id), _) = push_string prefix ++ push_string module_id

unfoldable pub encode_refs : Refs → List ℕ
encode_refs r =
    encode_opt_id r.head
    ++ (push_u32 (length r.window)
        ++ (concat_map (λ id. id) r.window
            ++ (push_u32 (length r.pins)
                ++ (concat_map encode_pin r.pins
                    ++ (push_u32 (length r.staging)
                        ++ (concat_map encode_staged r.staging
                            ++ (push_u32 (length r.watches)
                                ++ (concat_map encode_watch r.watches
                                    ++ (to_le_bytes 8 r.source_revision
                                        ++ encode_opt_id r.retention_root)))))))))

unfoldable pub pin_entry_len : List ℕ → Actor → ℕ
pin_entry_len name owner = 8 + length name + 32 + Actor.encoded_len owner

unfoldable pub staged_entry_len : Actor → ℕ
staged_entry_len owner = 32 + Actor.encoded_len owner + 8 + 8

unfoldable pub watch_entry_len : List ℕ → List ℕ → ℕ
watch_entry_len prefix module_id = 8 + length prefix + 8 + length module_id

abbrev pub sum_by {ℓ} : {A : Type ℓ} → (A → ℕ) → List A → ℕ
sum_by f [] = 0
sum_by f (x ∷ xs) = f x + sum_by f xs

-- `map_or(0, |_| 32)`
abbrev pub id_len : Option ObjectId → ℕ
id_len none = 0
id_len (some id) = 32

unfoldable pub encoded_refs_len : Refs → ℕ
unfolding pin_entry_len staged_entry_len watch_entry_len
encoded_refs_len r =
    let head = 1 + id_len r.head in
    let window = 4 + 32 * length r.window in
    let pins = 4 + sum_by (λ e. pin_entry_len e.0 e.1.owner) r.pins in
    let staging = 4 + sum_by (λ e. staged_entry_len e.1.owner) r.staging in
    let watches = 4 + sum_by (λ e. watch_entry_len e.0.0 e.0.1) r.watches in
    let retention = 1 + id_len r.retention_root in
    head + window + pins + staging + watches + 8 + retention

unfoldable pub read_pin : BTreeMap (List ℕ) PinEntry → ReadFrame (BTreeMap (List ℕ) PinEntry)
read_pin pins = do
  name ← string
  snapshot ← bytes32
  owner ← Actor.decode
  refuse_if (last_not_below name pins) pins_not_ascending
  pure (insert name (record { snapshot = snapshot; owner = owner }) pins)

unfoldable pub read_staged : BTreeMap ObjectId Staged → ReadFrame (BTreeMap ObjectId Staged)
read_staged staging = do
  digest ← bytes32
  owner ← Actor.decode
  len ← u64
  expires_at ← u64
  refuse_if (last_not_below digest staging) staging_not_ascending
  pure (insert digest (record { owner = owner; len = len; expires_at = expires_at }) staging)

-- `last_watch.is_some_and(|last| last >= entry)`
abbrev pub watch_not_above : Option Watch → Watch → Bool
watch_not_above none entry = false
watch_not_above (some last) entry = not (pair_order.less last entry)

-- One round of the loop over `last_watch` and `watches`.
unfoldable pub read_watch :
    Option Watch × BTreeMap Watch (Unit {0}) → ReadFrame (Option Watch × BTreeMap Watch (Unit {0}))
read_watch (last_watch, watches) = do
  prefix ← string
  module_id ← string
  refuse_if (watch_not_above last_watch (prefix, module_id)) watches_not_ascending
  pure (some (prefix, module_id), insert (prefix, module_id) tt watches)

unfoldable pub read_refs : ReadFrame Refs
read_refs = do
  head ← read_opt_id
  window_count ← u32
  refuse_if (ltb history_window window_count) window_over_cap
  window ← for_each window_count (push_one bytes32) []
  pin_count ← u32
  refuse_if (ltb max_pins pin_count) pins_over_cap
  pins ← for_each pin_count read_pin []
  staging_count ← u32
  refuse_if (ltb max_staging_entries staging_count) staging_over_cap
  staging ← for_each staging_count read_staged []
  watch_count ← u32
  refuse_if (ltb max_watches watch_count) watches_over_cap
  (last_watch, watches) ← for_each watch_count read_watch (none, [])
  source_revision ← u64
  retention_root ← read_opt_id
  pure (record {
    source_revision = source_revision;
    head = head;
    window = window;
    pins = pins;
    staging = staging;
    watches = watches;
    retention_root = retention_root;
  })

unfoldable pub decode_refs : List ℕ → Result FilesError Refs
decode_refs bytes =
    if ltb max_refs_image_bytes (length bytes)
    then err image_over_cap
    else complete read_refs (new refs_image bytes)
