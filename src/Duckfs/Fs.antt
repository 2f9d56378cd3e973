-- ===== src/Duckfs/Fs.antt =====
-- crates/duckfs/core/src/fs.rs: the filesystem's state machine. The object store is not part of the
-- state here: a verb takes the `Store` that it opens over the committed objects and the pending ones.
-- A `&mut self` method is a function from the state to the state and the result.
pub mod Staging
pub mod Tables
pub mod Detached
pub mod Commit
pub mod Verbs
pub mod Ops
pub mod Sync
pub mod Reserved
pub mod Keeps
use ducktape_sdk.Prelude.{
  ℕ, ◌+◌, ◌-◌, ◌*◌, ◌%◌, ◌^◌, Bool, true, false, not, ◌&&◌, ◌||◌, Option, none, some, List, [], ◌∷◌,
  ◌++◌, length, leb, ltb, if◌then◌else◌,
}
use ducktape_sdk.Bytes.Order.{bytes_order, bytes_eq}
use ducktape_sdk.BTree.{BTreeMap, insert}
use ducktape_sdk.Parser.{Result, ok, err}
use ducktape_sdk.Duckfs.Limits.{
  staging_quota_bytes, history_window, max_staging_entries, max_staging_entries_per_owner,
  max_object_reads_per_op, max_refs_image_bytes,
}
use ducktape_sdk.Duckfs.Errors.{FilesError, revision_exhausted, refs_full}
use ducktape_sdk.Duckfs.Results.{◌>>=◌, ◌>>◌, deny_if}
use ducktape_sdk.Duckfs.Kind.{Kind}
use ducktape_sdk.Duckfs.Actor.{Authority, validate}
use ducktape_sdk.Duckfs.Objects.{ObjectId}
use ducktape_sdk.Duckfs.Refs.{PinEntry, Staged, Refs, encode_refs, encoded_refs_len}
use ducktape_sdk.Duckfs.Store.{object_id}
use ducktape_sdk.Duckfs.BlockObjects.{Index}
use ducktape_sdk.Duckfs.Tree.Resolve.{Store}
use ducktape_sdk.Duckfs.Retention as retention

abbrev pub StagedObjects : Type 0
StagedObjects = List (Kind × List ℕ)

-- The fields of `Fs` that nothing changes after `new`, beside the grep budget of the queries.
pub record Caps : Type 0 where
  pub quota : ℕ
  pub window_cap : ℕ
  pub staging_entry_cap : ℕ
  pub staging_entry_cap_per_owner : ℕ
  pub object_read_cap : ℕ

pub record Pending : Type 0 where
  pub refs : Refs
  pub objects : StagedObjects
  pub object_ids : Index
  pub height : ℕ

pub record Fs : Type 0 where
  pub refs : Refs
  pub pending : Option Pending
  pub caps : Caps

abbrev pub production_caps : Caps
production_caps = record {
  quota = staging_quota_bytes;
  window_cap = history_window;
  staging_entry_cap = max_staging_entries;
  staging_entry_cap_per_owner = max_staging_entries_per_owner;
  object_read_cap = max_object_reads_per_op;
}

unfoldable pub new : Refs → Fs
new refs = record { refs = refs; pending = none; caps = production_caps }

-- `retain` on a map.
unfoldable pub retain {ℓ κ} : {K : Type ℓ} {V : Type κ} → (V → Bool) → BTreeMap K V → BTreeMap K V
retain keep [] = []
retain keep ((k, v) ∷ m) = let rest = retain keep m in if keep v then (k, v) ∷ rest else rest

unfoldable pub sweep_expired : ℕ → Refs → Refs
sweep_expired height refs = record refs {
  staging = retain (λ (s : Staged). ltb height s.expires_at) refs.staging;
}

-- The overlay that `require_pending` leaves.
unfoldable pub require_pending : ℕ → Fs → Pending
require_pending height fs = elim fs.pending [
  | some pending ↦ pending
  | none ↦ record { refs = fs.refs; objects = []; object_ids = []; height = height }
]

unfoldable pub pending_refs : Fs → Refs
pending_refs fs = elim fs.pending [ none ↦ fs.refs | some pending ↦ pending.refs ]

abbrev pub with_pending : Fs → Pending → Fs
with_pending fs pending = record fs { pending = some pending }

-- What a verb makes of the overlay: a failing verb leaves what it had changed by then.
abbrev pub Verb {ℓ} : Type ℓ → Type ℓ
Verb A = Pending → Pending × Result FilesError A

unfoldable pub commit_block : Fs → Option (Refs × ℕ × StagedObjects) × Fs
commit_block fs = elim fs.pending [
  | none ↦ (none, fs)
  | some pending ↦
      (some (pending.refs, pending.height, pending.objects), record fs { pending = none })
]

unfoldable pub adopt_refs : Refs → Fs → Fs
adopt_refs refs fs = record fs { refs = refs }

unfoldable pub abort_block : Fs → Fs
abort_block fs = record fs { pending = none }

unfoldable pub seed_block_objects : ℕ → Index → Fs → Fs
unfolding require_pending
seed_block_objects height index fs =
    with_pending fs (record (require_pending height fs) { object_ids = index })

unfoldable pub block_objects : Fs → Index
block_objects fs = elim fs.pending [ none ↦ [] | some pending ↦ pending.object_ids ]

unfoldable pub snapshot_refs : Fs → List ℕ
snapshot_refs fs = encode_refs fs.refs

-- `refs.window.contains(id)`
unfoldable pub window_contains : ObjectId → List ObjectId → Bool
window_contains id [] = false
window_contains id (w ∷ window) = bytes_eq w id || window_contains id window

unfoldable pub any_pin : ObjectId → BTreeMap (List ℕ) PinEntry → Bool
any_pin id [] = false
any_pin id ((name, pin) ∷ pins) = bytes_eq pin.snapshot id || any_pin id pins

abbrev pub is_head : ObjectId → Option ObjectId → Bool
is_head id none = false
is_head id (some head) = bytes_eq head id

abbrev pub is_ordinary : Refs → ObjectId → Bool
is_ordinary refs id = is_head id refs.head || window_contains id refs.window || any_pin id refs.pins

-- `if id.is_none() { 32 } else { 0 }`
abbrev pub absent_len : Option ObjectId → ℕ
absent_len none = 32
absent_len (some id) = 0

unfoldable pub refs_commit_headroom : Refs → ℕ → ℕ
refs_commit_headroom refs window_cap =
    absent_len refs.head + 32 * (window_cap - length refs.window) + absent_len refs.retention_root

unfoldable pub refuse_refs_growth : Refs → ℕ → ℕ → Result FilesError (Unit {0})
refuse_refs_growth refs entry_len window_cap =
    if leb (encoded_refs_len refs + entry_len + refs_commit_headroom refs window_cap)
      max_refs_image_bytes
    then ok tt
    else err refs_full

-- `push_back`, and `pop_front` while the window is over the cap.
unfoldable pub trim : ℕ → List ObjectId → List ObjectId
trim window_cap [] = []
trim window_cap (id ∷ window) =
    let rest = trim window_cap window in
    if ltb window_cap (length (id ∷ window)) then rest else id ∷ window

abbrev pub push_window : ℕ → ObjectId → List ObjectId → List ObjectId
unfolding trim
push_window window_cap id window = trim window_cap (window ++ (id ∷ []))

module _ (sha256 : List ℕ → List ℕ) where
  unfoldable pub push_object : Kind × List ℕ → Pending → Pending
  push_object (kind, body) pending = record pending {
    objects = pending.objects ++ ((kind, body) ∷ []);
    object_ids =
        insert (object_id sha256 kind body) (kind, length body % 2 ^ 64) pending.object_ids;
  }

  unfoldable pub push_objects : StagedObjects → Pending → Pending
  push_objects [] pending = pending
  push_objects (object ∷ objects) pending = push_objects objects (push_object object pending)

  -- The index that `collect` builds.
  unfoldable pub index_of : Index → StagedObjects → Index
  index_of index [] = index
  index_of index ((kind, body) ∷ objects) =
      index_of (insert (object_id sha256 kind body) (kind, length body % 2 ^ 64) index) objects

  unfoldable pub stage_pending : Refs → ℕ → StagedObjects → Fs → Fs
  stage_pending refs height objects fs =
      with_pending fs (record {
        refs = refs;
        objects = objects;
        object_ids = index_of [] objects;
        height = height;
      })

  unfoldable pub refs_contains_snapshot : Refs → Store → ObjectId → Result FilesError Bool
  refs_contains_snapshot refs store id =
      if is_ordinary refs id
      then ok true
      else retention.contains sha256 store refs.retention_root id
