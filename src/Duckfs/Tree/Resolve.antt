-- ===== src/Duckfs/Tree/Resolve.antt =====
-- `Store` of crates/duckfs/core/src/tree.rs as one operation sees it, with `snapshot_root_tree` and
-- `entry_at`. A read that the budget refuses ends the operation, and an id that it admitted once is
-- never refused later (ReadBudget), so within one operation the answers are functions of the id.
use ducktape_sdk.Prelude.{Bool, true, false, not, Option, none, some, [], ◌∷◌, if◌then◌else◌}
use ducktape_sdk.Bytes.Order.{bytes_order}
use ducktape_sdk.BTree as btree
use ducktape_sdk.Parser.{Result, ok}
use ducktape_sdk.Duckfs.Errors.{FilesError, snapshot_missing, not_a_snapshot}
use ducktape_sdk.Duckfs.Results.{◌>>=◌, ◌>>◌, ok_or, deny_if}
use ducktape_sdk.Duckfs.Kind.{Kind}
use ducktape_sdk.Duckfs.Objects.{ObjectId, TreeEntry, decode_snapshot}
use ducktape_sdk.Duckfs.Paths.{Segments}
use ducktape_sdk.Duckfs.Tree.{Fetch, is_dir, fetch_tree}

pub record Store : Type 0 where
  pub get : Fetch
  pub has_committed : ObjectId → Result FilesError Bool

abbrev pub is_snapshot : Kind → Bool
is_snapshot Kind.snapshot = true
is_snapshot kind = false

unfoldable pub snapshot_root_tree : Store → ObjectId → Result FilesError ObjectId
snapshot_root_tree store snapshot = do
  found ← store.get snapshot
  object ← ok_or found snapshot_missing
  deny_if (not (is_snapshot object.0)) not_a_snapshot
  decoded ← decode_snapshot object.1
  ok decoded.root

-- What the loop does with the entry that it found, handed what the next rounds return below it.
abbrev pub step_entry :
    Segments
    → (ObjectId → Result FilesError (Option TreeEntry))
    → Option TreeEntry
    → Result FilesError (Option TreeEntry)
step_entry rest below none = ok none
step_entry [] below (some entry) = ok (some entry)
step_entry (segment ∷ rest) below (some entry) =
    if is_dir entry.kind then below entry.id else ok none

-- The loop over the segments, from the directory `dir`.
unfoldable pub entry_below : Store → Segments → ObjectId → Result FilesError (Option TreeEntry)
entry_below store [] dir = ok none
entry_below store (segment ∷ rest) dir = fetch_tree store.get dir >>= λ entries.
    step_entry rest (entry_below store rest) (btree.get segment entries)

unfoldable pub entry_at : Store → Option ObjectId → Segments → Result FilesError (Option TreeEntry)
entry_at store none segments = ok none
entry_at store (some root) segments = entry_below store segments root
