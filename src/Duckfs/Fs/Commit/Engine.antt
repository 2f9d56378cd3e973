-- ===== src/Duckfs/Fs/Commit/Engine.antt =====
-- The steps of `commit_apply` of crates/duckfs/core/src/fs.rs around the planning pass, the engine as a
-- whole, and the method that merges its result into the block's overlay.
use ducktape_sdk.Prelude.{
  ℕ, suc, Bool, true, false, not, ◌&&◌, ◌||◌, Option, none, some, List, [], ◌∷◌, ◌++◌, length, ltb,
  ◌==◌, if◌then◌else◌,
}
use ducktape_sdk.Bytes.Order.{bytes_order, bytes_eq}
use ducktape_sdk.BTree.{BTreeMap, remove, contains_key}
use ducktape_sdk.Parser.{Result, ok, err}
use ducktape_sdk.Duckfs.Limits.{max_message_bytes, max_changes_per_commit}
use ducktape_sdk.Duckfs.Errors.{
  FilesError, commit_message_over_cap, commit_empty, commit_over_cap, base_not_resolvable,
  chunk_unavailable, conflict,
}
use ducktape_sdk.Duckfs.Results.{◌>>=◌, ◌>>◌, ok_or, deny_if, edited}
use ducktape_sdk.Duckfs.Kind.{Kind}
use ducktape_sdk.Duckfs.EntryKind
use ducktape_sdk.Duckfs.EntryKind.{EntryKind}
use ducktape_sdk.Duckfs.Actor.{Authority, actor}
use ducktape_sdk.Duckfs.Objects.{ObjectId, TreeEntry, SnapshotObj, encode_tree, encode_snapshot}
use ducktape_sdk.Duckfs.Refs.{Refs, Staged, Watch}
use ducktape_sdk.Duckfs.Chunks.{verify_chunk_len_at}
use ducktape_sdk.Duckfs.Paths.{Segments}
use ducktape_sdk.Duckfs.Hex.{to_hex, from_hex_32}
use ducktape_sdk.Duckfs.Store.{object_id}
use ducktape_sdk.Duckfs.BlockObjects.{Index}
use ducktape_sdk.Duckfs.Tree as tree
use ducktape_sdk.Duckfs.Tree.{Node}
use ducktape_sdk.Duckfs.Tree.Build as edit
use ducktape_sdk.Duckfs.Tree.Move.{mv}
use ducktape_sdk.Duckfs.Tree.Resolve.{Store, snapshot_root_tree, entry_at}
use ducktape_sdk.Duckfs.Fs.{
  Caps, StagedObjects, Pending, Verb, sweep_expired, push_window, push_objects,
  refs_contains_snapshot,
}
use ducktape_sdk.Duckfs.Fs.Commit.Change.{
  Change, EditOp, put_op, mkdir_op, rm_op, mv_op, watch_matches, chunk_stat,
}
use ducktape_sdk.Duckfs.Fs.Commit.Plan.{Plan, empty_plan, plan_changes}

pub record Notification : Type 0 where
  pub module_id : List ℕ
  pub prefix : List ℕ
  pub path : List ℕ
  pub snapshot : List ℕ

pub record CommitBuilt : Type 0 where
  pub refs : Refs
  pub objects : StagedObjects
  pub notifications : List Notification

-- The availability and the stored length of the chunks of a file, from the one at `index` on.
unfoldable pub check_chunks_from :
    Refs → Index → Index → ℕ → ℕ → ℕ → List ObjectId → Result FilesError (Unit {0})
check_chunks_from refs pending_ids staged_ids size n index [] = ok tt
check_chunks_from refs pending_ids staged_ids size n index (id ∷ ids) = do
  found ← chunk_stat id refs pending_ids staged_ids
  got ← ok_or found chunk_unavailable
  verify_chunk_len_at size n index got
  check_chunks_from refs pending_ids staged_ids size n (suc index) ids

unfoldable pub check_chunks :
    Refs → Index → Index → List (ℕ × List ObjectId) → Result FilesError (Unit {0})
check_chunks refs pending_ids staged_ids [] = ok tt
check_chunks refs pending_ids staged_ids ((size, ids) ∷ files) = do
  check_chunks_from refs pending_ids staged_ids size (length ids) 0 ids
  check_chunks refs pending_ids staged_ids files

-- The derived `==` on entries.
unfoldable pub entry_eq : Option TreeEntry → Option TreeEntry → Bool
entry_eq none none = true
entry_eq (some e) (some f) =
    (EntryKind.tag e.kind == EntryKind.tag f.kind)
    && (bytes_eq e.id f.id && ((if e.exec then f.exec else not f.exec) && (e.size == f.size)))
entry_eq e f = false

-- The per-path comparison of the base with the effective head.
unfoldable pub check_unchanged :
    Store
    → Option ObjectId
    → Option ObjectId
    → List (List ℕ × Segments)
    → Result FilesError (Unit {0})
check_unchanged store base_root effective_root [] = ok tt
check_unchanged store base_root effective_root ((joined, segments) ∷ touched) = do
  before ← entry_at store base_root segments
  now ← entry_at store effective_root segments
  deny_if (not (entry_eq before now)) (conflict joined)
  check_unchanged store base_root effective_root touched

unfoldable pub apply_op : Store → EditOp → Node → Result FilesError Node
apply_op store (put_op segments entry) node = edited (tree.put store.get node segments entry)
apply_op store (mkdir_op segments) node = edited (tree.mkdir store.get node segments)
apply_op store (rm_op segments) node = edited (tree.rm store.get node segments)
apply_op store (mv_op from to) node = edited (mv store.get node from to)

unfoldable pub replay : Store → List EditOp → Node → Result FilesError Node
replay store [] node = ok node
replay store (op ∷ ops) node = apply_op store op node >>= replay store ops

unfoldable pub effective_root : Store → Option ObjectId → Result FilesError (Option ObjectId)
effective_root store none = ok none
effective_root store (some head) = snapshot_root_tree store head >>= λ root. ok (some root)

-- `refs.staging.remove(id)` for every chunk that the commit refers to.
unfoldable pub reclaim : List ObjectId → BTreeMap ObjectId Staged → BTreeMap ObjectId Staged
reclaim [] staging = staging
reclaim (id ∷ ids) staging = reclaim ids (remove id staging)

abbrev pub advance : ℕ → ObjectId → List ObjectId → Refs → Refs
advance window_cap id chunk_refs refs = record refs {
  head = some id;
  window = push_window window_cap id refs.window;
  staging = reclaim chunk_refs refs.staging;
}

unfoldable pub notify_watches : List ℕ → List ℕ → BTreeMap Watch (Unit {0}) → List Notification
notify_watches snapshot joined [] = []
notify_watches snapshot joined (((prefix, module_id), u) ∷ watches) =
    let rest = notify_watches snapshot joined watches in
    let hit : Notification = record {
      module_id = module_id;
      prefix = prefix;
      path = joined;
      snapshot = snapshot;
    } in
    if watch_matches prefix joined then hit ∷ rest else rest

unfoldable pub notify :
    List ℕ → List (List ℕ × Segments) → BTreeMap Watch (Unit {0}) → List Notification
notify snapshot [] watches = []
notify snapshot ((joined, segments) ∷ touched) watches =
    notify_watches snapshot joined watches ++ notify snapshot touched watches

module _ (sha256 nfc : List ℕ → List ℕ) (base64 : List ℕ → Option (List ℕ)) where
  unfoldable pub resolve_base : Store → Refs → Option (List ℕ) → Result FilesError (Option ObjectId)
  resolve_base store refs none = ok none
  resolve_base store refs (some hex) = do
    id ← ok_or (from_hex_32 hex) base_not_resolvable
    resolves ← refs_contains_snapshot sha256 refs store id
    deny_if (not resolves) base_not_resolvable
    root ← snapshot_root_tree store id
    ok (some root)

  -- The canonical empty tree, staged unless the block or the store has it.
  unfoldable pub stage_root :
      Store
      → Index
      → Index
      → StagedObjects
      → Option ObjectId
      → Result FilesError (ObjectId × StagedObjects)
  stage_root store pending_ids staged_ids objects (some id) = ok (id, objects)
  stage_root store pending_ids staged_ids objects none =
      let body = encode_tree [] in
      let id = object_id sha256 Kind.tree body in
      if contains_key id staged_ids || contains_key id pending_ids
      then ok (id, objects)
      else store.has_committed id >>= λ present.
          ok (id, if present then objects else objects ++ ((Kind.tree, body) ∷ []))

  -- The tree of the plan's edits over the effective head, and the objects staged by then.
  unfoldable pub build_root :
      Store → Index → Option ObjectId → Plan → Result FilesError (ObjectId × StagedObjects)
  build_root store pending_ids root plan = do
    node ← replay store plan.ops (tree.load root)
    let (objects, built) = edit.build sha256 node plan.objects
    found ← built
    stage_root store pending_ids plan.staged_ids objects found

  unfoldable pub snapshot_of : Authority → ℕ → ℕ → List ℕ → Option ObjectId → ObjectId → SnapshotObj
  snapshot_of authority height time message parent root = record {
    root = root;
    parent = parent;
    author = actor authority;
    consensus_time = time;
    height = height;
    message = message;
  }

  -- What a commit asks of its message and its changes before it reads anything.
  unfoldable pub check_bounds : List ℕ → List Change → Result FilesError (Unit {0})
  check_bounds message changes = do
    deny_if (ltb max_message_bytes (length message)) commit_message_over_cap
    deny_if (length changes == 0) commit_empty
    deny_if (ltb max_changes_per_commit (length changes)) commit_over_cap

  module _ (store : Store) (pending_ids : Index) (authority : Authority) (height time : ℕ)
      (message : List ℕ) (window_cap : ℕ) where
    -- What the engine returns once the plan stands and the root is built.
    unfoldable pub finish : Refs → Plan → ObjectId → StagedObjects → CommitBuilt
    finish refs plan root objects =
        let body = encode_snapshot (snapshot_of authority height time message refs.head root) in
        let id = object_id sha256 Kind.snapshot body in
        let refs' = advance window_cap id plan.chunk_refs refs in
        record {
          refs = refs';
          objects = objects ++ ((Kind.snapshot, body) ∷ []);
          notifications = notify (to_hex id) plan.touched refs'.watches;
        }

    -- The engine on the swept refs.
    unfoldable pub run_commit : Option (List ℕ) → List Change → Refs → Result FilesError CommitBuilt
    run_commit base changes refs = do
      check_bounds message changes
      base_root ← resolve_base store refs base
      head_root ← effective_root store refs.head
      planned ← plan_changes sha256 nfc base64 store pending_ids authority changes empty_plan
      let plan = planned.1
      check_chunks refs pending_ids plan.staged_ids plan.chunks_to_check
      check_unchanged store base_root head_root plan.touched
      built ← build_root store pending_ids head_root plan
      ok (finish refs plan built.0 built.1)

    unfoldable pub commit_built :
        Option (List ℕ) → List Change → Refs → Result FilesError CommitBuilt
    commit_built base changes refs = run_commit base changes (sweep_expired height refs)

  -- The merge, the one place where a commit changes the overlay.
  unfoldable pub land_commit :
      Pending → Result FilesError CommitBuilt → Pending × Result FilesError (List Notification)
  land_commit pending (err e) = (pending, err e)
  land_commit pending (ok built) = (
    push_objects sha256 built.objects (record pending { refs = built.refs }),
    ok built.notifications,
  )

  unfoldable pub commit_apply :
      Caps
      → Store
      → Authority
      → ℕ
      → ℕ
      → Option (List ℕ)
      → List ℕ
      → List Change
      → Verb (List Notification)
  commit_apply caps store authority height time base message changes pending = land_commit pending (
      commit_built store pending.object_ids authority height time message caps.window_cap base
        changes pending.refs)
