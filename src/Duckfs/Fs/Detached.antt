-- ===== src/Duckfs/Fs/Detached.antt =====
-- `project_snapshot_apply` and `compare_exchange_retention_apply` of crates/duckfs/core/src/fs.rs. Both
-- sweep after their last check.
use ducktape_sdk.Prelude.{ℕ, not, Option, none, some, List, [], ◌∷◌, ◌++◌}
use ducktape_sdk.Parser.{Result, ok, err}
use ducktape_sdk.Duckfs.Errors.{
  FilesError, snapshot_not_resolvable, projection_missing, retention_module_only,
  retention_not_resolvable,
}
use ducktape_sdk.Duckfs.Results.{◌>>=◌, ◌>>◌, ok_or, deny_if, edited}
use ducktape_sdk.Duckfs.Kind
use ducktape_sdk.Duckfs.Actor.{Authority, external, program, mod_authority, system_authority, actor}
use ducktape_sdk.Duckfs.Objects.{ObjectId, SnapshotObj, encode_snapshot}
use ducktape_sdk.Duckfs.Refs.{Refs}
use ducktape_sdk.Duckfs.Paths.{Segments, canonical}
use ducktape_sdk.Duckfs.Hex.{to_hex, from_hex_32}
use ducktape_sdk.Duckfs.Store.{object_id}
use ducktape_sdk.Duckfs.Tree.{load, put}
use ducktape_sdk.Duckfs.Tree.Build as edit
use ducktape_sdk.Duckfs.Tree.Resolve.{Store, snapshot_root_tree, entry_at}
use ducktape_sdk.Duckfs.Retention.{RetentionReference, snapshot_id}
use ducktape_sdk.Duckfs.Retention.Exchange.{Built, compare_exchange}
use ducktape_sdk.Duckfs.Fs.{
  Caps, StagedObjects, Pending, Verb, sweep_expired, push_window, push_objects,
  refs_contains_snapshot,
}

abbrev pub with_candidate : ℕ → ObjectId → Refs → Refs
with_candidate window_cap id refs = record refs { window = push_window window_cap id refs.window }

abbrev pub with_retention : Option ObjectId → Refs → Refs
with_retention root refs = record refs { retention_root = root }

module _ (sha256 nfc : List ℕ → List ℕ) where
  -- The tree of the candidate, and the objects staged for it. The edit holds the entry that was put, so
  -- its build has a root.
  unfoldable pub project_root :
      Store → ObjectId → Segments → Result FilesError (ObjectId × StagedObjects)
  project_root store source_root [] = ok (source_root, [])
  project_root store source_root (segment ∷ rest) = do
    found ← entry_at store (some source_root) (segment ∷ rest)
    entry ← ok_or found projection_missing
    node ← edited (put store.get (load none) (segment ∷ rest) entry)
    let (objects, built) = edit.build sha256 node []
    root ← built
    id ← ok_or root projection_missing
    ok (id, objects)

  unfoldable pub candidate_of : Authority → ℕ → ℕ → ObjectId → SnapshotObj
  candidate_of authority height time root = record {
    root = root;
    parent = none;
    author = actor authority;
    consensus_time = time;
    height = height;
    message = [];
  }

  -- The candidate's id, and the objects that the verb adds.
  unfoldable pub plan_project :
      Store
      → Authority
      → ℕ
      → ℕ
      → List ℕ
      → List ℕ
      → Refs
      → Result FilesError (ObjectId × StagedObjects)
  plan_project store authority height time snapshot path refs = do
    segments ← canonical nfc path
    id ← ok_or (from_hex_32 snapshot) snapshot_not_resolvable
    resolves ← refs_contains_snapshot sha256 refs store id
    deny_if (not resolves) snapshot_not_resolvable
    source_root ← snapshot_root_tree store id
    projected ← project_root store source_root segments
    let body = encode_snapshot (candidate_of authority height time projected.0)
    ok (object_id sha256 Kind.snapshot body, projected.1 ++ ((Kind.snapshot, body) ∷ []))

  unfoldable pub land_candidate :
      ℕ
      → ℕ
      → Pending
      → Result FilesError (ObjectId × StagedObjects)
      → Pending × Result FilesError (List ℕ)
  land_candidate window_cap height pending (err e) = (pending, err e)
  land_candidate window_cap height pending (ok (projected, objects)) =
      let refs = with_candidate window_cap projected (sweep_expired height pending.refs) in
      (push_objects sha256 objects (record pending { refs = refs }), ok (to_hex projected))

  unfoldable pub project_snapshot_apply :
      Caps → Store → Authority → ℕ → ℕ → List ℕ → List ℕ → Verb (List ℕ)
  project_snapshot_apply caps store authority height time snapshot path pending =
      land_candidate caps.window_cap height pending
        (plan_project store authority height time snapshot path pending.refs)

  unfoldable pub check_replacement :
      Refs → Store → Option RetentionReference → Result FilesError (Unit {0})
  check_replacement refs store none = ok tt
  check_replacement refs store (some reference) = do
    id ← snapshot_id reference.snapshot
    resolves ← refs_contains_snapshot sha256 refs store id
    deny_if (not resolves) retention_not_resolvable

  unfoldable pub plan_retention :
      Store
      → Authority
      → List ℕ
      → Option RetentionReference
      → Option RetentionReference
      → Refs
      → Result FilesError Built
  plan_retention store (mod_authority m) key expected replacement refs = do
    check_replacement refs store replacement
    compare_exchange sha256 store refs.retention_root m key expected replacement
  plan_retention store (external k account_of) key expected replacement refs =
      err retention_module_only
  plan_retention store (program number) key expected replacement refs = err retention_module_only
  plan_retention store system_authority key expected replacement refs = err retention_module_only

  unfoldable pub land_retention :
      ℕ → Pending → Result FilesError Built → Pending × Result FilesError (Unit {0})
  land_retention height pending (err e) = (pending, err e)
  land_retention height pending (ok built) =
      let refs = with_retention built.root (sweep_expired height pending.refs) in
      (push_objects sha256 built.objects (record pending { refs = refs }), ok tt)

  unfoldable pub compare_exchange_retention_apply :
      Store
      → Authority
      → ℕ
      → List ℕ
      → Option RetentionReference
      → Option RetentionReference
      → Verb (Unit {0})
  compare_exchange_retention_apply store authority height key expected replacement pending =
      land_retention height pending
        (plan_retention store authority key expected replacement pending.refs)
