-- ===== src/Duckfs/Fs/Keeps/Detached.antt =====
-- `commit`, `project_snapshot` and `compare_exchange_retention` of crates/duckfs/core/src/fs.rs and the
-- bounds of the refs: what they add to the refs are hashes.
use ducktape_sdk.Prelude.{ℕ, ◌≤◌, ◌≡◌, refl, sym, subst, Option, some, List, [], ◌∷◌, arith}
use ducktape_sdk.Bytes.Order.{bytes_order}
use ducktape_sdk.BTree.{BTreeMap, remove}
use ducktape_sdk.BTree.Lookup.{remove-IsAscending}
use ducktape_sdk.Parser.{Result, ok, err}
use ducktape_sdk.Parser.Ints.{IsArray}
use ducktape_sdk.Duckfs.Limits.{history_window}
use ducktape_sdk.Duckfs.Errors.{FilesError}
use ducktape_sdk.Duckfs.Results.{bind-ok, ok-eq, err-ok}
use ducktape_sdk.Duckfs.Actor.{Authority, external, program, mod_authority, system_authority}
use ducktape_sdk.Duckfs.Objects.{ObjectId}
use ducktape_sdk.Duckfs.Objects.Snapshot.{IsOptId}
use ducktape_sdk.Duckfs.Refs.{Refs, Staged, staged_entry_len}
use ducktape_sdk.Duckfs.Refs.Sections.{IsStaged}
use ducktape_sdk.Duckfs.Store.{object_id}
use ducktape_sdk.Duckfs.BlockObjects.{Index}
use ducktape_sdk.Duckfs.Tree.Resolve.{Store}
use ducktape_sdk.Duckfs.Retention.{RetentionReference}
use ducktape_sdk.Duckfs.Retention.Exchange.{Built}
use ducktape_sdk.Duckfs.Fs.{
  Caps, StagedObjects, Pending, push_object, push_objects, sweep_expired, push_window,
}
use ducktape_sdk.Duckfs.Fs.Detached.{
  plan_project, land_candidate, project_snapshot_apply, plan_retention, land_retention,
  compare_exchange_retention_apply,
}
use ducktape_sdk.Duckfs.Fs.Commit.Change.{Change}
use ducktape_sdk.Duckfs.Fs.Commit.Engine.{
  CommitBuilt, advance, reclaim, finish, run_commit, commit_built, land_commit, commit_apply,
}
use ducktape_sdk.Duckfs.Fs.Reserved.{
  IsBounded, HasStaging, staging_len, staging-IsBounded, retention-IsBounded, head-IsBounded,
  window-IsBounded, staging_of,
}
use ducktape_sdk.Duckfs.Fs.Reserved.Maps.{All-remove, length-remove, sum_by-remove}
use ducktape_sdk.Duckfs.Fs.Keeps.{IsDigest, sweep-IsBounded, Keeps}
use ducktape_sdk.Duckfs.Fs.Keeps.Catalog.{compare_exchange-IsOptId}

pub push_objects-refs :
    (sha256 : List ℕ → List ℕ) (objects : StagedObjects) (pending : Pending)
    → (push_objects sha256 objects pending).refs ≡ pending.refs
unfolding push_objects push_object
push_objects-refs sha256 [] pending = refl
push_objects-refs sha256 ((kind, body) ∷ objects) pending =
    push_objects-refs sha256 objects (push_object sha256 (kind, body) pending)

module _ (sha256 nfc : List ℕ → List ℕ) (digest_ok : IsDigest sha256) where
  project-IsArray :
      (store : Store) (authority : Authority) (height time : ℕ) (snapshot path : List ℕ)
      (refs : Refs) (out : ObjectId × StagedObjects)
      → plan_project sha256 nfc store authority height time snapshot path refs ≡ ok out
      → IsArray 32 out.0
  unfolding plan_project object_id
  project-IsArray store authority height time snapshot path refs out e =
      let (_, _, e) = bind-ok _ _ _ e in
      let (_, _, e) = bind-ok _ _ _ e in
      let (_, _, e) = bind-ok _ _ _ e in
      let (_, _, e) = bind-ok _ _ _ e in
      let (_, _, e) = bind-ok _ _ _ e in
      let (_, _, e) = bind-ok _ _ _ e in subst (λ z. IsArray 32 z.0) (ok-eq _ _ e) (digest_ok _)

  land_candidate-IsBounded :
      (cap height : ℕ) (pending : Pending) (r : Result FilesError (ObjectId × StagedObjects))
      → cap ≤ history_window
      → ((out : ObjectId × StagedObjects) → r ≡ ok out → IsArray 32 out.0)
      → IsBounded cap pending.refs
      → IsBounded cap (land_candidate sha256 nfc cap height pending r).0.refs
  unfolding land_candidate
  land_candidate-IsBounded cap height pending (err e) small id_ok h = h
  land_candidate-IsBounded cap height pending (ok (projected, objects)) small id_ok h =
      subst (IsBounded cap) (sym (push_objects-refs sha256 objects _)) (
        window-IsBounded cap (sweep_expired height pending.refs)
          (sweep-IsBounded cap height pending.refs h) projected small
          (id_ok (projected, objects) refl))

  pub project_snapshot_apply-Keeps :
      (caps : Caps) (store : Store) (authority : Authority) (height time : ℕ)
      (snapshot path : List ℕ)
      → caps.window_cap ≤ history_window
      → Keeps caps.window_cap
          (project_snapshot_apply sha256 nfc caps store authority height time snapshot path)
  unfolding project_snapshot_apply
  project_snapshot_apply-Keeps caps store authority height time snapshot path small pending h =
      land_candidate-IsBounded caps.window_cap height pending _ small
        (project-IsArray store authority height time snapshot path pending.refs) h

  retention-IsOptId :
      (store : Store) (authority : Authority) (key : List ℕ)
      (expected replacement : Option RetentionReference) (refs : Refs) (b : Built)
      → IsOptId refs.retention_root
      → plan_retention sha256 nfc store authority key expected replacement refs ≡ ok b
      → IsOptId b.root
  unfolding plan_retention
  retention-IsOptId store (mod_authority m) key expected replacement refs b h e =
      let (_, _, e) = bind-ok _ _ _ e in
      compare_exchange-IsOptId sha256 digest_ok store refs.retention_root m key expected replacement
        b h e
  retention-IsOptId store (external k n) key expected replacement refs b h e = absurd (err-ok _ _ e)
  retention-IsOptId store (program n) key expected replacement refs b h e = absurd (err-ok _ _ e)
  retention-IsOptId store system_authority key expected replacement refs b h e =
      absurd (err-ok _ _ e)

  land_retention-IsBounded :
      (cap height : ℕ) (pending : Pending) (r : Result FilesError Built)
      → ((b : Built) → r ≡ ok b → IsOptId b.root)
      → IsBounded cap pending.refs
      → IsBounded cap (land_retention sha256 nfc height pending r).0.refs
  unfolding land_retention
  land_retention-IsBounded cap height pending (err e) id_ok h = h
  land_retention-IsBounded cap height pending (ok b) id_ok h =
      subst (IsBounded cap) (sym (push_objects-refs sha256 b.objects _)) (
        retention-IsBounded cap (sweep_expired height pending.refs)
          (sweep-IsBounded cap height pending.refs h) b.root (id_ok b refl))

  pub compare_exchange_retention_apply-Keeps :
      (cap : ℕ) (store : Store) (authority : Authority) (height : ℕ) (key : List ℕ)
      (expected replacement : Option RetentionReference)
      → Keeps cap (
          compare_exchange_retention_apply sha256 nfc store authority height key expected
            replacement)
  unfolding compare_exchange_retention_apply
  compare_exchange_retention_apply-Keeps cap store authority height key expected replacement pending
        h =
      land_retention-IsBounded cap height pending _
        (λ b e.
          retention-IsOptId store authority key expected replacement pending.refs b
            h.valid.retention_id e)
        h

reclaim-HasStaging :
    (ids : List ObjectId) (m : BTreeMap ObjectId Staged)
    → HasStaging m
    → HasStaging (reclaim ids m) × (staging_len (reclaim ids m) ≤ staging_len m)
unfolding reclaim
reclaim-HasStaging [] m h = (h, omega arith)
reclaim-HasStaging (id ∷ ids) m (asc, valid, count) =
    let (has, le) = reclaim-HasStaging ids (remove id m) (
      remove-IsAscending id m asc,
      All-remove IsStaged id m valid,
      omega (arith, length-remove id m, count),
    ) in
    (has, omega (arith, le, sum_by-remove (λ e. staged_entry_len e.1.owner) id m))

advance-IsBounded :
    (cap : ℕ) (id : ObjectId) (chunk_refs : List ObjectId) (refs : Refs)
    → cap ≤ history_window
    → IsArray 32 id
    → IsBounded cap refs
    → IsBounded cap (advance cap id chunk_refs refs)
unfolding push_window
advance-IsBounded cap id chunk_refs refs small id_ok h =
    let headed = head-IsBounded cap refs h (some id) id_ok in
    let windowed = window-IsBounded cap (record refs { head = some id }) headed id small id_ok in
    let (has, le) = reclaim-HasStaging chunk_refs refs.staging (staging_of h.valid) in
    staging-IsBounded cap 0 _ windowed (omega (arith, windowed.room))
      (reclaim chunk_refs refs.staging) has (omega (arith, le))

module _ (sha256 nfc : List ℕ → List ℕ) (base64 : List ℕ → Option (List ℕ))
    (digest_ok : IsDigest sha256) (caps : Caps) (store : Store) (authority : Authority)
    (height time : ℕ) (message : List ℕ) (small : caps.window_cap ≤ history_window) where
  run_commit-IsBounded :
      (pending_ids : Index) (base : Option (List ℕ)) (changes : List Change) (refs : Refs)
      (b : CommitBuilt)
      → IsBounded caps.window_cap refs
      → run_commit sha256 nfc base64 store pending_ids authority height time message caps.window_cap
          base changes refs
        ≡ ok b
      → IsBounded caps.window_cap b.refs
  unfolding run_commit finish object_id
  run_commit-IsBounded pending_ids base changes refs b h e =
      let (_, _, e) = bind-ok _ _ _ e in
      let (_, _, e) = bind-ok _ _ _ e in
      let (_, _, e) = bind-ok _ _ _ e in
      let (planned, _, e) = bind-ok _ _ _ e in
      let (_, _, e) = bind-ok _ _ _ e in
      let (_, _, e) = bind-ok _ _ _ e in
      let (_, _, e) = bind-ok _ _ _ e in
      subst (λ z. IsBounded caps.window_cap z.refs) (ok-eq _ _ e)
        (advance-IsBounded caps.window_cap _ planned.1.chunk_refs refs small (digest_ok _) h)

  land_commit-IsBounded :
      (pending : Pending) (r : Result FilesError CommitBuilt)
      → ((b : CommitBuilt) → r ≡ ok b → IsBounded caps.window_cap b.refs)
      → IsBounded caps.window_cap pending.refs
      → IsBounded caps.window_cap (land_commit sha256 nfc base64 pending r).0.refs
  unfolding land_commit
  land_commit-IsBounded pending (err e) kept h = h
  land_commit-IsBounded pending (ok b) kept h =
      subst (IsBounded caps.window_cap) (sym (push_objects-refs sha256 b.objects _)) (kept b refl)

  pub commit_apply-Keeps :
      (base : Option (List ℕ)) (changes : List Change)
      → Keeps caps.window_cap
          (commit_apply sha256 nfc base64 caps store authority height time base message changes)
  unfolding commit_apply commit_built
  commit_apply-Keeps base changes pending h =
      land_commit-IsBounded pending _
        (λ b e.
          run_commit-IsBounded pending.object_ids base changes (sweep_expired height pending.refs) b
            (sweep-IsBounded caps.window_cap height pending.refs h) e)
        h
