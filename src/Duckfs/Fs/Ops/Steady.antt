-- ===== src/Duckfs/Fs/Ops/Steady.antt =====
-- The verbs of crates/duckfs/core/src/fs.rs and the revision of the refs: only `transact` moves it.
use ducktape_sdk.Prelude.{
  ℕ, ◌≡◌, inl, inr, refl, sym, ap, ◌∙◌, ◌||◌, Option, List, length, ltb, ◌==◌, Bool-cases,
}
use ducktape_sdk.Bytes.Order.{bytes_order}
use ducktape_sdk.BTree.{contains_key}
use ducktape_sdk.Parser.{Result, ok, err}
use ducktape_sdk.Duckfs.Limits.{chunk_size}
use ducktape_sdk.Duckfs.Errors.{FilesError}
use ducktape_sdk.Duckfs.Results.{bind-ok, ok-eq}
use ducktape_sdk.Duckfs.Kind
use ducktape_sdk.Duckfs.Actor.{Authority}
use ducktape_sdk.Duckfs.Objects.{ObjectId}
use ducktape_sdk.Duckfs.BlockObjects.{Index}
use ducktape_sdk.Duckfs.Refs.{Refs}
use ducktape_sdk.Duckfs.Store.{object_id}
use ducktape_sdk.Duckfs.Tree.Resolve.{Store}
use ducktape_sdk.Duckfs.Retention.Exchange.{Built}
use ducktape_sdk.Duckfs.Fs.{Caps, StagedObjects, Pending, Verb, sweep_expired, push_object}
use ducktape_sdk.Duckfs.Fs.Staging.{stage_chunk, put_chunk, putblob_apply}
use ducktape_sdk.Duckfs.Fs.Tables.{land, refs_verb}
use ducktape_sdk.Duckfs.Fs.Detached.{land_candidate, land_retention}
use ducktape_sdk.Duckfs.Fs.Commit.Change.{Change}
use ducktape_sdk.Duckfs.Fs.Commit.Engine.{CommitBuilt, finish, run_commit, land_commit}
use ducktape_sdk.Duckfs.Fs.Keeps.Detached.{push_objects-refs}
use ducktape_sdk.Duckfs.Fs.Ops.Ticks.{LeavesStaging}

-- What a verb that succeeds leaves of the revision `n`; a refused one is rolled back.
abbrev pub LeavesRevision : {A : Type 0} → ℕ → Pending × Result FilesError A → Type 0
LeavesRevision n (pending, ok a) = pending.refs.source_revision ≡ n
LeavesRevision n (pending, err e) = Unit

abbrev pub IsSteady : {A : Type 0} → Verb A → Type 0
IsSteady operation =
    (pending : Pending) → LeavesRevision pending.refs.source_revision (operation pending)

pub refs_verb-IsSteady :
    (height : ℕ) (plan : Refs → Result FilesError Refs)
    → LeavesStaging plan
    → IsSteady (refs_verb height plan)
unfolding refs_verb sweep_expired
refs_verb-IsSteady height plan leaves pending = go (plan swept) refl
  where
    swept : Refs
    swept = sweep_expired height pending.refs

    go :
        (r : Result FilesError Refs)
        → plan swept ≡ r
        → LeavesRevision pending.refs.source_revision (land (record pending { refs = swept }) r)
    go (err e) p = tt
    go (ok refs) p = sym (leaves swept refs p).1

module _ (sha256 nfc : List ℕ → List ℕ) (base64 : List ℕ → Option (List ℕ)) where
  stage_chunk-LeavesRevision :
      (authority : Authority) (height : ℕ) (bytes : List ℕ) (pending : Pending)
      (r : Result FilesError (Unit {0}))
      → LeavesRevision pending.refs.source_revision
          (stage_chunk sha256 authority height bytes pending r)
  unfolding stage_chunk push_object
  stage_chunk-LeavesRevision authority height bytes pending (err e) = tt
  stage_chunk-LeavesRevision authority height bytes pending (ok u) = refl

  pub putblob_apply-IsSteady :
      (caps : Caps) (authority : Authority) (height : ℕ) (bytes : List ℕ)
      → IsSteady (putblob_apply sha256 caps authority height bytes)
  unfolding putblob_apply put_chunk sweep_expired
  putblob_apply-IsSteady caps authority height bytes pending =
      elim (Bool-cases (length bytes == 0)) [
        | inl empty ↦ rw (empty) tt
        | inr filled ↦ elim (Bool-cases (ltb chunk_size (length bytes))) [
          | inl long ↦ rw (filled, long) tt
          | inr size ↦
              elim (Bool-cases (
                contains_key (object_id sha256 Kind.chunk bytes) pending.object_ids
                || contains_key (object_id sha256 Kind.chunk bytes)
                    (sweep_expired height pending.refs).staging)) [
                      | inl known ↦ rw (filled, size, known) refl
                      | inr fresh ↦
                          rw (filled, size, fresh)
                            (stage_chunk-LeavesRevision authority height bytes
                              (record pending { refs = sweep_expired height pending.refs }) _)
                    ]
        ]
      ]

  pub land_candidate-LeavesRevision :
      (cap height : ℕ) (pending : Pending) (r : Result FilesError (ObjectId × StagedObjects))
      → LeavesRevision pending.refs.source_revision (land_candidate sha256 nfc cap height pending r)
  unfolding land_candidate sweep_expired
  land_candidate-LeavesRevision cap height pending (err e) = tt
  land_candidate-LeavesRevision cap height pending (ok (id, objects)) =
      ap (λ (r : Refs). r.source_revision) (push_objects-refs sha256 objects _)

  pub land_retention-LeavesRevision :
      (height : ℕ) (pending : Pending) (r : Result FilesError Built)
      → LeavesRevision pending.refs.source_revision (land_retention sha256 nfc height pending r)
  unfolding land_retention sweep_expired
  land_retention-LeavesRevision height pending (err e) = tt
  land_retention-LeavesRevision height pending (ok b) =
      ap (λ (r : Refs). r.source_revision) (push_objects-refs sha256 b.objects _)

  pub run_commit-revision :
      (store : Store) (pending_ids : Index) (authority : Authority) (height time : ℕ)
      (message : List ℕ) (cap : ℕ) (base : Option (List ℕ)) (changes : List Change) (refs : Refs)
      (b : CommitBuilt)
      → run_commit sha256 nfc base64 store pending_ids authority height time message cap base
          changes refs
        ≡ ok b
      → b.refs.source_revision ≡ refs.source_revision
  unfolding run_commit finish
  run_commit-revision store pending_ids authority height time message cap base changes refs b e =
      let (_, _, e) = bind-ok _ _ _ e in
      let (_, _, e) = bind-ok _ _ _ e in
      let (_, _, e) = bind-ok _ _ _ e in
      let (_, _, e) = bind-ok _ _ _ e in
      let (_, _, e) = bind-ok _ _ _ e in
      let (_, _, e) = bind-ok _ _ _ e in
      let (_, _, e) = bind-ok _ _ _ e in
      sym (ap (λ (z : CommitBuilt). z.refs.source_revision) (ok-eq _ _ e))

  pub land_commit-LeavesRevision :
      (n : ℕ) (pending : Pending) (r : Result FilesError CommitBuilt)
      → ((b : CommitBuilt) → r ≡ ok b → b.refs.source_revision ≡ n)
      → LeavesRevision n (land_commit sha256 nfc base64 pending r)
  unfolding land_commit
  land_commit-LeavesRevision n pending (err e) h = tt
  land_commit-LeavesRevision n pending (ok b) h =
      ap (λ (r : Refs). r.source_revision) (push_objects-refs sha256 b.objects _) ∙ h b refl
