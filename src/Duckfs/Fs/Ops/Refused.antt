-- ===== src/Duckfs/Fs/Ops/Refused.antt =====
-- Refused operations of crates/duckfs/core/src/fs.rs. Objects are appended after a verb's last check, and
-- `transact` restores the refs.
use ducktape_sdk.Prelude.{
  ℕ, ◌+◌, ◌^◌, ◌≡◌, ◌⊎◌, inl, inr, refl, ap, subst, ◌||◌, Option, List, length, leb, ltb, ◌==◌,
  Bool-cases,
}
use ducktape_sdk.Bytes.Order.{bytes_order}
use ducktape_sdk.BTree.{contains_key}
use ducktape_sdk.Parser.{Result, ok, err}
use ducktape_sdk.Duckfs.Limits.{chunk_size}
use ducktape_sdk.Duckfs.Errors.{FilesError}
use ducktape_sdk.Duckfs.Kind
use ducktape_sdk.Duckfs.Actor.{Authority, validate}
use ducktape_sdk.Duckfs.Objects.{ObjectId}
use ducktape_sdk.Duckfs.Refs.{Refs}
use ducktape_sdk.Duckfs.Store.{object_id}
use ducktape_sdk.Duckfs.Tree.Resolve.{Store}
use ducktape_sdk.Duckfs.Retention.Exchange.{Built}
use ducktape_sdk.Duckfs.Fs.{
  Caps, StagedObjects, Pending, Fs, Verb, require_pending, with_pending, sweep_expired,
}
use ducktape_sdk.Duckfs.Fs.Staging.{stage_chunk, put_chunk, putblob_apply}
use ducktape_sdk.Duckfs.Fs.Tables.{
  land, refs_verb, pin_apply, unpin_apply, watch_apply, unwatch_apply,
}
use ducktape_sdk.Duckfs.Fs.Detached.{
  land_candidate, project_snapshot_apply, land_retention, compare_exchange_retention_apply,
}
use ducktape_sdk.Duckfs.Fs.Commit.Engine.{CommitBuilt, land_commit, commit_apply}
use ducktape_sdk.Duckfs.Fs.Verbs.{
  settle, apply_pending, transact, putblob, commit, project_snapshot, compare_exchange_retention,
  pin, unpin, watch, unwatch,
}
use ducktape_sdk.Duckfs.Fs.Ops.{
  Op, putblob_op, commit_op, project_op, retention_op, pin_op, unpin_op, watch_op, unwatch_op,
  forget, run_op,
}

-- What a refusal may leave changed in the overlay: its refs alone.
abbrev pub RestoresTo : {A : Type 0} → Pending → Pending × Result FilesError A → Type 0
RestoresTo pending (pending', ok a) = Unit
RestoresTo pending (pending', err e) = record pending' { refs = pending.refs } ≡ pending

abbrev IsAtomic : {A : Type 0} → Verb A → Type 0
IsAtomic operation = (pending : Pending) → RestoresTo pending (operation pending)

module _ (sha256 nfc : List ℕ → List ℕ) (base64 : List ℕ → Option (List ℕ)) where
  stage_chunk-RestoresTo :
      (authority : Authority) (height : ℕ) (bytes : List ℕ) (before pending : Pending)
      (r : Result FilesError (Unit {0}))
      → record pending { refs = before.refs } ≡ before
      → RestoresTo before (stage_chunk sha256 authority height bytes pending r)
  unfolding stage_chunk
  stage_chunk-RestoresTo authority height bytes before pending (ok u) h = tt
  stage_chunk-RestoresTo authority height bytes before pending (err e) h = h

  putblob_apply-IsAtomic :
      (caps : Caps) (authority : Authority) (height : ℕ) (bytes : List ℕ)
      → IsAtomic (putblob_apply sha256 caps authority height bytes)
  unfolding putblob_apply put_chunk
  putblob_apply-IsAtomic caps authority height bytes pending =
      elim (Bool-cases (length bytes == 0)) [
        | inl empty ↦ rw (empty) refl
        | inr filled ↦ elim (Bool-cases (ltb chunk_size (length bytes))) [
          | inl long ↦ rw (filled, long) refl
          | inr size ↦
              elim (Bool-cases (
                contains_key (object_id sha256 Kind.chunk bytes) pending.object_ids
                || contains_key (object_id sha256 Kind.chunk bytes)
                    (sweep_expired height pending.refs).staging)) [
                      | inl known ↦ rw (filled, size, known) tt
                      | inr fresh ↦
                          rw (filled, size, fresh)
                            (stage_chunk-RestoresTo authority height bytes pending
                              (record pending { refs = sweep_expired height pending.refs }) _ refl)
                    ]
        ]
      ]

  refs_verb-IsAtomic :
      (height : ℕ) (plan : Refs → Result FilesError Refs) → IsAtomic (refs_verb height plan)
  unfolding refs_verb
  refs_verb-IsAtomic height plan pending = go (plan (sweep_expired height pending.refs))
    where
      go :
          (r : Result FilesError Refs)
          → RestoresTo pending
              (land (record pending { refs = sweep_expired height pending.refs }) r)
      go (ok refs) = tt
      go (err e) = refl

  land_commit-RestoresTo :
      (pending : Pending) (r : Result FilesError CommitBuilt)
      → RestoresTo pending (land_commit sha256 nfc base64 pending r)
  unfolding land_commit
  land_commit-RestoresTo pending (ok b) = tt
  land_commit-RestoresTo pending (err e) = refl

  land_candidate-RestoresTo :
      (cap height : ℕ) (pending : Pending) (r : Result FilesError (ObjectId × StagedObjects))
      → RestoresTo pending (land_candidate sha256 nfc cap height pending r)
  unfolding land_candidate
  land_candidate-RestoresTo cap height pending (ok b) = tt
  land_candidate-RestoresTo cap height pending (err e) = refl

  land_retention-RestoresTo :
      (height : ℕ) (pending : Pending) (r : Result FilesError Built)
      → RestoresTo pending (land_retention sha256 nfc height pending r)
  unfolding land_retention
  land_retention-RestoresTo height pending (ok b) = tt
  land_retention-RestoresTo height pending (err e) = refl

  -- The state after a refusal: as it was, or with the block opened as `require_pending` opens it.
  abbrev pub Restored : ℕ → Fs → Fs × Result FilesError (Unit {0}) → Type 0
  Restored height fs (fs', ok u) = Unit
  Restored height fs (fs', err e) = (fs' ≡ fs) ⊎ (fs' ≡ with_pending fs (require_pending height fs))

  abbrev Exact : {A : Type 0} → Pending → Pending × Result FilesError A → Type 0
  Exact pending (pending', ok a) = Unit
  Exact pending (pending', err e) = pending' ≡ pending

  settle-Exact :
      {A : Type 0} (before : Pending) (x : Pending × Result FilesError A)
      → RestoresTo before x
      → Exact before (settle before.refs x)
  unfolding settle
  settle-Exact before (pending, ok a) h = tt
  settle-Exact before (pending, err e) h = h

  apply_pending-Exact :
      {A : Type 0} (operation : Verb A) (pending : Pending)
      → IsAtomic operation
      → Exact pending (apply_pending operation pending)
  unfolding apply_pending
  apply_pending-Exact operation pending atomic =
      elim (Bool-cases (leb (2 ^ 64) (pending.refs.source_revision + 1))) [
        | inl spent ↦ rw (spent) refl
        | inr fits ↦ rw (fits) (settle-Exact pending (operation pending) (atomic pending))
      ]

  from_pending :
      {A : Type 0} (height : ℕ) (fs : Fs) (x : Pending × Result FilesError A)
      → Exact (require_pending height fs) x
      → Restored height fs (forget (with_pending fs x.0, x.1))
  from_pending height fs (pending, ok a) h = tt
  from_pending height fs (pending, err e) h = inr (ap (with_pending fs) h)

  transact-Restored :
      {A : Type 0} (authority : Authority) (height : ℕ) (operation : Verb A) (fs : Fs)
      → IsAtomic operation
      → Restored height fs (forget (transact authority height operation fs))
  unfolding transact
  transact-Restored {A} authority height operation fs atomic = go (validate authority)
    where
      go :
          (r : Result FilesError (Unit {0}))
          → Restored height fs (
              forget (elim r as (λ _. Fs × Result FilesError A) [
                | err e ↦ (fs, err e)
                | ok u ↦
                    let (pending, r) = apply_pending operation (require_pending height fs) in
                    (with_pending fs pending, r)
              ]))
      go (err e) = inl refl
      go (ok u) =
          from_pending height fs (apply_pending operation (require_pending height fs))
            (apply_pending-Exact operation (require_pending height fs) atomic)

  of_forget :
      (height : ℕ) (fs : Fs) (x : Fs × Result FilesError (Unit {0}))
      → Restored height fs (forget x)
      → Restored height fs x
  of_forget height fs (fs', ok u) h = tt
  of_forget height fs (fs', err e) h = h

  op-Restored :
      (store : Store) (authority : Authority) (height : ℕ) (op : Op) (fs : Fs)
      → Restored height fs (run_op sha256 nfc base64 store authority height op fs)
  unfolding run_op putblob commit project_snapshot compare_exchange_retention pin unpin watch
      unwatch commit_apply project_snapshot_apply compare_exchange_retention_apply pin_apply
      unpin_apply watch_apply unwatch_apply
  op-Restored store authority height (putblob_op bytes) fs = of_forget height fs _ (
      transact-Restored authority height _ fs
        (putblob_apply-IsAtomic fs.caps authority height bytes))
  op-Restored store authority height (commit_op time base message changes) fs =
      transact-Restored authority height _ fs (λ pending. land_commit-RestoresTo pending _)
  op-Restored store authority height (project_op time snapshot path) fs =
      transact-Restored authority height _ fs
        (λ pending. land_candidate-RestoresTo fs.caps.window_cap height pending _)
  op-Restored store authority height (retention_op key expected replacement) fs =
      of_forget height fs _ (
        transact-Restored authority height _ fs
          (λ pending. land_retention-RestoresTo height pending _))
  op-Restored store authority height (pin_op snapshot name) fs =
      of_forget height fs _ (transact-Restored authority height _ fs (refs_verb-IsAtomic height _))
  op-Restored store authority height (unpin_op name) fs =
      of_forget height fs _ (transact-Restored authority height _ fs (refs_verb-IsAtomic height _))
  op-Restored store authority height (watch_op prefix module_id) fs =
      of_forget height fs _ (transact-Restored authority height _ fs (refs_verb-IsAtomic height _))
  op-Restored store authority height (unwatch_op prefix module_id) fs =
      of_forget height fs _ (transact-Restored authority height _ fs (refs_verb-IsAtomic height _))

  -- An operation that is refused, whichever it is and at whichever check, changes nothing: the state is as
  -- it was, or the block's overlay is opened as `require_pending` opens it, with the block's refs, its
  -- objects and their index as they were.
  pub run_op-refused :
      (store : Store) (authority : Authority) (height : ℕ) (op : Op) (fs fs' : Fs) (e : FilesError)
      → run_op sha256 nfc base64 store authority height op fs ≡ (fs', err e)
      → (fs' ≡ fs) ⊎ (fs' ≡ with_pending fs (require_pending height fs))
  run_op-refused store authority height op fs fs' e h =
      subst (Restored height fs) h (op-Restored store authority height op fs)
