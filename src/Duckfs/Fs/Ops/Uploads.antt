-- ===== src/Duckfs/Fs/Ops/Uploads.antt =====
-- `putblob` of crates/duckfs/core/src/fs.rs: what an accepted upload leaves in the block.
use ducktape_sdk.Prelude.{
  ◌-◌, ◌%◌, min, ℕ, ◌+◌, ◌^◌, ◌≤◌, ◌<◌, ◌≡◌, ◌⊎◌, inl, inr, refl, sym, ap, ◌∙◌, Bool, true, false,
  ◌||◌, Option, some, List, length, leb, ltb, ◌==◌, Bool-cases, arith,
}
use ducktape_sdk.Bytes.Order.{bytes_order}
use ducktape_sdk.BTree.{get, contains_key}
use ducktape_sdk.BTree.Lookup.{get-insert_same}
use ducktape_sdk.Parser.{Result, ok, err}
use ducktape_sdk.Duckfs.Limits.{chunk_size}
use ducktape_sdk.Duckfs.Errors.{FilesError}
use ducktape_sdk.Duckfs.Results.{err-ok}
use ducktape_sdk.Duckfs.Kind
use ducktape_sdk.Duckfs.Actor.{Authority, actor, validate}
use ducktape_sdk.Duckfs.Refs.{Refs}
use ducktape_sdk.Duckfs.Store.{object_id}
use ducktape_sdk.Duckfs.Tree.Resolve.{Store}
use ducktape_sdk.Duckfs.Fs.{
  Caps, Pending, Fs, Verb, require_pending, with_pending, sweep_expired, push_object,
}
use ducktape_sdk.Duckfs.Fs.Staging.{staged_by, check_quotas, stage_chunk, put_chunk, putblob_apply}
use ducktape_sdk.Duckfs.Fs.Verbs.{refs_eq, bump, settle, apply_pending, transact, putblob}
use ducktape_sdk.Duckfs.Fs.Ops.{putblob_op, run_op}

-- What a relation of the overlays says of a verb that succeeds.
abbrev OnOk : {A : Type 0} → (Pending → Type 0) → Pending × Result FilesError A → Type 0
OnOk P (pending, ok a) = P pending
OnOk P (pending, err e) = Unit

-- A transaction that is accepted leaves what its verb leaves, when the bump of the revision does not
-- matter to it.
transact-ok :
    {A : Type 0} (P : Pending → Pending → Type 0)
    → ((before : Refs) (p q : Pending) → P p q → P p (bump before q))
    → (authority : Authority) (height : ℕ) (operation : Verb A) (fs fs' : Fs) (a : A)
    → ((pending : Pending) → OnOk (P pending) (operation pending))
    → transact authority height operation fs ≡ (fs', ok a)
    → (pending : Pending) × (fs'.pending ≡ some pending) × P (require_pending height fs) pending
unfolding transact apply_pending settle
transact-ok {A} P bumped authority height operation fs fs' a holds = go (validate authority)
  where
    start : Pending
    start = require_pending height fs

    settled :
        (x : Pending × Result FilesError A)
        → OnOk (P start) x
        → ◌≡◌ {A = Fs × Result FilesError A}
            (with_pending fs (settle start.refs x).0, (settle start.refs x).1)
            (fs', ok a)
        → (pending : Pending) × (fs'.pending ≡ some pending) × P start pending
    settled (next, ok b) h e = (
      bump start.refs next,
      sym (ap (λ (z : Fs × Result FilesError A). z.0.pending) e),
      bumped start.refs start next h,
    )
    settled (next, err x) h e = absurd (err-ok x a (ap (λ (z : Fs × Result FilesError A). z.1) e))

    go :
        (r : Result FilesError (Unit {0}))
        → ◌≡◌ {A = Fs × Result FilesError A}
            (elim r as (λ _. Fs × Result FilesError A) [
              | err e ↦ (fs, err e)
              | ok u ↦
                  let (pending, r) = apply_pending operation start in (with_pending fs pending, r)
            ])
            (fs', ok a)
        → (pending : Pending) × (fs'.pending ≡ some pending) × P start pending
    go (err x) e = absurd (err-ok x a (ap (λ (z : Fs × Result FilesError A). z.1) e))
    go (ok u) e = elim (Bool-cases (leb (2 ^ 64) (start.refs.source_revision + 1))) [
      | inl spent ↦
          absurd (err-ok _ a (ap (λ (z : Fs × Result FilesError A). z.1) (rw (spent) at e)))
      | inr fits ↦ settled (operation start) (holds start) (rw (fits) at e)
    ]

module _ (sha256 : List ℕ → List ℕ) where
  -- The chunk is in the block's objects or in the staging table that the sweep leaves.
  abbrev pub is_held : ℕ → List ℕ → Pending → Bool
  is_held height bytes pending =
      contains_key (object_id sha256 Kind.chunk bytes) pending.object_ids
      || contains_key (object_id sha256 Kind.chunk bytes)
          (sweep_expired height pending.refs).staging

  -- A chunk that was held stays as it was.
  abbrev IsKept : ℕ → Pending → Pending → Type 0
  IsKept height before after =
      (after.object_ids ≡ before.object_ids)
      × (after.refs.staging ≡ (sweep_expired height before.refs).staging)

  -- A new one is staged for 4096 blocks in the name of the uploader, and is an object of the block.
  abbrev IsStaged : Authority → ℕ → List ℕ → Pending → Type 0
  IsStaged authority height bytes after =
      (get (object_id sha256 Kind.chunk bytes) after.refs.staging
        ≡ some (record {
          owner = actor authority;
          len = length bytes;
          expires_at = min (height + 4096) (2 ^ 64 - 1);
        }))
      × (get (object_id sha256 Kind.chunk bytes) after.object_ids ≡ some (Kind.chunk, length bytes))

  abbrev pub Uploaded : Authority → ℕ → List ℕ → Pending → Pending → Type 0
  Uploaded authority height bytes before after =
      ((0 < length bytes) × (length bytes ≤ chunk_size))
      × (((is_held height bytes before ≡ true) × IsKept height before after)
          ⊎ ((is_held height bytes before ≡ false) × IsStaged authority height bytes after))

  bump-Uploaded :
      (authority : Authority) (height : ℕ) (bytes : List ℕ) (refs : Refs) (before after : Pending)
      → Uploaded authority height bytes before after
      → Uploaded authority height bytes before (bump refs after)
  unfolding bump
  bump-Uploaded authority height bytes refs before after h =
      elim (Bool-cases (refs_eq after.refs refs)) [
        | inl same ↦ rw (same) h
        | inr moved ↦ rw (moved) h
      ]

  stage_chunk-IsStaged :
      (authority : Authority) (height : ℕ) (bytes : List ℕ) (pending : Pending)
      (r : Result FilesError (Unit {0}))
      → length bytes ≤ chunk_size
      → OnOk (IsStaged authority height bytes) (stage_chunk sha256 authority height bytes pending r)
  unfolding stage_chunk push_object
  stage_chunk-IsStaged authority height bytes pending (err e) small = tt
  stage_chunk-IsStaged authority height bytes pending (ok u) small =
      let digest = object_id sha256 Kind.chunk bytes in
      let whole : length bytes % 2 ^ 64 ≡ length bytes = omega arith in
      (
        get-insert_same digest (staged_by authority height (length bytes)) pending.refs.staging,
        get-insert_same digest (Kind.chunk, length bytes % 2 ^ 64) pending.object_ids
            ∙ ap (λ (n : ℕ). some (Kind.chunk, n)) whole,
      )

  on_ok :
      {A : Type 0} (P Q : Pending → Type 0) (x : Pending × Result FilesError A)
      → ((pending : Pending) → P pending → Q pending)
      → OnOk P x
      → OnOk Q x
  on_ok P Q (pending, ok a) f h = f pending h
  on_ok P Q (pending, err e) f h = tt

  putblob_apply-Uploaded :
      (caps : Caps) (authority : Authority) (height : ℕ) (bytes : List ℕ) (pending : Pending)
      → OnOk
          (Uploaded authority height bytes pending)
          (putblob_apply sha256 caps authority height bytes pending)
  unfolding putblob_apply put_chunk
  putblob_apply-Uploaded caps authority height bytes pending =
      elim (Bool-cases (length bytes == 0)) [
        | inl empty ↦ rw (empty) tt
        | inr filled ↦ elim (Bool-cases (ltb chunk_size (length bytes))) [
          | inl long ↦ rw (filled, long) tt
          | inr size ↦
              let shape : (0 < length bytes) × (length bytes ≤ chunk_size) =
                (ground arith, ground arith) in
              elim (Bool-cases (is_held height bytes pending)) [
                | inl held ↦ rw (filled, size, held) (shape, inl (held, (refl, refl)))
                | inr fresh ↦
                    let swept = record pending { refs = sweep_expired height pending.refs } in
                    let quotas = check_quotas caps authority (length bytes) swept.refs in
                    rw (filled, size, fresh)
                      (on_ok (IsStaged authority height bytes)
                        (Uploaded authority height bytes pending)
                        (stage_chunk sha256 authority height bytes swept quotas)
                        (λ after h. (shape, inr (fresh, h)))
                        (stage_chunk-IsStaged authority height bytes swept quotas shape.1))
              ]
        ]
      ]

module _ (sha256 nfc : List ℕ → List ℕ) (base64 : List ℕ → Option (List ℕ)) where
  -- An accepted upload has from 1 to `CHUNK_SIZE` bytes, and the block is open after it. If the block's
  -- objects or the swept staging table had the chunk, the object index and that table are what is left;
  -- if neither had it, the staging table has it under its digest, with its length, owned by the caller and
  -- until 4096 blocks later or the largest `u64`, and the object index has it too.
  pub run_op-Uploaded :
      (store : Store) (authority : Authority) (height : ℕ) (bytes : List ℕ) (fs fs' : Fs)
      → run_op sha256 nfc base64 store authority height (putblob_op bytes) fs ≡ (fs', ok tt)
      → (pending : Pending) × (fs'.pending ≡ some pending)
        × Uploaded sha256 authority height bytes (require_pending height fs) pending
  unfolding run_op putblob
  run_op-Uploaded store authority height bytes fs fs' h =
      transact-ok (Uploaded sha256 authority height bytes)
        (bump-Uploaded sha256 authority height bytes) authority height _ fs fs' tt
        (putblob_apply-Uploaded sha256 fs.caps authority height bytes) h
