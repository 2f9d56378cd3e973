-- ===== src/Duckfs/Fs/Ops/Ticks.antt =====
-- The staging table after each verb of crates/duckfs/core/src/fs.rs: a verb that succeeds has swept it.
use ducktape_sdk.Prelude.{
  ℕ, ◌^◌, ◌≡◌, inl, inr, refl, sym, ap, subst, ◌||◌, Option, List, [], ◌∷◌, length, ltb, ◌==◌,
  Bool-cases,
}
use ducktape_sdk.Bytes.Order.{bytes_order}
use ducktape_sdk.BTree.{contains_key}
use ducktape_sdk.Parser.{Result, ok, err}
use ducktape_sdk.Duckfs.Limits.{chunk_size}
use ducktape_sdk.Duckfs.Errors.{FilesError}
use ducktape_sdk.Duckfs.Results.{err-ok}
use ducktape_sdk.Duckfs.Kind
use ducktape_sdk.Duckfs.Actor.{Authority}
use ducktape_sdk.Duckfs.Objects.{ObjectId}
use ducktape_sdk.Duckfs.Refs.{Refs}
use ducktape_sdk.Duckfs.Store.{object_id}
use ducktape_sdk.Duckfs.Tree.Resolve.{Store}
use ducktape_sdk.Duckfs.Retention.Exchange.{Built}
use ducktape_sdk.Duckfs.Fs.{Caps, StagedObjects, Pending, Verb, sweep_expired}
use ducktape_sdk.Duckfs.Fs.Staging.{stage_chunk, put_chunk, putblob_apply}
use ducktape_sdk.Duckfs.Fs.Tables.{land, refs_verb, plan_pin, plan_unpin, plan_watch, plan_unwatch}
use ducktape_sdk.Duckfs.Fs.Detached.{land_candidate, land_retention}
use ducktape_sdk.Duckfs.Fs.Commit.Engine.{CommitBuilt, land_commit}
use ducktape_sdk.Prelude.{All, ◌<◌, ◌-◌, arith}
use ducktape_sdk.BTree.{BTreeMap, remove}
use ducktape_sdk.Duckfs.Refs.{Staged}
use ducktape_sdk.Duckfs.Results.{bind-ok, ok-eq}
use ducktape_sdk.Duckfs.BlockObjects.{Index}
use ducktape_sdk.Duckfs.Fs.{retain, push_object}
use ducktape_sdk.Duckfs.Fs.Staging.{staged_by}
use ducktape_sdk.Duckfs.Fs.Commit.Change.{Change}
use ducktape_sdk.Duckfs.Fs.Commit.Engine.{reclaim, finish, run_commit}
use ducktape_sdk.Duckfs.Fs.Reserved.Maps.{All-insert, All-remove}
use ducktape_sdk.Duckfs.Fs.Keeps.Detached.{push_objects-refs}

-- No entry of the staging table has expired.
abbrev pub IsLive : ℕ → BTreeMap ObjectId Staged → Type 0
IsLive height = All (λ e. height < e.1.expires_at)

pub sweep-IsLive : (height : ℕ) (refs : Refs) → IsLive height (sweep_expired height refs).staging
unfolding sweep_expired retain
sweep-IsLive height refs = go refs.staging
  where
    go :
        (m : BTreeMap ObjectId Staged)
        → IsLive height (retain (λ (s : Staged). ltb height s.expires_at) m)
    go [] = tt
    go ((digest, s) ∷ m) = elim (Bool-cases (ltb height s.expires_at)) [
      | inl later ↦ rw (later) (ground arith, go m)
      | inr over ↦ rw (over) (go m)
    ]

reclaim-IsLive :
    (height : ℕ) (ids : List ObjectId) (m : BTreeMap ObjectId Staged)
    → IsLive height m
    → IsLive height (reclaim ids m)
unfolding reclaim
reclaim-IsLive height [] m h = h
reclaim-IsLive height (id ∷ ids) m h =
    reclaim-IsLive height ids (remove id m) (All-remove (λ e. height < e.1.expires_at) id m h)

abbrev pub LeavesLive : {A : Type 0} → ℕ → Pending × Result FilesError A → Type 0
LeavesLive height (pending, ok a) = IsLive height pending.refs.staging
LeavesLive height (pending, err e) = Unit

abbrev pub Ticks : {A : Type 0} → ℕ → Verb A → Type 0
Ticks height operation = (pending : Pending) → LeavesLive height (operation pending)

abbrev SameStaging : Refs → Refs → Type 0
SameStaging refs after =
    (refs.staging ≡ after.staging) × (refs.source_revision ≡ after.source_revision)

-- A plan that touches neither the staging table nor the revision.
abbrev pub LeavesStaging : (Refs → Result FilesError Refs) → Type 0
LeavesStaging plan = (refs after : Refs) → plan refs ≡ ok after → SameStaging refs after

same_staging : (next after : Refs) → next ≡ after → SameStaging next after
same_staging next after e = (ap (λ (r : Refs). r.staging) e, ap (λ (r : Refs). r.source_revision) e)

pub refs_verb-Ticks :
    (height : ℕ) (plan : Refs → Result FilesError Refs)
    → LeavesStaging plan
    → Ticks height (refs_verb height plan)
unfolding refs_verb
refs_verb-Ticks height plan leaves pending = go (plan swept) refl
  where
    swept : Refs
    swept = sweep_expired height pending.refs

    go :
        (r : Result FilesError Refs)
        → plan swept ≡ r
        → LeavesLive height (land (record pending { refs = swept }) r)
    go (err e) p = tt
    go (ok refs) p =
        subst (IsLive height) (leaves swept refs p).0 (sweep-IsLive height pending.refs)

module _ (sha256 nfc : List ℕ → List ℕ) (base64 : List ℕ → Option (List ℕ)) where
  pub pin-LeavesStaging :
      (caps : Caps) (store : Store) (authority : Authority) (snapshot name : List ℕ)
      → LeavesStaging (plan_pin sha256 caps store authority snapshot name)
  unfolding plan_pin
  pin-LeavesStaging caps store authority snapshot name refs after p =
      let (_, _, p) = bind-ok _ _ _ p in
      let (_, _, p) = bind-ok _ _ _ p in
      let (_, _, p) = bind-ok _ _ _ p in
      let (_, _, p) = bind-ok _ _ _ p in
      let (_, _, p) = bind-ok _ _ _ p in
      let (_, _, p) = bind-ok _ _ _ p in
      let (_, _, p) = bind-ok _ _ _ p in
      let (_, _, p) = bind-ok _ _ _ p in
      let (_, _, p) = bind-ok _ _ _ p in same_staging _ _ (ok-eq _ _ p)

  pub unpin-LeavesStaging : (name : List ℕ) → LeavesStaging (plan_unpin name)
  unfolding plan_unpin
  unpin-LeavesStaging name refs after p = elim (Bool-cases (contains_key name refs.pins)) [
    | inl there ↦ same_staging _ _ (ok-eq _ _ (rw there at p))
    | inr absent ↦ absurd (err-ok _ _ (rw absent at p))
  ]

  pub watch-LeavesStaging :
      (caps : Caps) (authority : Authority) (prefix module_id : List ℕ)
      → LeavesStaging (plan_watch nfc caps authority prefix module_id)
  unfolding plan_watch
  watch-LeavesStaging caps authority prefix module_id refs after p =
      let (_, _, p) = bind-ok _ _ _ p in
      let (_, _, p) = bind-ok _ _ _ p in
      let (_, _, p) = bind-ok _ _ _ p in
      let (_, _, p) = bind-ok _ _ _ p in
      let (_, _, p) = bind-ok _ _ _ p in
      let (_, _, p) = bind-ok _ _ _ p in
      let (_, _, p) = bind-ok _ _ _ p in same_staging _ _ (ok-eq _ _ p)

  pub unwatch-LeavesStaging :
      (authority : Authority) (prefix module_id : List ℕ)
      → LeavesStaging (plan_unwatch nfc authority prefix module_id)
  unfolding plan_unwatch
  unwatch-LeavesStaging authority prefix module_id refs after p =
      let (_, _, p) = bind-ok _ _ _ p in
      let (_, _, p) = bind-ok _ _ _ p in
      let (_, _, p) = bind-ok _ _ _ p in same_staging _ _ (ok-eq _ _ p)

  stage_chunk-LeavesLive :
      (authority : Authority) (height : ℕ) (bytes : List ℕ) (pending : Pending)
      (r : Result FilesError (Unit {0}))
      → height < 2 ^ 64 - 1
      → IsLive height pending.refs.staging
      → LeavesLive height (stage_chunk sha256 authority height bytes pending r)
  unfolding stage_chunk push_object
  stage_chunk-LeavesLive authority height bytes pending (err e) fits h = tt
  stage_chunk-LeavesLive authority height bytes pending (ok u) fits h =
      All-insert (λ e. height < e.1.expires_at) (object_id sha256 Kind.chunk bytes)
        (staged_by authority height (length bytes)) pending.refs.staging (ground arith) h

  pub putblob_apply-Ticks :
      (caps : Caps) (authority : Authority) (height : ℕ) (bytes : List ℕ)
      → height < 2 ^ 64 - 1
      → Ticks height (putblob_apply sha256 caps authority height bytes)
  unfolding putblob_apply put_chunk
  putblob_apply-Ticks caps authority height bytes fits pending =
      elim (Bool-cases (length bytes == 0)) [
        | inl empty ↦ rw (empty) tt
        | inr filled ↦ elim (Bool-cases (ltb chunk_size (length bytes))) [
          | inl long ↦ rw (filled, long) tt
          | inr size ↦
              elim (Bool-cases (
                contains_key (object_id sha256 Kind.chunk bytes) pending.object_ids
                || contains_key (object_id sha256 Kind.chunk bytes)
                    (sweep_expired height pending.refs).staging)) [
                      | inl known ↦ rw (filled, size, known) (sweep-IsLive height pending.refs)
                      | inr fresh ↦
                          rw (filled, size, fresh)
                            (stage_chunk-LeavesLive authority height bytes
                              (record pending { refs = sweep_expired height pending.refs }) _ fits
                              (sweep-IsLive height pending.refs))
                    ]
        ]
      ]

  pub land_candidate-LeavesLive :
      (cap height : ℕ) (pending : Pending) (r : Result FilesError (ObjectId × StagedObjects))
      → LeavesLive height (land_candidate sha256 nfc cap height pending r)
  unfolding land_candidate
  land_candidate-LeavesLive cap height pending (err e) = tt
  land_candidate-LeavesLive cap height pending (ok (id, objects)) =
      subst (λ r. IsLive height r.staging) (sym (push_objects-refs sha256 objects _))
        (sweep-IsLive height pending.refs)

  pub land_retention-LeavesLive :
      (height : ℕ) (pending : Pending) (r : Result FilesError Built)
      → LeavesLive height (land_retention sha256 nfc height pending r)
  unfolding land_retention
  land_retention-LeavesLive height pending (err e) = tt
  land_retention-LeavesLive height pending (ok b) =
      subst (λ r. IsLive height r.staging) (sym (push_objects-refs sha256 b.objects _))
        (sweep-IsLive height pending.refs)

  pub run_commit-IsLive :
      (store : Store) (pending_ids : Index) (authority : Authority) (height time : ℕ)
      (message : List ℕ) (cap : ℕ) (base : Option (List ℕ)) (changes : List Change) (refs : Refs)
      (b : CommitBuilt)
      → IsLive height refs.staging
      → run_commit sha256 nfc base64 store pending_ids authority height time message cap base
          changes refs
        ≡ ok b
      → IsLive height b.refs.staging
  unfolding run_commit finish
  run_commit-IsLive store pending_ids authority height time message cap base changes refs b h e =
      let (_, _, e) = bind-ok _ _ _ e in
      let (_, _, e) = bind-ok _ _ _ e in
      let (_, _, e) = bind-ok _ _ _ e in
      let (planned, _, e) = bind-ok _ _ _ e in
      let (_, _, e) = bind-ok _ _ _ e in
      let (_, _, e) = bind-ok _ _ _ e in
      let (_, _, e) = bind-ok _ _ _ e in
      subst (λ z. IsLive height z.refs.staging) (ok-eq _ _ e)
        (reclaim-IsLive height planned.1.chunk_refs refs.staging h)

  pub land_commit-LeavesLive :
      (height : ℕ) (pending : Pending) (r : Result FilesError CommitBuilt)
      → ((b : CommitBuilt) → r ≡ ok b → IsLive height b.refs.staging)
      → LeavesLive height (land_commit sha256 nfc base64 pending r)
  unfolding land_commit
  land_commit-LeavesLive height pending (err e) h = tt
  land_commit-LeavesLive height pending (ok b) h =
      subst (λ r. IsLive height r.staging) (sym (push_objects-refs sha256 b.objects _)) (h b refl)
