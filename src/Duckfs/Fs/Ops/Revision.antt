-- ===== src/Duckfs/Fs/Ops/Revision.antt =====
-- The revision of the refs under `transact` of crates/duckfs/core/src/fs.rs.
use ducktape_sdk.Prelude.{
  ◌∙◌, false, ℕ, ◌+◌, ◌^◌, ◌≡◌, ◌⊎◌, inl, inr, refl, ap, subst, true, Option, none, some, List, [],
  leb, Bool-cases,
}
use ducktape_sdk.Parser.{Result, ok, err}
use ducktape_sdk.Duckfs.Errors.{FilesError}
use ducktape_sdk.Duckfs.Actor.{Authority, validate}
use ducktape_sdk.Duckfs.Refs.{Refs}
use ducktape_sdk.Duckfs.Fs.{Pending, Fs, Verb, require_pending, with_pending, pending_refs}
use ducktape_sdk.Duckfs.Fs.Verbs.Equality.{refs_eq→eq, refs_eq_self}
use ducktape_sdk.Duckfs.Fs.Verbs.{
  refs_eq, bump, settle, apply_pending, transact, putblob, commit, project_snapshot,
  compare_exchange_retention, pin, unpin, watch, unwatch,
}
use ducktape_sdk.Duckfs.Tree.Resolve.{Store}
use ducktape_sdk.Duckfs.Fs.{sweep_expired}
use ducktape_sdk.Duckfs.Fs.Tables.{pin_apply, unpin_apply, watch_apply, unwatch_apply}
use ducktape_sdk.Duckfs.Fs.Detached.{project_snapshot_apply, compare_exchange_retention_apply}
use ducktape_sdk.Duckfs.Fs.Commit.Engine.{commit_apply, commit_built}
use ducktape_sdk.Duckfs.Fs.Ops.Ticks.{
  pin-LeavesStaging, unpin-LeavesStaging, watch-LeavesStaging, unwatch-LeavesStaging,
}
use ducktape_sdk.Duckfs.Fs.Ops.Steady.{
  LeavesRevision, IsSteady, refs_verb-IsSteady, putblob_apply-IsSteady,
  land_candidate-LeavesRevision, land_retention-LeavesRevision, run_commit-revision,
  land_commit-LeavesRevision,
}
use ducktape_sdk.Duckfs.Fs.Ops.{
  Op, putblob_op, commit_op, project_op, retention_op, pin_op, unpin_op, watch_op, unwatch_op,
  run_op,
}

-- A step of the refs: none, or one revision further with something else moved too.
abbrev pub Advances : Refs → Refs → Type 0
Advances before after =
    (after ≡ before)
    ⊎ ((after.source_revision ≡ before.source_revision + 1)
        × ¬ (◌≡◌ {A = Refs} (record after { source_revision = before.source_revision }) before))

bump-Advances :
    (before : Refs) (pending : Pending)
    → pending.refs.source_revision ≡ before.source_revision
    → Advances before (bump before pending).refs
unfolding bump
bump-Advances before pending steady = elim (Bool-cases (refs_eq pending.refs before)) [
  | inl same ↦ rw (same) (inl (refs_eq→eq pending.refs before same))
  | inr moved ↦ rw (moved) (inr (refl, differs moved))
]
  where
    differs :
        refs_eq pending.refs before ≡ false
        → ¬ (
            ◌≡◌ {A = Refs}
              (record pending.refs { source_revision = before.source_revision })
              before)
    differs moved e =
        let put_back = ap (λ (n : ℕ). record pending.refs { source_revision = n }) steady in
        let equal : pending.refs ≡ before = put_back ∙ e in
        let test : refs_eq pending.refs before ≡ true =
          ap (λ (r : Refs). refs_eq r before) equal ∙ refs_eq_self before in
        absurd (cc)

apply_pending-Advances :
    {A : Type 0} (operation : Verb A) (pending : Pending)
    → IsSteady operation
    → Advances pending.refs (apply_pending operation pending).0.refs
unfolding apply_pending settle
apply_pending-Advances {A} operation pending steady =
    elim (Bool-cases (leb (2 ^ 64) (pending.refs.source_revision + 1))) [
      | inl spent ↦ rw (spent) (inl refl)
      | inr fits ↦ rw (fits) (settled (operation pending) (steady pending))
    ]
  where
    settled :
        (x : Pending × Result FilesError A)
        → LeavesRevision pending.refs.source_revision x
        → Advances pending.refs (settle pending.refs x).0.refs
    settled (next, ok a) h = bump-Advances pending.refs next h
    settled (next, err e) h = inl refl

-- What a transaction leaves: the committed refs as they were, and the block's refs at most one revision
-- further, with something else moved then.
abbrev pub Moved {ℓ} : {A : Type ℓ} → Fs → Fs × Result FilesError A → Type 0
Moved fs (fs', r) = (fs'.refs ≡ fs.refs) × Advances (pending_refs fs) (pending_refs fs')

opened-refs : (height : ℕ) (fs : Fs) → (require_pending height fs).refs ≡ pending_refs fs
unfolding require_pending pending_refs
opened-refs height fs = go fs.pending
  where
    go :
        (o : Option Pending)
        → (elim o as (λ _. Pending) [
          | some pending ↦ pending
          | none ↦ record { refs = fs.refs; objects = []; object_ids = []; height = height }
        ]).refs
          ≡ elim o as (λ _. Refs) [ none ↦ fs.refs | some pending ↦ pending.refs ]
    go none = refl
    go (some pending) = refl

transact-Moved :
    {A : Type 0} (authority : Authority) (height : ℕ) (operation : Verb A) (fs : Fs)
    → IsSteady operation
    → Moved fs (transact authority height operation fs)
unfolding transact pending_refs
transact-Moved {A} authority height operation fs steady = go (validate authority)
  where
    go :
        (r : Result FilesError (Unit {0}))
        → Moved fs (elim r as (λ _. Fs × Result FilesError A) [
          | err e ↦ (fs, err e)
          | ok u ↦
              let (pending, r) = apply_pending operation (require_pending height fs) in
              (with_pending fs pending, r)
        ])
    go (err e) = (refl, inl refl)
    go (ok u) = (
      refl,
      subst (λ before. Advances before (apply_pending operation (require_pending height fs)).0.refs)
          (opened-refs height fs)
          (apply_pending-Advances operation (require_pending height fs) steady),
    )

module _ (sha256 nfc : List ℕ → List ℕ) (base64 : List ℕ → Option (List ℕ)) where
  -- No operation moves the committed refs, and it leaves the block's refs as they were or advances their
  -- revision by one; it advances it only when something in the refs besides the revision moved.
  pub run_op-revision :
      (store : Store) (authority : Authority) (height : ℕ) (op : Op) (fs : Fs)
      → ((run_op sha256 nfc base64 store authority height op fs).0.refs ≡ fs.refs)
        × Advances
            (pending_refs fs)
            (pending_refs (run_op sha256 nfc base64 store authority height op fs).0)
  unfolding run_op putblob commit project_snapshot compare_exchange_retention pin unpin watch
      unwatch commit_apply commit_built project_snapshot_apply compare_exchange_retention_apply
      pin_apply unpin_apply watch_apply unwatch_apply sweep_expired
  run_op-revision store authority height (putblob_op bytes) fs =
      transact-Moved authority height _ fs
        (putblob_apply-IsSteady sha256 nfc base64 fs.caps authority height bytes)
  run_op-revision store authority height (commit_op time base message changes) fs =
      transact-Moved authority height _ fs (λ pending.
        land_commit-LeavesRevision sha256 nfc base64 pending.refs.source_revision pending _ (λ b e.
          run_commit-revision sha256 nfc base64 store pending.object_ids authority height time
            message fs.caps.window_cap base changes (sweep_expired height pending.refs) b e))
  run_op-revision store authority height (project_op time snapshot path) fs =
      transact-Moved authority height _ fs (λ pending.
        land_candidate-LeavesRevision sha256 nfc base64 fs.caps.window_cap height pending _)
  run_op-revision store authority height (retention_op label expected replacement) fs =
      transact-Moved authority height _ fs
        (λ pending. land_retention-LeavesRevision sha256 nfc base64 height pending _)
  run_op-revision store authority height (pin_op snapshot name) fs =
      transact-Moved authority height _ fs (
        refs_verb-IsSteady height _
          (pin-LeavesStaging sha256 nfc base64 fs.caps store authority snapshot name))
  run_op-revision store authority height (unpin_op name) fs =
      transact-Moved authority height _ fs
        (refs_verb-IsSteady height _ (unpin-LeavesStaging sha256 nfc base64 name))
  run_op-revision store authority height (watch_op prefix module_id) fs =
      transact-Moved authority height _ fs (
        refs_verb-IsSteady height _
          (watch-LeavesStaging sha256 nfc base64 fs.caps authority prefix module_id))
  run_op-revision store authority height (unwatch_op prefix module_id) fs =
      transact-Moved authority height _ fs (
        refs_verb-IsSteady height _
          (unwatch-LeavesStaging sha256 nfc base64 authority prefix module_id))
