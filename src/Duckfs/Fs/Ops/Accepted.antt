-- ===== src/Duckfs/Fs/Ops/Accepted.antt =====
-- Accepted operations of crates/duckfs/core/src/fs.rs: each ticks the expiry of the staging table.
use ducktape_sdk.Prelude.{ℕ, ◌+◌, ◌^◌, ◌≡◌, inl, inr, subst, Option, List, leb, Bool-cases}
use ducktape_sdk.Bytes.Order.{bytes_order}
use ducktape_sdk.Parser.{Result, ok, err}
use ducktape_sdk.Duckfs.Errors.{FilesError}
use ducktape_sdk.Duckfs.Actor.{Authority, validate}
use ducktape_sdk.Duckfs.Refs.{Refs}
use ducktape_sdk.Duckfs.Tree.Resolve.{Store}
use ducktape_sdk.Duckfs.Fs.{Pending, Fs, Verb, require_pending, with_pending, sweep_expired}
use ducktape_sdk.Duckfs.Fs.Tables.{pin_apply, unpin_apply, watch_apply, unwatch_apply}
use ducktape_sdk.Duckfs.Fs.Detached.{project_snapshot_apply, compare_exchange_retention_apply}
use ducktape_sdk.Duckfs.Fs.Commit.Engine.{commit_apply}
use ducktape_sdk.Duckfs.Fs.Verbs.{
  settle, apply_pending, transact, putblob, commit, project_snapshot, compare_exchange_retention,
  pin, unpin, watch, unwatch,
}
use ducktape_sdk.Duckfs.Fs.Ops.{
  Op, putblob_op, commit_op, project_op, retention_op, pin_op, unpin_op, watch_op, unwatch_op,
  forget, run_op,
}
use ducktape_sdk.Prelude.{All, ◌<◌, ◌-◌}
use ducktape_sdk.Duckfs.Fs.{pending_refs}
use ducktape_sdk.Duckfs.Fs.Commit.Engine.{commit_built}
use ducktape_sdk.Duckfs.Fs.Verbs.{bump, refs_eq}
use ducktape_sdk.Duckfs.Fs.Ops.Ticks.{
  IsLive, LeavesLive, Ticks, sweep-IsLive, refs_verb-Ticks, pin-LeavesStaging, unpin-LeavesStaging,
  watch-LeavesStaging, unwatch-LeavesStaging, putblob_apply-Ticks, land_candidate-LeavesLive,
  land_retention-LeavesLive, run_commit-IsLive, land_commit-LeavesLive,
}

bump-IsLive :
    (height : ℕ) (before : Refs) (pending : Pending)
    → IsLive height pending.refs.staging
    → IsLive height (bump before pending).refs.staging
unfolding bump
bump-IsLive height before pending h = elim (Bool-cases (refs_eq pending.refs before)) [
  | inl same ↦ rw (same) h
  | inr moved ↦ rw (moved) h
]

settle-LeavesLive :
    {A : Type 0} (height : ℕ) (before : Refs) (x : Pending × Result FilesError A)
    → LeavesLive height x
    → LeavesLive height (settle before x)
unfolding settle
settle-LeavesLive height before (pending, ok a) h = bump-IsLive height before pending h
settle-LeavesLive height before (pending, err e) h = tt

apply_pending-Ticks :
    {A : Type 0} (height : ℕ) (operation : Verb A)
    → Ticks height operation
    → Ticks height (apply_pending operation)
unfolding apply_pending
apply_pending-Ticks height operation ticks pending =
    elim (Bool-cases (leb (2 ^ 64) (pending.refs.source_revision + 1))) [
      | inl spent ↦ rw (spent) tt
      | inr fits ↦
          rw (fits) (settle-LeavesLive height pending.refs (operation pending) (ticks pending))
    ]

-- What an accepted operation leaves of the block's staging table.
abbrev pub Swept : ℕ → Fs × Result FilesError (Unit {0}) → Type 0
Swept height (fs, ok u) = IsLive height (pending_refs fs).staging
Swept height (fs, err e) = Unit

from_pending :
    {A : Type 0} (height : ℕ) (fs : Fs) (x : Pending × Result FilesError A)
    → LeavesLive height x
    → Swept height (forget (with_pending fs x.0, x.1))
unfolding pending_refs
from_pending height fs (pending, ok a) h = h
from_pending height fs (pending, err e) h = tt

transact-Swept :
    {A : Type 0} (authority : Authority) (height : ℕ) (operation : Verb A) (fs : Fs)
    → Ticks height operation
    → Swept height (forget (transact authority height operation fs))
unfolding transact
transact-Swept {A} authority height operation fs ticks = go (validate authority)
  where
    go :
        (r : Result FilesError (Unit {0}))
        → Swept height (
            forget (elim r as (λ _. Fs × Result FilesError A) [
              | err e ↦ (fs, err e)
              | ok u ↦
                  let (pending, r) = apply_pending operation (require_pending height fs) in
                  (with_pending fs pending, r)
            ]))
    go (err e) = tt
    go (ok u) =
        from_pending height fs (apply_pending operation (require_pending height fs))
          (apply_pending-Ticks height operation ticks (require_pending height fs))

of_forget :
    (height : ℕ) (x : Fs × Result FilesError (Unit {0})) → Swept height (forget x) → Swept height x
of_forget height (fs, ok u) h = h
of_forget height (fs, err e) h = tt

module _ (sha256 nfc : List ℕ → List ℕ) (base64 : List ℕ → Option (List ℕ)) where
  op-Swept :
      (store : Store) (authority : Authority) (height : ℕ) (op : Op) (fs : Fs)
      → height < 2 ^ 64 - 1
      → Swept height (run_op sha256 nfc base64 store authority height op fs)
  unfolding run_op putblob commit project_snapshot compare_exchange_retention pin unpin watch
      unwatch commit_apply commit_built project_snapshot_apply compare_exchange_retention_apply
      pin_apply unpin_apply watch_apply unwatch_apply
  op-Swept store authority height (putblob_op bytes) fs fits = of_forget height _ (
      transact-Swept authority height _ fs
        (putblob_apply-Ticks sha256 nfc base64 fs.caps authority height bytes fits))
  op-Swept store authority height (commit_op time base message changes) fs fits =
      transact-Swept authority height _ fs (λ pending.
        land_commit-LeavesLive sha256 nfc base64 height pending _ (λ b e.
          run_commit-IsLive sha256 nfc base64 store pending.object_ids authority height time message
            fs.caps.window_cap base changes (sweep_expired height pending.refs) b
            (sweep-IsLive height pending.refs) e))
  op-Swept store authority height (project_op time snapshot path) fs fits =
      transact-Swept authority height _ fs
        (λ pending. land_candidate-LeavesLive sha256 nfc base64 fs.caps.window_cap height pending _)
  op-Swept store authority height (retention_op key expected replacement) fs fits =
      of_forget height _ (
        transact-Swept authority height _ fs
          (λ pending. land_retention-LeavesLive sha256 nfc base64 height pending _))
  op-Swept store authority height (pin_op snapshot name) fs fits = of_forget height _ (
      transact-Swept authority height _ fs (
        refs_verb-Ticks height _
          (pin-LeavesStaging sha256 nfc base64 fs.caps store authority snapshot name)))
  op-Swept store authority height (unpin_op name) fs fits = of_forget height _ (
      transact-Swept authority height _ fs
        (refs_verb-Ticks height _ (unpin-LeavesStaging sha256 nfc base64 name)))
  op-Swept store authority height (watch_op prefix module_id) fs fits = of_forget height _ (
      transact-Swept authority height _ fs (
        refs_verb-Ticks height _
          (watch-LeavesStaging sha256 nfc base64 fs.caps authority prefix module_id)))
  op-Swept store authority height (unwatch_op prefix module_id) fs fits = of_forget height _ (
      transact-Swept authority height _ fs (
        refs_verb-Ticks height _
          (unwatch-LeavesStaging sha256 nfc base64 authority prefix module_id)))

  -- After an accepted operation, whichever it is, the block's staging table holds no entry that has
  -- expired at the operation's height, for every height below the largest `u64`.
  pub run_op-sweeps :
      (store : Store) (authority : Authority) (height : ℕ) (op : Op) (fs fs' : Fs)
      → height < 2 ^ 64 - 1
      → run_op sha256 nfc base64 store authority height op fs ≡ (fs', ok tt)
      → All (λ e. height < e.1.expires_at) (pending_refs fs').staging
  run_op-sweeps store authority height op fs fs' fits h =
      subst (Swept height) h (op-Swept store authority height op fs fits)
