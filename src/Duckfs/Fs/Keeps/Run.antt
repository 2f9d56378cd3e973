-- ===== src/Duckfs/Fs/Keeps/Run.antt =====
-- Runs of the state machine of crates/duckfs/core/src/fs.rs: every verb, with any store behind it, and
-- the block's boundary.
use ducktape_sdk.Prelude.{ℕ, ◌≡◌, Option, some, List}
use ducktape_sdk.Duckfs.Codec.Rules.{IsText}
use ducktape_sdk.Duckfs.Actor.{Authority}
use ducktape_sdk.Duckfs.BlockObjects.{Index}
use ducktape_sdk.Duckfs.Tree.Resolve.{Store}
use ducktape_sdk.Duckfs.Fs.{Pending, Fs, commit_block, adopt_refs, abort_block, seed_block_objects}
use ducktape_sdk.Duckfs.Fs.Verbs.{
  putblob, commit, project_snapshot, compare_exchange_retention, pin, unpin, watch, unwatch,
}
use ducktape_sdk.Duckfs.Fs.Ops.{
  Op, putblob_op, commit_op, project_op, retention_op, pin_op, unpin_op, watch_op, unwatch_op,
  run_op,
}
use ducktape_sdk.Duckfs.Fs.Keeps.{IsDigest, IsAuthority, actor-IsActor}
use ducktape_sdk.Duckfs.Fs.Keeps.Staging.{putblob_apply-Keeps}
use ducktape_sdk.Duckfs.Fs.Keeps.Tables.{
  pin_apply-Keeps, unpin_apply-Keeps, watch_apply-Keeps, unwatch_apply-Keeps,
}
use ducktape_sdk.Duckfs.Fs.Keeps.Detached.{
  commit_apply-Keeps, project_snapshot_apply-Keeps, compare_exchange_retention_apply-Keeps,
}
use ducktape_sdk.Duckfs.Fs.Keeps.Transact.{
  IsSound, transact-IsSound, abort-IsSound, seed-IsSound, adopt-IsSound,
}

-- The texts that an operation adds to the refs are texts.
abbrev pub IsOp : Op → Type 0
IsOp (pin_op snapshot name) = IsText name
IsOp (watch_op prefix module_id) = IsText prefix × IsText module_id
IsOp op = Unit

module _ (sha256 nfc : List ℕ → List ℕ) (base64 : List ℕ → Option (List ℕ)) where
  -- An operation, with its inputs within their types and any store behind it, or an event at the
  -- block's boundary; `adopt_step` is `commit_block` and then `adopt_refs` of what it handed out.
  pub data Step : Fs → Fs → Type 0 where
    op_step :
        (store : Store) (authority : Authority) (height : ℕ) (op : Op) (fs : Fs)
        → IsAuthority authority
        → IsOp op
        → Step fs (run_op sha256 nfc base64 store authority height op fs).0
    adopt_step :
        (fs : Fs) (pending : Pending)
        → fs.pending ≡ some pending
        → Step fs (adopt_refs pending.refs (commit_block fs).1)
    abort_step : (fs : Fs) → Step fs (abort_block fs)
    seed_step :
        (height : ℕ) (index : Index) (fs : Fs) → Step fs (seed_block_objects height index fs)

  -- The states that a run comes to from `start`.
  pub data Reachable (start : Fs) : Fs → Type 0 where
    here : Reachable start start
    next : {fs fs' : Fs} → Reachable start fs → Step fs fs' → Reachable start fs'

  module _ (digest_ok : IsDigest sha256) where
    op-IsSound :
        (store : Store) (authority : Authority) (height : ℕ) (op : Op) (fs : Fs)
        → IsAuthority authority
        → IsOp op
        → IsSound fs
        → IsSound (run_op sha256 nfc base64 store authority height op fs).0
    unfolding run_op putblob commit project_snapshot compare_exchange_retention pin unpin watch
        unwatch
    op-IsSound store authority height (putblob_op bytes) fs typed u h =
        transact-IsSound authority height _ fs
          (λ valid.
            putblob_apply-Keeps sha256 fs.caps authority digest_ok
              (actor-IsActor authority typed valid) h.staging_small height bytes)
          h
    op-IsSound store authority height (commit_op time base message changes) fs typed u h =
        transact-IsSound authority height _ fs
          (λ valid.
            commit_apply-Keeps sha256 nfc base64 digest_ok fs.caps store authority height time
              message h.window_small base changes)
          h
    op-IsSound store authority height (project_op time snapshot path) fs typed u h =
        transact-IsSound authority height _ fs
          (λ valid.
            project_snapshot_apply-Keeps sha256 nfc digest_ok fs.caps store authority height time
              snapshot path h.window_small)
          h
    op-IsSound store authority height (retention_op key expected replacement) fs typed u h =
        transact-IsSound authority height _ fs
          (λ valid.
            compare_exchange_retention_apply-Keeps sha256 nfc digest_ok fs.caps.window_cap store
              authority height key expected replacement)
          h
    op-IsSound store authority height (pin_op snapshot name) fs typed text h =
        transact-IsSound authority height _ fs
          (λ valid.
            pin_apply-Keeps sha256 fs.caps store authority (actor-IsActor authority typed valid)
              height snapshot name text)
          h
    op-IsSound store authority height (unpin_op name) fs typed u h =
        transact-IsSound authority height _ fs
          (λ valid. unpin_apply-Keeps fs.caps.window_cap height name) h
    op-IsSound store authority height (watch_op prefix module_id) fs typed (text, id_text) h =
        transact-IsSound authority height _ fs
          (λ valid. watch_apply-Keeps nfc authority fs.caps height prefix module_id text id_text) h
    op-IsSound store authority height (unwatch_op prefix module_id) fs typed u h =
        transact-IsSound authority height _ fs
          (λ valid. unwatch_apply-Keeps nfc authority fs.caps.window_cap height prefix module_id) h

    step-IsSound : {fs fs' : Fs} → Step fs fs' → IsSound fs → IsSound fs'
    step-IsSound (op_step store authority height op fs typed op_ok) h =
        op-IsSound store authority height op fs typed op_ok h
    step-IsSound (adopt_step fs pending e) h = adopt-IsSound fs pending e h
    step-IsSound (abort_step fs) h = abort-IsSound fs h
    step-IsSound (seed_step height index fs) h = seed-IsSound height index fs h

    pub reachable-IsSound : {start fs : Fs} → IsSound start → Reachable start fs → IsSound fs
    reachable-IsSound h here = h
    reachable-IsSound h (next run step) = step-IsSound step (reachable-IsSound h run)
