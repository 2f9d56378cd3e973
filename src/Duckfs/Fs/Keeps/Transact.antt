-- ===== src/Duckfs/Fs/Keeps/Transact.antt =====
-- `transact` and the block boundary of crates/duckfs/core/src/fs.rs keep the state sound.
use ducktape_sdk.Prelude.{
  ℕ, ◌+◌, ◌^◌, ◌≤◌, ◌<◌, ◌≡◌, refl, subst, Option, none, some, [], leb, arith, inl, inr, Bool-cases,
}
use ducktape_sdk.Parser.{Result, ok, err}
use ducktape_sdk.Duckfs.Limits.{history_window, max_staging_entries}
use ducktape_sdk.Duckfs.Errors.{FilesError}
use ducktape_sdk.Duckfs.Actor.{Authority, validate}
use ducktape_sdk.Duckfs.Refs.{Refs}
use ducktape_sdk.Duckfs.BlockObjects.{Index}
use ducktape_sdk.Duckfs.Fs.{
  Pending, Fs, Verb, require_pending, with_pending, commit_block, adopt_refs, abort_block,
  seed_block_objects,
}
use ducktape_sdk.Duckfs.Fs.Verbs.{refs_eq, bump, settle, apply_pending, transact}
use ducktape_sdk.Duckfs.Fs.Reserved.{IsBounded, revision-IsBounded}
use ducktape_sdk.Duckfs.Fs.Keeps.{Keeps}

abbrev pub HasRoom : ℕ → Option Pending → Type 0
HasRoom cap none = Unit
HasRoom cap (some pending) = IsBounded cap pending.refs

-- The committed refs and the block's refs are bounded, and the caps are within the decoder's.
pub record IsSound (fs : Fs) : Type 0 where
  pub committed : IsBounded fs.caps.window_cap fs.refs
  pub overlay : HasRoom fs.caps.window_cap fs.pending
  pub window_small : fs.caps.window_cap ≤ history_window
  pub staging_small : fs.caps.staging_entry_cap ≤ max_staging_entries

pending-HasRoom :
    (height : ℕ) (fs : Fs)
    → IsSound fs
    → IsBounded fs.caps.window_cap (require_pending height fs).refs
unfolding require_pending
pending-HasRoom height fs h = go fs.pending h.overlay
  where
    go :
        (o : Option Pending)
        → HasRoom fs.caps.window_cap o
        → IsBounded fs.caps.window_cap
            (elim o as (λ _. Pending) [
              | some pending ↦ pending
              | none ↦ record { refs = fs.refs; objects = []; object_ids = []; height = height }
            ]).refs
    go none u = h.committed
    go (some pending) bounded = bounded

bump-IsBounded :
    (cap : ℕ) (before : Refs) (pending : Pending)
    → before.source_revision + 1 < 2 ^ 64
    → IsBounded cap pending.refs
    → IsBounded cap (bump before pending).refs
unfolding bump
bump-IsBounded cap before pending fits h = elim (Bool-cases (refs_eq pending.refs before)) [
  | inl same ↦ rw (same) h
  | inr moved ↦ rw (moved) (revision-IsBounded cap pending.refs h (before.source_revision + 1) fits)
]

module _ {A : Type 0} (cap : ℕ) (operation : Verb A) (keeps : Keeps cap operation) where
  settle-IsBounded :
      (before : Refs) (x : Pending × Result FilesError A)
      → before.source_revision + 1 < 2 ^ 64
      → IsBounded cap before
      → IsBounded cap x.0.refs
      → IsBounded cap (settle before x).0.refs
  unfolding settle
  settle-IsBounded before (pending, ok output) fits b h = bump-IsBounded cap before pending fits h
  settle-IsBounded before (pending, err e) fits b h = b

  apply_pending-Keeps : Keeps cap (apply_pending operation)
  unfolding apply_pending
  apply_pending-Keeps pending h =
      elim (Bool-cases (leb (2 ^ 64) (pending.refs.source_revision + 1))) [
        | inl spent ↦ rw (spent) h
        | inr fits ↦
            rw (fits)
              (settle-IsBounded pending.refs (operation pending) (ground arith) h (keeps pending h))
      ]

pub transact-IsSound :
    {A : Type 0} (authority : Authority) (height : ℕ) (operation : Verb A) (fs : Fs)
    → (validate authority ≡ ok tt → Keeps fs.caps.window_cap operation)
    → IsSound fs
    → IsSound (transact authority height operation fs).0
unfolding transact
transact-IsSound {A} authority height operation fs keeps h = go (validate authority) keeps
  where
    go :
        (r : Result FilesError (Unit {0}))
        → (r ≡ ok tt → Keeps fs.caps.window_cap operation)
        → IsSound
            (elim r as (λ _. Fs × Result FilesError A) [
              | err e ↦ (fs, err e)
              | ok u ↦
                  let (pending, r) = apply_pending operation (require_pending height fs) in
                  (with_pending fs pending, r)
            ]).0
    go (err e) k = h
    go (ok u) k = record {
      committed = h.committed;
      overlay =
          apply_pending-Keeps fs.caps.window_cap operation (k refl) (require_pending height fs)
            (pending-HasRoom height fs h);
      window_small = h.window_small;
      staging_small = h.staging_small;
    }

pub abort-IsSound : (fs : Fs) → IsSound fs → IsSound (abort_block fs)
unfolding abort_block
abort-IsSound fs h = record {
  committed = h.committed;
  overlay = tt;
  window_small = h.window_small;
  staging_small = h.staging_small;
}

pub seed-IsSound :
    (height : ℕ) (index : Index) (fs : Fs)
    → IsSound fs
    → IsSound (seed_block_objects height index fs)
unfolding seed_block_objects
seed-IsSound height index fs h = record {
  committed = h.committed;
  overlay = pending-HasRoom height fs h;
  window_small = h.window_small;
  staging_small = h.staging_small;
}

pub adopt-IsSound :
    (fs : Fs) (pending : Pending)
    → fs.pending ≡ some pending
    → IsSound fs
    → IsSound (adopt_refs pending.refs (commit_block fs).1)
unfolding adopt_refs commit_block
adopt-IsSound fs pending e h = rw (e) record {
  committed = subst (HasRoom fs.caps.window_cap) e h.overlay;
  overlay = tt;
  window_small = h.window_small;
  staging_small = h.staging_small;
}
