-- ===== src/Duckfs/Fs/Ops.antt =====
-- The operations of crates/duckfs/core/src/fs.rs as values: what the module's dispatch hands to the verbs.
-- A run of one forgets the output of the verb.
pub mod Refused
pub mod Ticks
pub mod Uploads
pub mod Steady
pub mod Accepted
pub mod Revision
use ducktape_sdk.Prelude.{ℕ, ◌^◌, ◌<◌, Option, none, some, List, [], ◌∷◌}
use ducktape_sdk.Parser.{Result, ok, err}
use ducktape_sdk.Duckfs.Errors.{FilesError}
use ducktape_sdk.Duckfs.Actor.{Authority}
use ducktape_sdk.Duckfs.Tree.Resolve.{Store}
use ducktape_sdk.Duckfs.Retention.{RetentionReference}
use ducktape_sdk.Duckfs.Fs.{Fs}
use ducktape_sdk.Duckfs.Fs.Commit.Change.{Change}
use ducktape_sdk.Duckfs.Fs.Verbs.{
  putblob, commit, project_snapshot, compare_exchange_retention, pin, unpin, watch, unwatch,
}

pub data Op : Type 0 where
  putblob_op : List ℕ → Op
  commit_op : ℕ → Option (List ℕ) → List ℕ → List Change → Op
  project_op : ℕ → List ℕ → List ℕ → Op
  retention_op : List ℕ → Option RetentionReference → Option RetentionReference → Op
  pin_op watch_op unwatch_op : List ℕ → List ℕ → Op
  unpin_op : List ℕ → Op

abbrev pub forget {ℓ} : {A : Type ℓ} → Fs × Result FilesError A → Fs × Result FilesError (Unit {0})
forget x = (x.0, elim x.1 [ ok a ↦ ok tt | err e ↦ err e ])

module _ (sha256 nfc : List ℕ → List ℕ) (base64 : List ℕ → Option (List ℕ)) where
  unfoldable pub run_op : Store → Authority → ℕ → Op → Fs → Fs × Result FilesError (Unit {0})
  run_op store authority height (putblob_op bytes) fs =
      putblob sha256 nfc base64 store authority height bytes fs
  run_op store authority height (commit_op time base message changes) fs =
      forget (commit sha256 nfc base64 store authority height time base message changes fs)
  run_op store authority height (project_op time snapshot path) fs =
      forget (project_snapshot sha256 nfc base64 store authority height time snapshot path fs)
  run_op store authority height (retention_op key expected replacement) fs =
      compare_exchange_retention sha256 nfc base64 store authority height key expected replacement
        fs
  run_op store authority height (pin_op snapshot name) fs =
      pin sha256 nfc base64 store authority height snapshot name fs
  run_op store authority height (unpin_op name) fs =
      unpin sha256 nfc base64 store authority height name fs
  run_op store authority height (watch_op prefix module_id) fs =
      watch sha256 nfc base64 store authority height prefix module_id fs
  run_op store authority height (unwatch_op prefix module_id) fs =
      unwatch sha256 nfc base64 store authority height prefix module_id fs
