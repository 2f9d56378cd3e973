-- ===== src/Duckfs/Fs/Verbs.antt =====
-- `transact` of crates/duckfs/core/src/fs.rs, and the public verbs, each of which is one transaction.
pub mod Equality
use ducktape_sdk.Prelude.{
  ℕ, ◌+◌, ◌^◌, Bool, true, false, ◌&&◌, Option, List, [], ◌∷◌, ◌==◌, leb, if◌then◌else◌,
}
use ducktape_sdk.Bytes.Order.{bytes_eq}
use ducktape_sdk.Parser.{Result, ok, err}
use ducktape_sdk.Duckfs.Errors.{FilesError, revision_exhausted}
use ducktape_sdk.Duckfs.Actor.{Authority, actor_eq, validate}
use ducktape_sdk.Duckfs.Objects.{ObjectId}
use ducktape_sdk.Duckfs.Refs.{PinEntry, Staged, Refs, Watch}
use ducktape_sdk.Duckfs.Tree.Resolve.{Store}
use ducktape_sdk.Duckfs.Retention.{RetentionReference}
use ducktape_sdk.Duckfs.Retention.Exchange.{id_eq}
use ducktape_sdk.Duckfs.Fs.{Pending, Fs, Verb, require_pending, with_pending}
use ducktape_sdk.Duckfs.Fs.Staging.{putblob_apply}
use ducktape_sdk.Duckfs.Fs.Tables.{pin_apply, unpin_apply, watch_apply, unwatch_apply}
use ducktape_sdk.Duckfs.Fs.Detached.{project_snapshot_apply, compare_exchange_retention_apply}
use ducktape_sdk.Duckfs.Fs.Commit.Change.{Change}
use ducktape_sdk.Duckfs.Fs.Commit.Engine.{Notification, commit_apply}

-- `==` on sequences and on maps, from that of the items.
unfoldable pub list_eq {ℓ} : {A : Type ℓ} → (A → A → Bool) → List A → List A → Bool
list_eq eq [] [] = true
list_eq eq (x ∷ xs) (y ∷ ys) = eq x y && list_eq eq xs ys
list_eq eq xs ys = false

abbrev pub pin_eq : List ℕ × PinEntry → List ℕ × PinEntry → Bool
pin_eq (name, p) (other, q) =
    bytes_eq name other && (bytes_eq p.snapshot q.snapshot && actor_eq p.owner q.owner)

abbrev pub staged_eq : ObjectId × Staged → ObjectId × Staged → Bool
staged_eq (digest, s) (other, t) =
    bytes_eq digest other
    && (actor_eq s.owner t.owner && ((s.len == t.len) && (s.expires_at == t.expires_at)))

abbrev pub watch_eq : Watch × Unit {0} → Watch × Unit {0} → Bool
watch_eq ((p, m), u) ((q, n), v) = bytes_eq p q && bytes_eq m n

-- The derived `==` on refs.
unfoldable pub refs_eq : Refs → Refs → Bool
refs_eq r s =
    (r.source_revision == s.source_revision)
    && (id_eq r.head s.head
        && (list_eq bytes_eq r.window s.window
            && (list_eq pin_eq r.pins s.pins
                && (list_eq staged_eq r.staging s.staging
                    && (list_eq watch_eq r.watches s.watches
                        && id_eq r.retention_root s.retention_root)))))

unfoldable pub bump : Refs → Pending → Pending
bump before pending = if refs_eq pending.refs before then pending else record pending {
  refs = record pending.refs { source_revision = before.source_revision + 1 };
}

unfoldable pub settle {ℓ} :
    {A : Type ℓ} → Refs → Pending × Result FilesError A → Pending × Result FilesError A
settle before (pending, ok output) = (bump before pending, ok output)
settle before (pending, err e) = (record pending { refs = before }, err e)

-- The transaction on the overlay.
unfoldable pub apply_pending {ℓ} : {A : Type ℓ} → Verb A → Verb A
apply_pending operation pending =
    if leb (2 ^ 64) (pending.refs.source_revision + 1)
    then (pending, err revision_exhausted)
    else settle pending.refs (operation pending)

unfoldable pub transact {ℓ} : {A : Type ℓ} → Authority → ℕ → Verb A → Fs → Fs × Result FilesError A
transact authority height operation fs = elim (validate authority) [
  | err e ↦ (fs, err e)
  | ok u ↦
      let (pending, r) = apply_pending operation (require_pending height fs) in
      (with_pending fs pending, r)
]

module _ (sha256 nfc : List ℕ → List ℕ) (base64 : List ℕ → Option (List ℕ)) (store : Store) where
  unfoldable pub putblob : Authority → ℕ → List ℕ → Fs → Fs × Result FilesError (Unit {0})
  putblob authority height bytes fs =
      transact authority height (putblob_apply sha256 fs.caps authority height bytes) fs

  unfoldable pub commit :
      Authority
      → ℕ
      → ℕ
      → Option (List ℕ)
      → List ℕ
      → List Change
      → Fs
      → Fs × Result FilesError (List Notification)
  commit authority height time base message changes fs =
      transact authority height
        (commit_apply sha256 nfc base64 fs.caps store authority height time base message changes) fs

  unfoldable pub project_snapshot :
      Authority → ℕ → ℕ → List ℕ → List ℕ → Fs → Fs × Result FilesError (List ℕ)
  project_snapshot authority height time snapshot path fs =
      transact authority height
        (project_snapshot_apply sha256 nfc fs.caps store authority height time snapshot path) fs

  unfoldable pub compare_exchange_retention :
      Authority
      → ℕ
      → List ℕ
      → Option RetentionReference
      → Option RetentionReference
      → Fs
      → Fs × Result FilesError (Unit {0})
  compare_exchange_retention authority height key expected replacement fs =
      transact authority height
        (compare_exchange_retention_apply sha256 nfc store authority height key expected
          replacement)
        fs

  unfoldable pub pin : Authority → ℕ → List ℕ → List ℕ → Fs → Fs × Result FilesError (Unit {0})
  pin authority height snapshot name fs =
      transact authority height (pin_apply sha256 fs.caps store authority height snapshot name) fs

  unfoldable pub unpin : Authority → ℕ → List ℕ → Fs → Fs × Result FilesError (Unit {0})
  unpin authority height name fs = transact authority height (unpin_apply height name) fs

  unfoldable pub watch : Authority → ℕ → List ℕ → List ℕ → Fs → Fs × Result FilesError (Unit {0})
  watch authority height prefix module_id fs =
      transact authority height (watch_apply nfc fs.caps authority height prefix module_id) fs

  unfoldable pub unwatch : Authority → ℕ → List ℕ → List ℕ → Fs → Fs × Result FilesError (Unit {0})
  unwatch authority height prefix module_id fs =
      transact authority height (unwatch_apply nfc authority height prefix module_id) fs
